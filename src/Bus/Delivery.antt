-- ===== src/Bus/Delivery.antt =====
-- The register of subscriptions of event_bus.py.
use minecraft_server_manager.Prelude.{
  ℕ, ◌<◌, ◌≡◌, refl, Option, none, some, List, [], ◌∷◌, ◌==◌, if◌then◌else◌, Text, arith,
}
use minecraft_server_manager.Bus.{
  Event, Subscription, EventBus, deliver, matches, deliver_matching, publish, remove_id,
  unsubscribe,
}

module _ {A : Type 0} where
  abbrev pub find : ℕ → List (Subscription A) → Option (Subscription A)
  find id [] = none
  find id (s ∷ rest) = if s.id == id then some s else find id rest

  -- Identities are distinct, and below the next one.
  abbrev Below : ℕ → List (Subscription A) → Type 0
  Below n [] = Unit
  Below n (s ∷ rest) = (s.id < n) × (find s.id rest ≡ none) × Below n rest

  abbrev pub IsRegister : EventBus A → Type 0
  IsRegister bus = Below bus.next_id bus.subscriptions

  id-deliver : (e : Event A) (s : Subscription A) → (deliver e s).id ≡ s.id
  unfolding deliver
  id-deliver e s = ground arith

  abbrev pub delivered : Event A → Option (Subscription A) → Option (Subscription A)
  delivered e none = none
  delivered e (some s) = some (if matches s e.topic then deliver e s else s)

  find-deliver_matching :
      (id : ℕ) (e : Event A) (subs : List (Subscription A))
      → find id (deliver_matching e subs) ≡ delivered e (find id subs)
  unfolding deliver_matching
  find-deliver_matching id e [] = refl
  find-deliver_matching id e (s ∷ rest) =
      ground (arith, id-deliver e s, find-deliver_matching id e rest)

  find-fresh : (n : ℕ) (subs : List (Subscription A)) → Below n subs → find n subs ≡ none
  find-fresh n [] h = refl
  find-fresh n (s ∷ rest) h = ground (arith, find-fresh n rest h.2)

  find-remove_id :
      (id other n : ℕ) (subs : List (Subscription A))
      → Below n subs
      → find other (remove_id id subs) ≡ (if other == id then none else find other subs)
  unfolding remove_id
  find-remove_id id other n [] h = ground arith
  find-remove_id id other n (s ∷ rest) h = ground (arith, find-remove_id id other n rest h.2)

  -- Publishing delivers the event to each registered subscription that matches its topic, and
  -- leaves every other one as it was, whatever the state of the others: a slow reader slows no one.
  pub find-publish :
      (id : ℕ) (topic : Text) (payload : A) (bus : EventBus A)
      → find id (publish topic payload bus).subscriptions
        ≡ delivered (record { topic = topic; payload = payload }) (find id bus.subscriptions)
  unfolding publish
  find-publish id topic payload bus =
      find-deliver_matching id (record { topic = topic; payload = payload }) bus.subscriptions

  -- A subscription that is taken off the register is found no more, and the others stay as they are.
  pub find-unsubscribe :
      (id other : ℕ) (bus : EventBus A)
      → IsRegister bus
      → find other (unsubscribe id bus).subscriptions
        ≡ (if other == id then none else find other bus.subscriptions)
  unfolding unsubscribe
  find-unsubscribe id other bus h = find-remove_id id other bus.next_id bus.subscriptions h
