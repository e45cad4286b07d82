-- ===== src/Runtime/Server/Coherent.antt =====
-- Whatever the order in which its inputs come, a runtime stays coherent: the invariant, and the
-- rules for the changes of state.
pub mod Calls
pub mod Tasks
pub mod Launches
pub mod Run
use minecraft_server_manager.Prelude.{
  ◌≡◌, refl, sym, subst, inl, inr, Bool-cases, Bool, true, false, some, is_some, arith,
}
use minecraft_server_manager.Core.States.{
  ServerState, offline, starting, online, stopping, crashed, unknown, is_running, same_state,
  can_transition,
}
use minecraft_server_manager.Core.States.Reach.{same_state_eq}
use minecraft_server_manager.Runtime.Server.Model.{
  Message, illegal_transition, Phase, unlocked, checking_orphan, preparing, spawning,
  stopping_adopted, Supervision, no_supervision, waiting, draining, Runtime,
}
use minecraft_server_manager.Runtime.Server.Console.{
  Result, Action, Done, continue, ok, err, ◌>>◌, set_state, publish_status, is_alive_handle,
}
use minecraft_server_manager.Runtime.Server.Steps.{is_unlocked}

abbrev pub is_launching : ServerState → Bool
is_launching starting = true
is_launching online = true
is_launching stopping = true
is_launching _ = false

abbrev pub is_supervised : Supervision → Bool
is_supervised no_supervision = false
is_supervised waiting = true
is_supervised (draining up) = true

-- What holds while a call of `start` or `stop` holds the lock.
abbrev pub Holding : Phase → ServerState → Bool → Bool → Type 0
Holding unlocked s adopted alive = Unit
Holding (checking_orphan actor) s adopted alive =
    (is_running s ≡ false) × (adopted ≡ false) × (alive ≡ false)
Holding (preparing actor) s adopted alive =
    (is_launching s ≡ true) × (adopted ≡ false) × (alive ≡ false)
Holding (spawning actor) s adopted alive =
    (is_launching s ≡ true) × (adopted ≡ false) × (alive ≡ false)
Holding (stopping_adopted force) s adopted alive = alive ≡ false

-- A live process, of its own or adopted, is shown as running; there is one of them at most; a
-- process is supervised only while it is shown as running, with nothing adopted and no one starting.
pub record IsCoherent (r : Runtime) : Type 0 where
  pub own_runs : is_alive_handle r.handle ≡ true → is_running r.state ≡ true
  pub adopted_runs : is_some r.adopted ≡ true → is_running r.state ≡ true
  pub exclusive : is_some r.adopted ≡ true → is_alive_handle r.handle ≡ false
  pub supervised :
      is_supervised r.supervision ≡ true
      → (is_running r.state ≡ true) × (is_some r.adopted ≡ false) × (is_unlocked r.phase ≡ true)
  pub holding : Holding r.phase r.state (is_some r.adopted) (is_alive_handle r.handle)

-- The result is not the exception for an illegal change of state.
abbrev pub IsLegal : {A : Type 0} → Result A → Type 0
IsLegal (ok a) = Unit
IsLegal (err (illegal_transition s t)) = ⊥
IsLegal (err _) = Unit

-- What `_set_state` and the console leave alone.
pub record SameProcess (r r' : Runtime) : Type 0 where
  pub handle : r'.handle ≡ r.handle
  pub adopted : r'.adopted ≡ r.adopted
  pub supervision : r'.supervision ≡ r.supervision
  pub phase : r'.phase ≡ r.phase

-- What writes to the console only: the state stays too.
pub record SameState (r r' : Runtime) : Type 0 where
  pub state : r'.state ≡ r.state
  pub process : SameProcess r r'

-- A legal change of state succeeds, and touches neither the processes nor the lock.
pub set_state-legal :
    (target : ServerState) (reason : Message) (r : Runtime)
    → can_transition r.state target ≡ true
    → (r' : Runtime) × (set_state target reason r ≡ (ok tt, r'))
      × (r'.state ≡ target)
      × SameProcess r r'
unfolding set_state
set_state-legal target reason r h = elim (Bool-cases (same_state target r.state)) [
  | inl same ↦ (
    r,
    rw same refl,
    sym (same_state_eq target r.state same),
    record { handle = refl; adopted = refl; supervision = refl; phase = refl },
  )
  | inr other ↦ (
    publish_status (record r { state = target; state_since = r.clock; state_reason = some reason }),
    rw (other, h) refl,
    unfold publish_status in refl,
    unfold publish_status in
        record { handle = refl; adopted = refl; supervision = refl; phase = refl },
  )
]

pub to_offline : (s : ServerState) → can_transition s offline ≡ true
unfolding can_transition
to_offline s = ground arith

pub to_stopping : (s : ServerState) → is_running s ≡ true → can_transition s stopping ≡ true
unfolding can_transition is_running
to_stopping s h = ground arith

pub to_starting : (s : ServerState) → is_running s ≡ false → can_transition s starting ≡ true
unfolding can_transition is_running
to_starting s h = ground arith

pub to_unknown : (s : ServerState) → is_running s ≡ true → can_transition s unknown ≡ true
unfolding can_transition is_running
to_unknown s h = ground arith

pub to_online : (s : ServerState) → same_state s starting ≡ true → can_transition s online ≡ true
unfolding can_transition same_state
to_online s h = ground arith

pub to_crashed : (s : ServerState) → is_running s ≡ true → can_transition s crashed ≡ true
unfolding can_transition is_running
to_crashed s h = ground arith

abbrev pub Good : {A : Type 0} → Result A × Runtime → Type 0
Good x = IsCoherent x.1 × IsLegal x.0

-- After a legal change of state the rest of a method goes on from a runtime of which only the new
-- state and the untouched fields are known.
pub set_state-then :
    {A : Type 0}
    → (target : ServerState) (reason : Message) (k : Action A) (r : Runtime)
    → can_transition r.state target ≡ true
    → ((r' : Runtime) → r'.state ≡ target → SameProcess r r' → Good (k r'))
    → Good ((set_state target reason >> k) r)
set_state-then target reason k r h rest =
    let (r', e, now, same) = set_state-legal target reason r h in
    subst (λ x. Good (continue x k)) (sym e) (rest r' now same)
