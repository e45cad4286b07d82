-- ===== src/Bus.antt =====
-- backend/msm/bus/event_bus.py and topics.py: the in-memory bus between the runtimes and their
-- listeners. A subscription is named by its identity; payloads are of any type.
pub mod Queue
pub mod Topics
pub mod Delivery
mod Tests
use minecraft_server_manager.Prelude.{
  ℕ, ◌+◌, ◌≤◌, Bool, true, false, ◌||◌, ◌&&◌, Option, none, some, List, [], ◌∷◌, ◌++◌, length, drop,
  any, map, leb, ltb, ◌==◌, if◌then◌else◌, Text, text_eq, starts_with, ends_with_char, codes,
  decimal, keep, not,
}

pub record Event (A : Type 0) : Type 0 where
  pub topic : Text
  pub payload : A

-- `Subscription`, with its `asyncio.Queue`, whose capacity is without limit at 0.
pub record Subscription (A : Type 0) : Type 0 where
  pub id : ℕ
  pub topics : List Text
  pub maxsize : ℕ
  pub queue : List (Event A)
  pub dropped : ℕ
  pub closed : Bool

pub record EventBus (A : Type 0) : Type 0 where
  pub next_id : ℕ
  pub subscriptions : List (Subscription A)

-- topics.py
abbrev pub dot : ℕ
dot = b'.'

unfoldable pub server_topic : ℕ → Text → Text
server_topic server_id event = codes "server." ++ (decimal server_id ++ (dot ∷ event))

unfoldable pub server_pattern : ℕ → Text
server_pattern server_id = codes "server." ++ (decimal server_id ++ (dot ∷ []))

unfoldable pub system_topic : Text → Text
system_topic event = codes "system." ++ event

-- The loop of `matches`.
unfoldable pub matches_any : List Text → Text → Bool
matches_any [] topic = false
matches_any (subscribed ∷ rest) topic =
    let others = matches_any rest topic in
    if ends_with_char dot subscribed
    then (if starts_with subscribed topic then true else others)
    else if text_eq topic subscribed
    then true
    else others

module _ {A : Type 0} where
  -- `asyncio.Queue.full`
  abbrev is_full : ℕ → List (Event A) → Bool
  is_full maxsize queue = ltb 0 maxsize && leb maxsize (length queue)

  unfoldable pub matches : Subscription A → Text → Bool
  unfolding matches_any
  matches s topic = matches_any s.topics topic

  unfoldable pub add_topic : Text → Subscription A → Subscription A
  add_topic topic s = record s {
    topics = if any (text_eq topic) s.topics then s.topics else s.topics ++ topic ∷ [];
  }

  unfoldable pub remove_topic : Text → Subscription A → Subscription A
  remove_topic topic s = record s { topics = keep (λ t. not (text_eq topic t)) s.topics }

  -- `_deliver`: the second `put_nowait` counts a loss too if the queue is still full.
  unfoldable pub deliver : Event A → Subscription A → Subscription A
  deliver e s =
      if s.closed
      then s
      else if is_full s.maxsize s.queue
      then (let rest = drop 1 s.queue in
          if is_full s.maxsize rest
          then record s { queue = rest; dropped = s.dropped + 2 }
          else record s { queue = rest ++ e ∷ []; dropped = s.dropped + 1 })
      else record s { queue = s.queue ++ e ∷ [] }

  abbrev take_first : Subscription A → List (Event A) → Option (Event A × Subscription A)
  take_first s [] = none
  take_first s (e ∷ rest) = some (e, record s { queue = rest })

  -- `get`; `none` while it waits for an event.
  unfoldable pub get : Subscription A → Option (Event A × Subscription A)
  get s = take_first s s.queue

  unfoldable pub take_dropped : Subscription A → ℕ × Subscription A
  take_dropped s = (s.dropped, record s { dropped = 0 })

  -- `subscribe`; `none` is the ValueError for no topic at all. Equal topics are one.
  abbrev add_topics : List Text → Subscription A → Subscription A
  add_topics [] s = s
  add_topics (t ∷ ts) s = add_topics ts (add_topic t s)

  abbrev opened : ℕ → List Text → ℕ → Subscription A
  opened id topics maxsize =
      add_topics topics (record {
        id = id;
        topics = [];
        maxsize = maxsize;
        queue = [];
        dropped = 0;
        closed = false;
      })

  unfoldable pub subscribe : List Text → ℕ → EventBus A → Option (Subscription A × EventBus A)
  unfolding add_topic
  subscribe [] maxsize bus = none
  subscribe (t ∷ ts) maxsize bus =
      let s = opened bus.next_id (t ∷ ts) maxsize in
      some (s, record { next_id = bus.next_id + 1; subscriptions = bus.subscriptions ++ s ∷ [] })

  -- `list.remove`: the first subscription that is this one.
  unfoldable pub remove_id : ℕ → List (Subscription A) → List (Subscription A)
  remove_id id [] = []
  remove_id id (s ∷ rest) =
      let others = remove_id id rest in if s.id == id then rest else s ∷ others

  unfoldable pub unsubscribe : ℕ → EventBus A → EventBus A
  unfolding remove_id
  unsubscribe id bus = record bus { subscriptions = remove_id id bus.subscriptions }

  unfoldable pub deliver_matching : Event A → List (Subscription A) → List (Subscription A)
  unfolding matches deliver
  deliver_matching e [] = []
  deliver_matching e (s ∷ rest) =
      (if matches s e.topic then deliver e s else s) ∷ deliver_matching e rest

  unfoldable pub publish : Text → A → EventBus A → EventBus A
  unfolding deliver_matching
  publish topic payload bus =
      let e : Event A = record { topic = topic; payload = payload } in
      record bus { subscriptions = deliver_matching e bus.subscriptions }

  unfoldable pub has_subscribers : Text → EventBus A → Bool
  unfolding matches
  has_subscribers topic bus = any (λ s. matches s topic) bus.subscriptions

  -- `Subscription.close`, on the subscription and its bus.
  unfoldable pub close : Subscription A → EventBus A → Subscription A × EventBus A
  unfolding unsubscribe
  close s bus = if s.closed then (s, bus) else (record s { closed = true }, unsubscribe s.id bus)

  -- `EventBus.close`: every subscription is closed and taken off.
  unfoldable pub close_all : EventBus A → EventBus A
  close_all bus = record bus { subscriptions = [] }
