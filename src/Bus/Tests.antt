-- ===== src/Bus/Tests.antt =====
-- The bus on concrete events, with numbers as payloads.
use minecraft_server_manager.Prelude.{
  ℕ, ◌+◌, ◌≡◌, ◌↔◌, refl, true, false, [], ◌∷◌, codes, arith, if◌then◌else◌, ltb,
}
use minecraft_server_manager.Bus.{
  Event, Subscription, EventBus, server_pattern, server_topic, matches_any, deliver,
}
use minecraft_server_manager.Bus.Queue.{Tracks, deliver-Tracks}
use minecraft_server_manager.Bus.Topics.{matches_pattern_iff}

abbrev first_event : Event ℕ
first_event = record { topic = codes "system.stats"; payload = 1 }

abbrev second_event : Event ℕ
second_event = record { topic = codes "system.stats"; payload = 2 }

-- A listener with room for one event, which is waiting.
abbrev listener : Subscription ℕ
listener = record {
  id = 0;
  topics = codes "system." ∷ [];
  maxsize = 1;
  queue = first_event ∷ [];
  dropped = 0;
  closed = false;
}

abbrev one_listener : EventBus ℕ
one_listener = record { next_id = 1; subscriptions = listener ∷ [] }

listener-Tracks : Tracks (first_event ∷ []) 0 0 listener
listener-Tracks = record {
  is_open = refl;
  capacity = omega arith;
  queued = refl;
  bounded = omega arith;
  counted = refl;
}

deliver-Tracks_example :
    (evicted : ℕ) × Tracks
      (first_event ∷ second_event ∷ [])
      0
      (0 + evicted)
      (deliver second_event listener)
    × ((deliver second_event listener).dropped ≡ 0 + evicted)
    × (evicted ≡ (if ltb 1 1 then 0 else 1))
deliver-Tracks_example = deliver-Tracks (first_event ∷ []) 0 0 listener second_event listener-Tracks

matches_pattern_iff_example :
    (matches_any (server_pattern 3 ∷ []) (server_topic 31 (codes "log")) ≡ true) ↔ ◌≡◌ {A = ℕ} 3 31
matches_pattern_iff_example = matches_pattern_iff 3 31 (codes "log")

eviction : (deliver second_event listener).queue ≡ second_event ∷ []
unfolding deliver
eviction = refl
