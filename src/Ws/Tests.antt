-- ===== src/Ws/Tests.antt =====
-- A connection that follows server 3, and meets line 5 for the second time.
use minecraft_server_manager.Prelude.{
  ℕ, ◌≡◌, refl, true, false, none, some, List, [], ◌∷◌, codes, value_from,
}
use minecraft_server_manager.Prelude.Int.{pos}
use minecraft_server_manager.Core.LogLine.{LogLine, LineSource, info}
use minecraft_server_manager.Bus.{Event, server_topic}
use minecraft_server_manager.Runtime.RingBuffer.{RingBuffer, tail, since}
use minecraft_server_manager.Ws.{Payload, line, object, Connection, flush, split_topic}
use minecraft_server_manager.Ws.Topics.{split_topic-server_topic}
use minecraft_server_manager.Ws.Cursor.{SendsInOrder, lines_of, numbers}
use minecraft_server_manager.Ws.Interleaved.{handle_all, flush-SendsInOrder}
use minecraft_server_manager.Core.Permissions.{PermissionSet, server_permissions, user, viewer}
use minecraft_server_manager.Ws.{status, stats, logs}
use minecraft_server_manager.Ws.Rights.{IsSilent, subscribe-IsSilent}
use minecraft_server_manager.Ws.Dialogue.{
  ServerView, granted, requested_channels, open_channels, send_backlog, subscribe, Request, ping,
  ask_subscribe,
}

abbrev console_line : ℕ → LogLine
console_line n = record { seq = n; text = codes "Done!"; level = info; source = LineSource.stdout }

abbrev log_event : ℕ → Event Payload
log_event n = record { topic = codes "server.3.log"; payload = line (console_line n) }

abbrev stats_event : Event Payload
stats_event = record { topic = codes "server.3.stats"; payload = object (codes "{}") }

abbrev follower : Connection
follower = record {
  seq = 0;
  closed = false;
  reachable = true;
  subscription = record {
    id = 0;
    topics = codes "server.3.log" ∷ [];
    maxsize = 4000;
    queue = [];
    dropped = 0;
    closed = false;
  };
  log_cursor = (3, 5) ∷ [];
  subscribed = 3 ∷ [];
  sent = [];
}

abbrev test_batch : List (Event Payload)
test_batch = log_event 5 ∷ stats_event ∷ log_event 6 ∷ log_event 7 ∷ []

abbrev short_history : RingBuffer
short_history = record {
  maxlen = 10;
  lines = console_line 1 ∷ console_line 2 ∷ console_line 3 ∷ [];
  dropped = 0;
}

abbrev test_view : ServerView
test_view = record { snapshot = codes "{}"; log_seq = 3; buffer = short_history }

abbrev later_view : ServerView
later_view = record {
  snapshot = codes "{}";
  log_seq = 6;
  buffer = record { maxlen = 10; lines = console_line 5 ∷ console_line 6 ∷ []; dropped = 0 };
}

abbrev every_right : PermissionSet
every_right p = true

-- While the statistics are sent the client asks for an answer, and while the lines are, to follow
-- another server.
abbrev asked_early : ℕ → List Request
asked_early n = ping ∷ []

abbrev asked_late : ℕ → List Request
asked_late id =
    ask_subscribe (some 4) (some logs ∷ []) none (granted every_right) (some test_view) ∷ []

flush-SendsInOrder_example :
    SendsInOrder 3 follower
      (flush
        (λ n. handle_all (asked_early n))
        (λ n. handle_all (asked_late n))
        test_batch
        follower).0
flush-SendsInOrder_example =
    flush-SendsInOrder 3 asked_early asked_late test_batch follower (λ n. (refl, tt))
      (λ n. (refl, tt))

abbrev unanswered : ℕ → Connection → Connection
unanswered n c = c

flush_skips :
    numbers (lines_of 3 (flush unanswered unanswered test_batch follower).0.sent) ≡ 6 ∷ 7 ∷ []
unfolding flush value_from
flush_skips = refl

-- A resubscription to the same server after line 5, handled while the statistics are sent: line 6
-- leaves in the backlog, and again with the batch that had gathered it.
abbrev resumed : ℕ → Connection → Connection
resumed n c =
    subscribe (some 3) (some logs ∷ []) (some (pos 5)) (granted every_right) (some later_view) c

line_sent_twice :
    numbers (lines_of 3 (flush resumed unanswered (log_event 6 ∷ stats_event ∷ []) follower).0.sent)
    ≡ 6 ∷ 6 ∷ []
unfolding flush value_from subscribe requested_channels open_channels send_backlog tail since
line_sent_twice = refl

split_topic-server_topic_example :
    split_topic (server_topic 31 (codes "player_join")) ≡ (some 31, codes "player_join")
split_topic-server_topic_example = split_topic-server_topic 31 (codes "player_join") refl

abbrev view_only : PermissionSet
view_only p = server_permissions user (some viewer) p

subscribe-IsSilent_example : IsSilent 4 follower (
    subscribe
      (some 4)
      (some status ∷ some stats ∷ [])
      none
      (granted view_only)
      (some test_view)
      follower)
unfolding server_permissions
subscribe-IsSilent_example =
    subscribe-IsSilent 4 (some status ∷ some stats ∷ []) none view_only (some test_view) follower
      refl
