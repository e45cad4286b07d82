-- ===== src/Ws/Dialogue.antt =====
-- backend/msm/ws/connection.py: the messages of a client, and the backlog of a subscription.
use minecraft_server_manager.Prelude.{
  ℕ, ◌+◌, ◌-◌, Bool, true, false, ◌&&◌, not, Option, none, some, List, [], ◌∷◌, Text, codes,
  if◌then◌else◌, insert, erase, add, discard, nat_eq, ltb, last?, any,
}
use minecraft_server_manager.Prelude.Int.{ℤ, pos, negsuc}
use minecraft_server_manager.Core.LogLine.{LogLine}
use minecraft_server_manager.Core.Permissions.{PermissionSet, server_view, console_read}
use minecraft_server_manager.Bus.{Subscription, add_topic, remove_topic, server_topic}
use minecraft_server_manager.Runtime.RingBuffer.{RingBuffer, tail, since}
use minecraft_server_manager.Ws.{
  pong, subscribed, unsubscribed, server_status, server_log, log_truncated, Channel, status, logs,
  channel_events, all_channels, Payload, object, empty, payload, lines, missed, channels,
  Connection, send, send_error,
}

abbrev pub default_backlog : ℕ
default_backlog = 300

abbrev pub max_backlog : ℕ
max_backlog = 2000

-- What the connection reads of a runtime: its snapshot as JSON, and its history.
pub record ServerView : Type 0 where
  pub snapshot : Text
  pub log_seq : ℕ
  pub buffer : RingBuffer

-- The answer of `_authorize`: the code of the error it raises, or the permissions on the server.
pub data Access : Type 0 where
  refused : Text → Access
  granted : PermissionSet → Access

unfoldable pub backlog_lines : Option ℤ → RingBuffer → List LogLine
backlog_lines (some (pos n)) b = since b n (some max_backlog)
backlog_lines (some (negsuc n)) b = tail b default_backlog
backlog_lines none b = tail b default_backlog

abbrev pub send_lines : ℕ → List LogLine → Option LogLine → ServerView → Connection → Connection
send_lines id ls none view c = record c { log_cursor = insert id view.log_seq c.log_cursor }
send_lines id ls (some final) view c =
    send server_log (lines ls true) (some id)
      (record c { log_cursor = insert id final.seq c.log_cursor })

-- The number of missing lines that is announced, if any; `first` is what `logs_tail(1)` gives.
unfoldable pub truncation : Option ℤ → List LogLine → Option ℕ
truncation none first = none
truncation (some n) [] = none
truncation (some (pos n)) (l ∷ ls) = if ltb (n + 1) l.seq then some (l.seq - n - 1) else none
truncation (some (negsuc n)) (l ∷ ls) = if ltb 0 (l.seq + n) then some (l.seq + n) else none

abbrev pub announce : ℕ → Option ℕ → Connection → Connection
announce id none c = c
announce id (some n) c = send log_truncated (missed n) (some id) c

-- `_send_backlog`
unfoldable pub send_backlog : ℕ → Option ℤ → ServerView → Connection → Connection
unfolding backlog_lines truncation send
send_backlog id resume_from view c =
    let ls = backlog_lines resume_from view.buffer in
    announce id (truncation resume_from (tail view.buffer 1)) (send_lines id ls (last? ls) view c)

abbrev pub add_events : ℕ → List Text → Subscription Payload → Subscription Payload
add_events id [] s = s
add_events id (e ∷ es) s = add_events id es (add_topic (server_topic id e) s)

abbrev pub add_channels : ℕ → List Channel → Subscription Payload → Subscription Payload
add_channels id [] s = s
add_channels id (ch ∷ chs) s = add_channels id chs (add_events id (channel_events ch) s)

abbrev remove_events : ℕ → List Text → Subscription Payload → Subscription Payload
remove_events id [] s = s
remove_events id (e ∷ es) s = remove_events id es (remove_topic (server_topic id e) s)

abbrev pub remove_channels : ℕ → List Channel → Subscription Payload → Subscription Payload
remove_channels id [] s = s
remove_channels id (ch ∷ chs) s = remove_channels id chs (remove_events id (channel_events ch) s)

abbrev pub is_status : Channel → Bool
is_status status = true
is_status _ = false

abbrev pub is_logs : Channel → Bool
is_logs logs = true
is_logs _ = false

-- The channels asked for, less the unknown ones; all of them if none is named.
abbrev pub known_channels : List (Option Channel) → List Channel
known_channels [] = []
known_channels (none ∷ rest) = known_channels rest
known_channels (some ch ∷ rest) = ch ∷ known_channels rest

unfoldable pub requested_channels : List (Option Channel) → List Channel
requested_channels [] = all_channels
requested_channels (ch ∷ chs) = known_channels (ch ∷ chs)

-- From the acceptance of the channels on.
unfoldable pub open_channels : ℕ → List Channel → Option ℤ → ServerView → Connection → Connection
open_channels id chs resume_from view c =
    let c1 = record c {
      subscription = add_channels id chs c.subscription;
      subscribed = add id c.subscribed;
    } in
    let c2 = send subscribed (channels chs) (some id) c1 in
    let c3 =
      if any is_status chs
      then send server_status (payload (object view.snapshot)) (some id) c2
      else c2 in
    if any is_logs chs then send_backlog id resume_from view c3 else c3

-- `context.require` of the two permissions, and the search of the runtime between them.
abbrev pub subscribe_with :
    PermissionSet
    → ℕ
    → List (Option Channel)
    → Option ℤ
    → Option ServerView
    → Connection
    → Connection
subscribe_with rights id asked resume_from none c =
    if rights server_view
    then send_error (codes "NOT_FOUND") c
    else send_error (codes "PERMISSION_DENIED") c
subscribe_with rights id asked resume_from (some view) c =
    let chs = requested_channels asked in
    if rights server_view
    then (if any is_logs chs && not (rights console_read)
        then send_error (codes "PERMISSION_DENIED") c
        else open_channels id chs resume_from view c)
    else send_error (codes "PERMISSION_DENIED") c

-- `_subscribe`, with the identifier that the message bears, if it is an integer.
unfoldable pub subscribe :
    Option ℕ
    → List (Option Channel)
    → Option ℤ
    → Access
    → Option ServerView
    → Connection
    → Connection
subscribe none asked resume_from access view c = send_error (codes "INVALID_SUBSCRIPTION") c
subscribe (some id) asked resume_from (refused code) view c = send_error code c
subscribe (some id) asked resume_from (granted rights) view c =
    subscribe_with rights id asked resume_from view c

-- `_unsubscribe`
unfoldable pub unsubscribe : Option ℕ → Connection → Connection
unfolding send
unsubscribe none c = c
unsubscribe (some id) c = send unsubscribed empty (some id) (record c {
  subscription = remove_channels id all_channels c.subscription;
  subscribed = discard id c.subscribed;
  log_cursor = erase id c.log_cursor;
})

-- The message of a client, and `_handle`.
pub data Request : Type 0 where
  not_an_object unknown_type ping : Request
  ask_subscribe : Option ℕ → List (Option Channel) → Option ℤ → Access → Option ServerView → Request
  ask_unsubscribe : Option ℕ → Request

unfoldable pub handle : Request → Connection → Connection
unfolding send_error
handle not_an_object c = send_error (codes "INVALID_MESSAGE") c
handle unknown_type c = send_error (codes "UNKNOWN_MESSAGE") c
handle ping c = send pong empty none c
handle (ask_subscribe id asked resume_from access view) c =
    subscribe id asked resume_from access view c
handle (ask_unsubscribe id) c = unsubscribe id c
