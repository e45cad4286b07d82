-- ===== src/Ws.antt =====
-- backend/msm/ws/connection.py and messages.py: one WebSocket connection. The frames that left are
-- kept in `sent`; `reachable` tells whether `send_json` still succeeds. What the database and the
-- supervisor answer is an argument.
pub mod Dialogue
pub mod Topics
pub mod Cursor
pub mod Interleaved
pub mod Backlog
pub mod Rights
mod Tests
use minecraft_server_manager.Prelude.{
  ℕ, ◌+◌, ◌-◌, Bool, true, false, ◌&&◌, not, Option, none, some, List, [], ◌∷◌, ◌++◌, length, Text,
  codes, if◌then◌else◌, Dict, lookup, insert, erase, add, discard, text_key, nat_eq, split,
  read_int, text_eq, ltb, leb, last?,
}
use minecraft_server_manager.Prelude.Int.{ℤ, pos, negsuc}
use minecraft_server_manager.Core.LogLine.{LogLine}
use minecraft_server_manager.Core.Permissions.{PermissionSet, server_view, console_read}
use minecraft_server_manager.Bus.{Event, Subscription, add_topic, remove_topic, server_topic, dot}
use minecraft_server_manager.Runtime.RingBuffer.{RingBuffer, tail, since}

-- The message types to a client.
pub data MessageType : Type 0 where
  ready pong subscribed unsubscribed error server_status server_log server_stats : MessageType
  server_players server_player_join server_player_leave server_crash : MessageType
  server_restart_scheduled event_run backup_progress log_truncated system_stats : MessageType
  notification : MessageType

-- `TOPIC_TO_MESSAGE`
abbrev pub topic_to_message : Dict Text MessageType
topic_to_message =
    (codes "status", server_status)
    ∷ (codes "log", server_log)
    ∷ (codes "stats", server_stats)
    ∷ (codes "players", server_players)
    ∷ (codes "player_join", server_player_join)
    ∷ (codes "player_leave", server_player_leave)
    ∷ (codes "crash", server_crash)
    ∷ (codes "restart_scheduled", server_restart_scheduled)
    ∷ (codes "event_run", event_run)
    ∷ (codes "backup", backup_progress)
    ∷ []

-- The channels that a client can ask for, and their events (`CHANNELS`).
pub data Channel : Type 0 where
  status logs stats players events backups : Channel

abbrev pub channel_events : Channel → List Text
channel_events status = codes "status" ∷ codes "crash" ∷ codes "restart_scheduled" ∷ []
channel_events logs = codes "log" ∷ []
channel_events stats = codes "stats" ∷ []
channel_events players = codes "players" ∷ codes "player_join" ∷ codes "player_leave" ∷ []
channel_events events = codes "event_run" ∷ []
channel_events backups = codes "backup" ∷ []

abbrev pub all_channels : List Channel
all_channels = status ∷ logs ∷ stats ∷ players ∷ events ∷ backups ∷ []

-- What travels on the bus: a console line, or any other JSON object, by its text.
pub data Payload : Type 0 where
  line : LogLine → Payload
  object : Text → Payload

pub data Body : Type 0 where
  empty : Body
  payload : Payload → Body
  lines : List LogLine → Bool → Body
  missed : ℕ → Body
  channels : List Channel → Body
  failure : Text → Body

-- `envelope`, less its time.
pub record Frame : Type 0 where
  pub type : MessageType
  pub server_id : Option ℕ
  pub seq : ℕ
  pub body : Body

pub record Connection : Type 0 where
  pub seq : ℕ
  pub closed : Bool
  pub reachable : Bool
  pub subscription : Subscription Payload
  pub log_cursor : Dict ℕ ℕ
  pub subscribed : List ℕ
  pub sent : List Frame

-- `_send`
unfoldable pub send : MessageType → Body → Option ℕ → Connection → Connection
send type body server_id c =
    let frame : Frame = record {
      type = type;
      server_id = server_id;
      seq = c.seq + 1;
      body = body;
    } in
    if c.closed
    then c
    else if c.reachable
    then record c { seq = c.seq + 1; sent = c.sent ++ frame ∷ [] }
    else record c { seq = c.seq + 1; closed = true }

unfoldable pub send_error : Text → Connection → Connection
unfolding send
send_error code = send error (failure code) none

-- `_split_topic`
abbrev last_part : List Text → Text
last_part [] = []
last_part (p ∷ []) = p
last_part (p ∷ q ∷ ps) = last_part (q ∷ ps)

abbrev parts_of : List Text → Option ℕ × Text
parts_of (domain ∷ id ∷ event ∷ []) =
    (if text_eq domain (codes "server") then read_int id else none, event)
parts_of parts = (none, last_part parts)

unfoldable pub split_topic : Text → Option ℕ × Text
unfolding read_int
split_topic topic = parts_of (split dot topic)

-- The lines that `_flush` has gathered by server.
abbrev pub Groups : Type 0
Groups = Dict ℕ (List LogLine)

abbrev pub lines_for : Option (List LogLine) → List LogLine
lines_for none = []
lines_for (some ls) = ls

abbrev pub cursor_at : Option ℕ → ℕ
cursor_at none = 0
cursor_at (some n) = n

abbrev pub cursor : ℕ → Connection → ℕ
cursor server_id c = cursor_at (lookup server_id c.log_cursor)

unfoldable pub gather : ℕ → LogLine → Groups → Connection → Groups × Connection
gather server_id l groups c = if leb l.seq (cursor server_id c) then (groups, c) else (
  insert server_id (lines_for (lookup server_id groups) ++ l ∷ []) groups,
  record c { log_cursor = insert server_id l.seq c.log_cursor },
)

abbrev pub is_server_log : MessageType → Bool
is_server_log server_log = true
is_server_log _ = false

-- One event of a batch, which is of the type SERVER_LOG or not; none is the AttributeError for a
-- payload that is no line. `meanwhile` is what is done with the messages of the client that are handled
-- while the sending of this event is awaited.
unfoldable pub collect_one :
    Bool
    → MessageType
    → Option ℕ
    → Payload
    → (Connection → Connection)
    → Groups
    → Connection
    → Option Groups × Connection
unfolding send gather
collect_one true type (some server_id) (line l) meanwhile groups c =
    let (groups', c') = gather server_id l groups c in (some groups', c')
collect_one true type (some server_id) (object o) meanwhile groups c = (none, c)
collect_one is_log type server_id p meanwhile groups c =
    (some groups, meanwhile (send type (payload p) server_id c))

unfoldable pub collect_as :
    Option MessageType
    → Option ℕ
    → Payload
    → (Connection → Connection)
    → Groups
    → Connection
    → Option Groups × Connection
unfolding collect_one
collect_as none server_id p meanwhile groups c = (some groups, c)
collect_as (some type) server_id p meanwhile groups c =
    collect_one (is_server_log type) type server_id p meanwhile groups c

abbrev pub then_collect :
    Option Groups × Connection
    → (Groups → Connection → Option Groups × Connection)
    → Option Groups × Connection
then_collect (none, c) rest = (none, c)
then_collect (some groups, c) rest = rest groups c

-- The first loop; `during n` is handled while the event with `n` others after it is sent.
unfoldable pub collect :
    (ℕ → Connection → Connection)
    → List (Event Payload)
    → Groups
    → Connection
    → Option Groups × Connection
unfolding collect_as split_topic
collect during [] groups c = (some groups, c)
collect during (e ∷ es) groups c =
    let (server_id, suffix) = split_topic e.topic in
    then_collect
      (collect_as (lookup suffix topic_to_message) server_id e.payload (during (length es)) groups
        c)
      (collect during es)

-- The second loop; `later id` is handled while the lines of the server `id` are sent.
unfoldable pub send_groups : (ℕ → Connection → Connection) → Groups → Connection → Connection
unfolding send
send_groups later [] c = c
send_groups later ((server_id, ls) ∷ rest) c =
    send_groups later rest (later server_id (send server_log (lines ls false) (some server_id) c))

abbrev pub finish_flush :
    (ℕ → Connection → Connection) → Option Groups × Connection → Connection × Bool
finish_flush later (none, c) = (c, false)
finish_flush later (some groups, c) = (send_groups later groups c, true)

-- `_flush`, with what is done with the client's messages at each of its awaits. The result is the
-- connection, and whether the writer goes on.
unfoldable pub flush :
    (ℕ → Connection → Connection)
    → (ℕ → Connection → Connection)
    → List (Event Payload)
    → Connection
    → Connection × Bool
unfolding collect send_groups
flush during later batch c = finish_flush later (collect during batch [] c)
