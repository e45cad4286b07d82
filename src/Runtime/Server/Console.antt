-- ===== src/Runtime/Server/Console.antt =====
-- server_runtime.py: actions on the runtime, the console, the state changes and the publications.
use minecraft_server_manager.Prelude.{
  ℕ, Bool, true, false, Option, none, some, [], ◌∷◌, ◌++◌, length, if◌then◌else◌, is_some, Text,
}
use minecraft_server_manager.Core.States.{ServerState, same_state, can_transition}
use minecraft_server_manager.Core.LogLine.{LogLevel, info, LineSource}
use minecraft_server_manager.Runtime.Pipeline
use minecraft_server_manager.Runtime.Pipeline.{Parsed}
use minecraft_server_manager.Runtime.Server.Model.{
  Message, Error, illegal_transition, Handle, AdoptedProcess, Snapshot, Published, Runtime, log,
  status,
}

pub data Result (A : Type 0) : Type 0 where
  ok : A → Result A
  err : Error → Result A

-- A method call. What was changed before an exception stays changed.
abbrev pub Action : Type 0 → Type 0
Action A = Runtime → Result A × Runtime

abbrev pub Done : Type 0
Done = Unit {0}

-- What follows a call that returned; an exception skips it.
abbrev pub continue : {A B : Type 0} → Result A × Runtime → Action B → Result B × Runtime
continue (ok a, r) k = k r
continue (err e, r) k = (err e, r)

infixl 5 ◌>>◌
abbrev pub ◌>>◌ : {A B : Type 0} → Action A → Action B → Action B
◌>>◌ m k r = continue (m r) k

abbrev pub modify : (Runtime → Runtime) → Action Done
modify f r = (ok tt, f r)

abbrev pub raise : {A : Type 0} → Error → Action A
raise e r = (err e, r)

abbrev pub skip : Action Done
skip r = (ok tt, r)

abbrev pub unless_error : Option Error → Action Done
unless_error none = skip
unless_error (some e) = raise e

unfoldable pub is_alive_handle : Option Handle → Bool
is_alive_handle none = false
is_alive_handle (some h) = elim h.exit [ none ↦ true | some code ↦ false ]

abbrev pub pid_of : Option AdoptedProcess → Option Handle → Option ℕ
pid_of (some a) h = some a.pid
pid_of none none = none
pid_of none (some h) = some h.pid

abbrev pub writable : Option Handle → Bool
writable none = false
writable (some h) = if is_alive_handle (some h) then h.stdin_available else false

unfoldable pub snapshot : Runtime → Snapshot
unfolding is_alive_handle
snapshot r = record {
  state = r.state;
  state_reason = r.state_reason;
  pid = pid_of r.adopted r.handle;
  players_online = length r.players.online;
  consecutive_crashes = r.consecutive_crashes;
  console_writable = writable r.handle;
  adopted = is_some r.adopted;
  log_seq = r.pipeline.seq;
  log_dropped = r.pipeline.buffer.dropped;
}

abbrev pub publish : Published → Runtime → Runtime
publish p r = record r { published = r.published ++ p ∷ [] }

unfoldable pub publish_status : Runtime → Runtime
unfolding snapshot
publish_status r = publish (status (snapshot r)) r

-- `LogPipeline.emit_system` and `_publish_line`.
unfoldable pub emit : Message → LogLevel → Runtime → Runtime
unfolding Pipeline.emit_system
emit m level r =
    let (p, line) = Pipeline.emit_system (r.config.translate m) level LineSource.msm r.pipeline in
    publish (log line) (record r { pipeline = p })

-- `echo_command`
unfoldable pub echo_command : Text → Runtime → Runtime
unfolding Pipeline.emit_system
echo_command text r =
    let (p, line) = Pipeline.emit_system text info LineSource.command r.pipeline in
    publish (log line) (record r { pipeline = p })

-- A line of output: numbered, kept and published. Its events are handled after it.
unfoldable pub ingest : Parsed → Runtime → Runtime
unfolding Pipeline.ingest
ingest parsed r =
    let (p, line) = Pipeline.ingest parsed r.pipeline in
    publish (log line) (record r { pipeline = p })

-- `_set_state`
unfoldable pub set_state : ServerState → Message → Action Done
unfolding publish_status same_state can_transition
set_state target reason r =
    if same_state target r.state
    then (ok tt, r)
    else if can_transition r.state target
    then (
      ok tt,
      publish_status
          (record r { state = target; state_since = r.clock; state_reason = some reason }),
    )
    else (err (illegal_transition r.state target), r)
