-- ===== src/Runtime/Server/Steps.antt =====
-- The interleavings of server_runtime.py: every input that the runtime can meet between two waits of
-- its tasks and methods, and what it does with it. An input that finds no one waiting changes nothing.
use minecraft_server_manager.Prelude.{
  ℕ, ◌+◌, Bool, true, false, ◌&&◌, not, Option, none, some, List, [], ◌∷◌, Text, if◌then◌else◌,
  is_some,
}
use minecraft_server_manager.Prelude.Int.{ℤ}
use minecraft_server_manager.Core.States.{offline, same_state}
use minecraft_server_manager.Runtime.Pipeline.{Parsed}
use minecraft_server_manager.Runtime.Server.Model.{
  Handle, AdoptedProcess, Phase, unlocked, checking_orphan, preparing, spawning, stopping_adopted,
  Supervision, waiting, draining, Runtime,
}
use minecraft_server_manager.Runtime.Server.Console.{
  Result, Action, Done, ok, err, ◌>>◌, modify, ingest,
}
use minecraft_server_manager.Runtime.Server.Events.{MinecraftEvent, handle_event}
use minecraft_server_manager.Runtime.Server.Start.{
  start, start_checked, prepared, Launch, launch, adopt,
}
use minecraft_server_manager.Runtime.Server.Stop.{
  stop, kill, escalate, finish_adopted_stop, watch_adopted, watch_readiness, process_ended, settle,
  detach,
}

pub data Input : Type 0 where
  -- calls of the methods
  call_start : Option Text → Input
  call_stop : Bool → Option Text → Input
  call_kill : Option Text → Input
  call_adopt : ℕ → Bool → Option ℕ → Bool → Input
  call_detach : Input
  -- what the holder of the lock was waiting for
  orphan_searched : Option ℕ → Input
  preparation_over : Option (List Text) → Input
  launch_over : Launch → Input
  adopted_signal_expired adopted_stop_over : Input
  -- what the tasks were waiting for
  output : Parsed → List MinecraftEvent → Input
  process_reaped reader_drained readiness_expired adopted_polled restart_due : Input
  -- the processes and the clock
  process_exits : ℤ → Input
  adopted_dies : Input
  time_passes : ℕ → Input

abbrev pub is_unlocked : Phase → Bool
is_unlocked unlocked = true
is_unlocked (checking_orphan actor) = false
is_unlocked (preparing actor) = false
is_unlocked (spawning actor) = false
is_unlocked (stopping_adopted force) = false

abbrev pub when_unlocked : Action Done → Action Done
when_unlocked m r = if is_unlocked r.phase then m r else (ok tt, r)

abbrev pub at_orphan : Option ℕ → Phase → Action Done
at_orphan found (checking_orphan actor) = start_checked actor found
at_orphan found _ = λ r. (ok tt, r)

abbrev pub at_preparation : Option (List Text) → Phase → Action Done
at_preparation said (preparing actor) = prepared actor said
at_preparation said _ = λ r. (ok tt, r)

abbrev pub at_launch : Launch → Phase → Action Done
at_launch l (spawning actor) = launch l
at_launch l _ = λ r. (ok tt, r)

abbrev pub at_signal : Phase → Action Done
at_signal (stopping_adopted false) = modify escalate
at_signal _ = λ r. (ok tt, r)

abbrev pub at_stop_over : Phase → Action Done
at_stop_over (stopping_adopted force) = finish_adopted_stop
at_stop_over _ = λ r. (ok tt, r)

abbrev pub end_process : ℤ → Option Handle → Option Handle
end_process code none = none
end_process code (some h) = elim h.exit [
  | none ↦ some (record h { exit = some code })
  | some old ↦ some h
]

abbrev pub end_adopted : Option AdoptedProcess → Option AdoptedProcess
end_adopted none = none
end_adopted (some a) = some (record a { alive = false })

abbrev pub exit_of : Option Handle → Option ℤ
exit_of none = none
exit_of (some h) = h.exit

abbrev pub reap : Supervision → Option ℤ → Runtime → Runtime
reap waiting (some code) r = process_ended r
reap _ _ r = r

abbrev pub drained : Supervision → Option ℤ → Action Done
drained (draining up) (some code) = settle up code
drained _ _ = λ r. (ok tt, r)

-- The events of a line, in order; an exception ends the reader's loop.
unfoldable pub handle_events : List MinecraftEvent → Action Done
handle_events [] r = (ok tt, r)
handle_events (e ∷ es) r = (handle_event e >> handle_events es) r

-- MSM adopts a process before anything else has happened to the runtime.
abbrev pub is_fresh : Runtime → Bool
is_fresh r =
    is_unlocked r.phase
    && not (is_some r.handle)
    && not (is_some r.adopted)
    && same_state r.state offline

abbrev pub ignore : {A : Type 0} → Result A × Runtime → Result Done × Runtime
ignore (ok a, r) = (ok tt, r)
ignore (err e, r) = (err e, r)

unfoldable pub perform : Input → Action Done
unfolding same_state
perform (call_start actor) r = when_unlocked (start actor) r
perform (call_stop graceful actor) r = when_unlocked (stop graceful actor) r
perform (call_kill actor) r = when_unlocked (kill actor) r
perform (call_adopt pid alive started logs) r =
    if is_fresh r then ignore (adopt pid alive started logs r) else (ok tt, r)
perform call_detach r = detach r
perform (orphan_searched found) r = at_orphan found r.phase r
perform (preparation_over said) r = at_preparation said r.phase r
perform (launch_over l) r = at_launch l r.phase r
perform adopted_signal_expired r = at_signal r.phase r
perform adopted_stop_over r = at_stop_over r.phase r
perform (output parsed events) r = handle_events events (ingest parsed r)
perform process_reaped r = (ok tt, reap r.supervision (exit_of r.handle) r)
perform reader_drained r = drained r.supervision (exit_of r.handle) r
perform readiness_expired r = if r.readiness_task then watch_readiness r else (ok tt, r)
perform adopted_polled r = if r.liveness_task then watch_adopted r else (ok tt, r)
perform restart_due r = (ok tt, record r { restart_task = false })
perform (process_exits code) r = (ok tt, record r { handle = end_process code r.handle })
perform adopted_dies r = (ok tt, record r { adopted = end_adopted r.adopted })
perform (time_passes n) r = (ok tt, record r { clock = r.clock + n })
