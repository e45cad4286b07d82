-- ===== src/Runtime/Server/Stop.antt =====
-- server_runtime.py: stop, kill, the end of an adopted process, and the supervision of a process of
-- its own, cut at their waits.
use minecraft_server_manager.Prelude.{
  ℕ, ◌+◌, ◌-◌, Bool, true, false, ◌&&◌, ◌||◌, not, Option, none, some, [], Text, if◌then◌else◌,
  is_some,
}
use minecraft_server_manager.Prelude.Int.{ℤ, is_zero}
use minecraft_server_manager.Core.States.{
  offline, starting, online, stopping, crashed, unknown, is_running, same_state,
}
use minecraft_server_manager.Core.LogLine.{error, warn, info}
use minecraft_server_manager.Core.Restart.{RestartDecision, is_stable, evaluate}
use minecraft_server_manager.Runtime.RingBuffer
use minecraft_server_manager.Runtime.Server.Model.{
  Message, not_running, AdoptedProcess, unlocked, stopping_adopted, no_supervision, draining,
  Runtime, stop_requested_by, forced_stop_by, readopted_stopped, readopted_gone, stop_signal_sent,
  forced_termination, server_stopped, stopped_alone, crashed_with, start_assumed, detached,
  restart_planned, restart_refused, players, crash, restart_scheduled,
}
use minecraft_server_manager.Runtime.Server.Console.{
  Action, Done, ok, err, ◌>>◌, modify, emit, set_state, publish, is_alive_handle,
}
use minecraft_server_manager.Runtime.Server.Players.{no_players}

-- `_release_adopted`
unfoldable pub release_adopted : Runtime → Runtime
release_adopted r = record r { adopted = none; players = no_players; tailer = false }

abbrev request_stop : (Option Text → Message) → Option Text → Action Done
request_stop reason actor = do
  modify (λ r. record r { stop_requested = true })
  set_state stopping (reason actor)
  modify (emit (reason actor) info)

-- `stop`, under the lock: an adopted process is asked by a signal where the system has one, else
-- terminated; `_stop_adopted` then waits. For a process of its own the lock is given back before the
-- stop sequence of its handle.
unfoldable pub stop : Bool → Option Text → Action Done
unfolding emit
stop graceful actor r =
    let r' = record r { restart_task = false } in
    if is_some r.adopted
    then (do
      set_state stopping (stop_requested_by actor)
      modify (emit (stop_requested_by actor) info)
      modify
          (λ r. if graceful then emit stop_signal_sent info r else emit forced_termination warn r)
      modify (λ r. record r { phase = stopping_adopted (not graceful) }))
        r'
    else if is_alive_handle r.handle
    then request_stop stop_requested_by actor r'
    else (err not_running, r')

unfoldable pub kill : Option Text → Action Done
unfolding emit
kill actor r =
    let r' = record r { restart_task = false } in
    if is_some r.adopted
    then (do
      set_state stopping (forced_stop_by actor)
      modify (emit forced_termination warn)
      modify (λ r. record r { phase = stopping_adopted true }))
        r'
    else if is_alive_handle r.handle
    then (do
      modify (λ r. record r { stop_requested = true })
      set_state stopping (forced_stop_by actor)
      modify (emit (forced_stop_by actor) warn))
        r'
    else (err not_running, r')

-- The wait for an adopted process that did not end by its signal is followed by its termination.
unfoldable pub escalate : Runtime → Runtime
unfolding emit
escalate r = record (emit forced_termination warn r) { phase = stopping_adopted true }

-- `_finish_adopted_stop`
unfoldable pub finish_adopted_stop : Action Done
finish_adopted_stop = do
  modify (λ r. record (release_adopted r) { liveness_task = false })
  set_state offline server_stopped
  modify (λ r. record r { phase = unlocked })

-- One round of `_watch_adopted`.
unfoldable pub watch_process : Option AdoptedProcess → Action Done
unfolding emit
watch_process none r = (ok tt, record r { liveness_task = false })
watch_process (some a) r =
    if a.alive
    then (ok tt, r)
    else (do
      modify (emit readopted_stopped info)
      modify release_adopted
      set_state offline readopted_gone
      modify (λ r. record r { liveness_task = false }))
        r

unfoldable pub watch_adopted : Action Done
unfolding watch_process
watch_adopted r = watch_process r.adopted r

-- `_watch_readiness`, once its delay is over.
unfoldable pub watch_readiness : Action Done
unfolding emit same_state
watch_readiness r =
    if same_state r.state starting && is_alive_handle r.handle
    then (do
      modify (emit start_assumed warn)
      set_state online start_assumed
      modify (λ r. record r { readiness_task = false }))
        r
    else (ok tt, record r { readiness_task = false })

unfoldable pub uptime : Runtime → ℕ
unfolding is_running
uptime r = elim r.started_at [ none ↦ 0 | some t ↦ if is_running r.state then r.clock - t else 0 ]

-- `_supervise` once the process has ended, up to its wait for the reader.
unfoldable pub process_ended : Runtime → Runtime
unfolding uptime
process_ended r = record r { supervision = draining (uptime r); readiness_task = false }

unfoldable pub settle_crash : ℤ → Action Done
unfolding emit
settle_crash code = do
  modify (λ r. record r { consecutive_crashes = r.consecutive_crashes + 1 })
  modify (emit (crashed_with code) error)
  set_state crashed (crashed_with code)
  modify (λ r. publish (crash code r.consecutive_crashes (RingBuffer.tail r.pipeline.buffer 30)) r)

unfoldable pub settle_stop : Action Done
unfolding emit
settle_stop r =
    let reason = if r.stop_requested then server_stopped else stopped_alone in
    (do modify (emit reason info); set_state offline reason) r

-- `_schedule_restart`, or the warning that there will be none.
abbrev pub follow : RestartDecision → Runtime → Runtime
follow d r =
    if d.should_restart
    then record (publish (restart_scheduled d.delay d.reason)
        (emit (restart_planned d.reason d.delay) warn r)) { restart_task = true }
    else if not r.stop_requested
    then emit (restart_refused d.reason) warn r
    else r

-- The end of `_supervise`: no player is left, and the policy decides what follows.
unfoldable pub after_exit : ℤ → Runtime → Runtime
unfolding emit
after_exit code r =
    let decision =
      evaluate r.config.restart_policy r.stop_requested (some code) r.consecutive_crashes in
    record (follow decision (publish (players []) (record r { players = no_players }))) {
      supervision = no_supervision;
    }

-- The rest of `_supervise`.
unfoldable pub settle : ℕ → ℤ → Action Done
unfolding is_stable
settle up code = do
  modify (λ r. record r {
    consecutive_crashes = if is_stable r.config.restart_policy up then 0 else r.consecutive_crashes;
  })
  (λ r. (if not r.stop_requested && not (is_zero code) then settle_crash code else settle_stop) r)
  modify (after_exit code)

-- `detach`: MSM ends, the server goes on.
unfoldable pub detach : Action Done
unfolding same_state
detach r =
    let r' = record r {
      restart_task = false;
      readiness_task = false;
      supervision = no_supervision;
      liveness_task = false;
      tailer = false;
    } in
    if (is_alive_handle r.handle || is_some r.adopted) && not (same_state r.state unknown)
    then set_state unknown detached r'
    else (ok tt, r')
