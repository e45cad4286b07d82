-- ===== src/Runtime/Server/Start.antt =====
-- server_runtime.py: the start of a server, cut at its waits, and the adoption of a process that
-- outlived MSM. The answers of the system (orphans, preparation, launch) are arguments.
use minecraft_server_manager.Prelude.{
  ℕ, Bool, true, false, not, Option, none, some, List, [], ◌∷◌, Text, if◌then◌else◌,
}
use minecraft_server_manager.Core.States.{offline, starting, unknown, is_running}
use minecraft_server_manager.Core.LogLine.{error, warn, info}
use minecraft_server_manager.Runtime.Server.Model.{
  ErrorReport, Error, already_running, start_error, AdoptedProcess, unlocked, checking_orphan,
  preparing, spawning, waiting, Runtime, start_requested, note, pre_start_failed, start_failed,
  suggested_fix, eula_not_accepted, eula_accepted, launch_command, readopted, no_logs_folder,
}
use minecraft_server_manager.Runtime.Server.Console.{
  Action, Done, ok, err, ◌>>◌, modify, emit, set_state, publish_status,
}
use minecraft_server_manager.Runtime.Server.Players.{no_players}

abbrev release_lock : Runtime → Runtime
release_lock r = record r { phase = unlocked }

abbrev pub fail : {A : Type 0} → Error → Action A
fail e r = (err e, release_lock r)

abbrev adopted_alive : Option AdoptedProcess → Bool
adopted_alive none = false
adopted_alive (some a) = a.alive

-- `_start_locked` up to its first wait, the search for an orphan.
unfoldable pub start : Option Text → Action Done
unfolding is_running
start actor r =
    if adopted_alive r.adopted
    then (err already_running, r)
    else if is_running r.state
    then (err already_running, r)
    else (ok tt, record r { phase = checking_orphan actor })

-- From the answer about an orphan to the wait for the preparation, or past it if there is none.
unfoldable pub start_checked : Option Text → Option ℕ → Action Done
unfolding emit
start_checked actor (some orphan_pid) = fail already_running
start_checked actor none = do
  modify (λ r. record r { restart_task = false; stop_requested = false; last_error = none })
  set_state starting (start_requested actor)
  modify (emit (start_requested actor) info)
  modify
      (λ r. record r { phase = if r.config.has_pre_start then preparing actor else spawning actor })

-- `_run_pre_start` after the hooks: what they say, or `none` if they failed.
abbrev pub report_all : List Text → Runtime → Runtime
report_all [] r = r
report_all (m ∷ ms) r = report_all ms (emit (note m) info r)

unfoldable pub prepared : Option Text → Option (List Text) → Action Done
unfolding emit
prepared actor none r = (ok tt, record (emit pre_start_failed warn r) { phase = spawning actor })
prepared actor (some messages) r =
    (ok tt, record (report_all messages r) { phase = spawning actor })

-- `_fail_start`
abbrev pub suggest : Text → Runtime → Runtime
suggest [] r = r
suggest (c ∷ cs) r = emit (suggested_fix (c ∷ cs)) error r

unfoldable pub fail_start : ErrorReport → Action Done
unfolding emit
fail_start e = do
  modify (λ r. record r { last_error = some e })
  modify (emit (start_failed e.cause) error)
  modify (suggest e.remediation)
  set_state offline (start_failed e.cause)

-- What eula.txt says: absent or accepted, or refused and (with the permission) whether the rewrite
-- took place.
pub data Eula : Type 0 where
  settled : Eula
  refused : Bool → Eula

abbrev pub handle_eula : Eula → Runtime → Runtime
handle_eula settled r = r
handle_eula (refused rewritten) r =
    if not r.config.auto_accept_eula
    then emit eula_not_accepted warn r
    else if rewritten
    then emit eula_accepted info r
    else r

-- How the launch ends: the specification cannot be built, the system refuses it, or a process runs.
pub data Launch : Type 0 where
  no_spec : ErrorReport → Launch
  refused_spawn : Eula → ErrorReport → Launch
  spawned : Eula → ℕ → Bool → List Text → Launch

abbrev pub warn_all : List Text → Runtime → Runtime
warn_all [] r = r
warn_all (m ∷ ms) r = warn_all ms (emit (note m) warn r)

-- From the specification to the running process and its tasks.
unfoldable pub launch : Launch → Action Done
unfolding emit publish_status
launch (no_spec e) = do fail_start e; fail (start_error e)
launch (refused_spawn eula e) = do
  modify (λ r. emit launch_command info (handle_eula eula r))
  fail_start e
  fail (start_error e)
launch (spawned eula pid stdin warnings) = do
  modify (λ r. emit launch_command info (handle_eula eula r))
  modify (warn_all warnings)
  modify (λ r. record r {
    handle = some (record { pid = pid; exit = none; stdin_available = stdin });
    adopted = none;
    started_at = some r.clock;
    players = no_players;
  })
  modify publish_status
  modify (λ r. record r { supervision = waiting; readiness_task = true; phase = unlocked })

-- `adopt`: false if the process is gone.
unfoldable pub adopt : ℕ → Bool → Option ℕ → Bool → Action Bool
unfolding emit
adopt pid alive started_at logs_folder r =
    if alive
    then (do
      modify (λ r. record r {
        adopted = some (record { pid = pid; alive = true });
        started_at = elim started_at [ none ↦ some r.clock | some t ↦ some t ];
      })
      modify (emit readopted warn)
      set_state unknown readopted
      modify (λ r. record (if logs_folder then r else emit no_logs_folder warn r) {
        tailer = true;
        liveness_task = true;
      })
      (λ r. (ok true, r)))
        r
    else (ok false, r)
