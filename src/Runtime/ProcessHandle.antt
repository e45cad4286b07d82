-- ===== src/Runtime/ProcessHandle.antt =====
-- backend/msm/runtime/process_handle.py: the process of one server, its standard input and its
-- graduated stop. What the process does in answer is an argument.
pub mod Escalation
mod Tests
use minecraft_server_manager.Prelude.{
  ℕ, Bool, true, false, ◌&&◌, not, Option, none, some, List, [], ◌∷◌, ◌++◌, if◌then◌else◌, is_some,
  Text,
}
use minecraft_server_manager.Prelude.Trim.{is_empty}

pub data StopStage : Type 0 where
  command : StopStage
  signal : StopStage
  kill : StopStage
  already_stopped : StopStage

-- The standard input: there is none, it is closing, or it takes lines.
pub data Stdin : Type 0 where
  absent : Stdin
  closing : Stdin
  usable : Stdin

-- What is done to the process: a line written, the stop signal to its group, the end of its tree.
pub data Act : Type 0 where
  wrote : Text → Act
  requested_stop : Act
  killed_tree : Act

-- A process that was spawned, with what has been done to it.
pub record Process : Type 0 where
  pub exit : Option ℕ
  pub stdin : Stdin
  pub stdin_broken : Bool
  pub acts : List Act

pub record StopOutcome : Type 0 where
  pub stage : StopStage
  pub exit_code : Option ℕ
  pub forced : Bool

-- Whether a write reaches the process, the exit code seen in the wait after each stage, if any, and
-- whether the backend has a stop signal.
pub record Answers : Type 0 where
  pub write_succeeds : Bool
  pub after_command : Option ℕ
  pub after_signal : Option ℕ
  pub after_kill : Option ℕ
  pub supports_graceful_signal : Bool

abbrev pub is_running : Process → Bool
is_running p = not (is_some p.exit)

abbrev pub is_usable : Stdin → Bool
is_usable usable = true
is_usable stdin = false

unfoldable pub stdin_available : Process → Bool
stdin_available p = if p.stdin_broken then false else is_running p && is_usable p.stdin

abbrev pub act : Act → Process → Process
act a p = record p { acts = p.acts ++ a ∷ [] }

-- `false` is ConsoleUnavailable.
unfoldable pub write_line : Bool → Text → Process → Bool × Process
write_line succeeds text p =
    if is_running p
    then (if is_usable p.stdin && not p.stdin_broken
        then (if succeeds
            then (true, act (wrote text) p)
            else (false, record p { stdin_broken = true }))
        else (false, record p { stdin_broken = true }))
    else (false, p)

-- The wait sees the exit or its delay ends.
abbrev pub wait_for_exit : Option ℕ → Process → Bool × Process
wait_for_exit none p = (false, p)
wait_for_exit (some code) p = (true, record p { exit = some code })

abbrev pub outcome : StopStage → Bool → Process → StopOutcome × Process
outcome stage forced p = (record { stage = stage; exit_code = p.exit; forced = forced }, p)

-- Stage 3: the end of the tree, and a last wait whose result does not matter.
unfoldable pub stop_by_kill : Answers → Process → StopOutcome × Process
stop_by_kill a p = outcome kill true (wait_for_exit a.after_kill (act killed_tree p)).1

abbrev pub after_signal_wait : Answers → Bool × Process → StopOutcome × Process
after_signal_wait a (true, p) = outcome signal true p
after_signal_wait a (false, p) = stop_by_kill a p

-- Stage 2, where the backend has a signal.
unfoldable pub stop_by_signal : Answers → Process → StopOutcome × Process
unfolding stop_by_kill
stop_by_signal a p =
    if a.supports_graceful_signal
    then after_signal_wait a (wait_for_exit a.after_signal (act requested_stop p))
    else stop_by_kill a p

abbrev pub after_command_wait : Answers → Bool × Process → StopOutcome × Process
after_command_wait a (true, p) = outcome command false p
after_command_wait a (false, p) = stop_by_signal a p

abbrev pub after_write : Answers → Bool × Process → StopOutcome × Process
after_write a (true, p) = after_command_wait a (wait_for_exit a.after_command p)
after_write a (false, p) = stop_by_signal a p

-- Stage 1, where there is a command and the input takes it.
unfoldable pub stop_running : Text → Answers → Process → StopOutcome × Process
stop_running stop_command a p =
    if not (is_empty stop_command) && stdin_available p
    then after_write a (write_line a.write_succeeds stop_command p)
    else stop_by_signal a p

-- `none` is a handle whose process was never spawned.
unfoldable pub stop : Text → Answers → Option Process → StopOutcome × Option Process
stop stop_command a none =
    (record { stage = already_stopped; exit_code = none; forced = false }, none)
stop stop_command a (some p) =
    let (o, q) = stop_running stop_command a p in
    if is_running p
    then (o, some q)
    else (record { stage = already_stopped; exit_code = p.exit; forced = false }, some p)
