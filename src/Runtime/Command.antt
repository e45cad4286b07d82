-- ===== src/Runtime/Command.antt =====
-- runtime/server_runtime.py: send_command, and runtime/log_pipeline.py: the echo of a command. The
-- handle is its process, and whether a write reaches it is an argument.
pub mod Sent
mod Tests
use minecraft_server_manager.Prelude.{
  ℕ, Bool, true, false, Option, none, some, List, [], ◌∷◌, ◌++◌, if◌then◌else◌, Text, codes,
}
use minecraft_server_manager.Prelude.Fallible.{Fallible, done, failed}
use minecraft_server_manager.Prelude.Trim.{is_empty}
use minecraft_server_manager.Core.Commands.{CommandError, sanitize_command}
use minecraft_server_manager.Core.LogLine.{LogLevel, info, LineSource}
use minecraft_server_manager.Runtime.Pipeline.{Pipeline, emit_system}
use minecraft_server_manager.Runtime.ProcessHandle.{Process, is_running, write_line}

pub data SendError : Type 0 where
  unsafe_command : CommandError → SendError
  server_not_running : SendError
  console_unavailable : SendError

-- What the call reads and changes of the runtime.
pub record Console : Type 0 where
  pub process : Option Process
  pub pipeline : Pipeline

abbrev suffix_of : Option Text → Text
suffix_of none = []
suffix_of (some actor) = if is_empty actor then [] else codes "  (" ++ actor ++ codes ")"

-- The line that the console shows for a command.
unfoldable pub echo_text : Text → Option Text → Text
echo_text command actor = codes "> " ++ command ++ suffix_of actor

unfoldable pub echo : Text → Option Text → Pipeline → Pipeline
unfolding echo_text
echo command actor p = (emit_system (echo_text command actor) info LineSource.command p).0

-- After the write: the echo, or ConsoleUnavailable.
abbrev pub after_write :
    Text → Option Text → Pipeline → Bool × Process → Fallible SendError Text × Console
after_write clean actor pipeline (true, p) =
    (done clean, record { process = some p; pipeline = echo clean actor pipeline })
after_write clean actor pipeline (false, p) =
    (failed console_unavailable, record { process = some p; pipeline = pipeline })

abbrev pub send_clean :
    Bool → Text → Option Text → Option Process → Pipeline → Fallible SendError Text × Console
send_clean succeeds clean actor none pipeline =
    (failed server_not_running, record { process = none; pipeline = pipeline })
send_clean succeeds clean actor (some p) pipeline =
    if is_running p
    then after_write clean actor pipeline (write_line succeeds clean p)
    else (failed server_not_running, record { process = some p; pipeline = pipeline })

abbrev pub send_sanitized :
    Bool → Fallible CommandError Text → Option Text → Console → Fallible SendError Text × Console
send_sanitized succeeds (failed e) actor c = (failed (unsafe_command e), c)
send_sanitized succeeds (done clean) actor c = send_clean succeeds clean actor c.process c.pipeline

unfoldable pub send_command :
    Bool → Text → Option Text → Console → Fallible SendError Text × Console
send_command succeeds command actor c = send_sanitized succeeds (sanitize_command command) actor c
