-- ===== src/Runtime/Command/Tests.antt =====
-- A command sent to a live process.
use minecraft_server_manager.Prelude.{true, false, some, none, [], codes}
use minecraft_server_manager.Runtime.ProcessHandle.{usable}
use minecraft_server_manager.Runtime.Command.{Console, send_command}
use minecraft_server_manager.Runtime.Command.Sent.{IsSent, send_command-IsSent}

abbrev live_console : Console
live_console = record {
  process = some (record { exit = none; stdin = usable; stdin_broken = false; acts = [] });
  pipeline = record { buffer = record { maxlen = 10; lines = []; dropped = 0 }; seq = 0 };
}

send_command-IsSent_example :
    IsSent
      (some (codes "admin"))
      live_console
      (send_command true (codes "/say hi") (some (codes "admin")) live_console)
send_command-IsSent_example =
    send_command-IsSent true (codes "/say hi") (some (codes "admin")) live_console
