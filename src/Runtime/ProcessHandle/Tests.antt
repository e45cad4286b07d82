-- ===== src/Runtime/ProcessHandle/Tests.antt =====
-- A stop that the process answers only when it is signalled.
use minecraft_server_manager.Prelude.{◌≡◌, refl, true, false, none, some, [], ◌∷◌, codes}
use minecraft_server_manager.Runtime.ProcessHandle.{
  signal, wrote, requested_stop, usable, Process, Answers, write_line, stdin_available,
  stop_by_signal, stop_running, stop,
}
use minecraft_server_manager.Runtime.ProcessHandle.Escalation.{ladder, IsOver, stop-ladder}

abbrev live_process : Process
live_process = record { exit = none; stdin = usable; stdin_broken = false; acts = [] }

abbrev slow_answers : Answers
slow_answers = record {
  write_succeeds = true;
  after_command = none;
  after_signal = some 143;
  after_kill = none;
  supports_graceful_signal = true;
}

stop-ladder_example :
    (stop (codes "stop") slow_answers (some live_process) ≡ (
      (ladder (codes "stop") slow_answers live_process).0,
      some (ladder (codes "stop") slow_answers live_process).1,
    ))
    × IsOver (ladder (codes "stop") slow_answers live_process)
stop-ladder_example = stop-ladder (codes "stop") slow_answers live_process refl

signalled_stop : stop (codes "stop") slow_answers (some live_process) ≡ (
  record { stage = signal; exit_code = some 143; forced = true },
  some (record live_process { exit = some 143; acts = wrote (codes "stop") ∷ requested_stop ∷ [] }),
)
unfolding stop stop_running write_line stdin_available stop_by_signal
signalled_stop = refl
