-- ===== src/Runtime/Tests.antt =====
-- The runtime on concrete servers.
use minecraft_server_manager.Prelude.{
  ℕ, ◌≤◌, ◌≡◌, ◌↔◌, refl, true, false, none, some, List, [], ◌∷◌, length, codes, arith, add,
  text_key,
}
use minecraft_server_manager.Prelude.Int.{pos}
use minecraft_server_manager.Core.States.{offline, online, is_running}
use minecraft_server_manager.Runtime.Server.Console.{is_alive_handle}
use minecraft_server_manager.Core.Restart.{RestartPolicy, on_crash}
use minecraft_server_manager.Core.LogLine.{LogLine, LineSource, info}
use minecraft_server_manager.Runtime.RingBuffer.{RingBuffer, extend}
use minecraft_server_manager.Runtime.RingBuffer.History.{Holds, extend-Holds}
use minecraft_server_manager.Runtime.Pipeline.{Pipeline}
use minecraft_server_manager.Runtime.Pipeline.Numbering.{IsNumbered}
use minecraft_server_manager.Runtime.Server.Model.{
  Players, Config, Runtime, no_supervision, draining, unlocked,
}
use minecraft_server_manager.Runtime.Server.Players.{leave, no_players, max_pending_uuids}
use minecraft_server_manager.Runtime.Server.Presence.{leave_twice_iff}
use minecraft_server_manager.Runtime.Server.Start.{settled, spawned}
use minecraft_server_manager.Runtime.Server.Steps.{
  Input, call_start, orphan_searched, launch_over, process_exits, process_reaped, reader_drained,
  perform,
}
use minecraft_server_manager.Core.Restart.{is_stable}
use minecraft_server_manager.Runtime.Server.Stop.{settle}
use minecraft_server_manager.Runtime.Server.Recovery.{Outcome, settle-Outcome}
use minecraft_server_manager.Runtime.Server.Coherent.{IsCoherent, Good}
use minecraft_server_manager.Runtime.Server.Coherent.Run.{run, run-Good}

abbrev line : ℕ → LogLine
line n = record { seq = n; text = codes "Done!"; level = info; source = LineSource.stdout }

abbrev empty_buffer : RingBuffer
empty_buffer = record { maxlen = 2; lines = []; dropped = 0 }

-- Three lines in a buffer for two.
abbrev full_buffer : RingBuffer
full_buffer = record { maxlen = 2; lines = line 2 ∷ line 3 ∷ []; dropped = 1 }

abbrev three_lines : List LogLine
three_lines = line 1 ∷ line 2 ∷ line 3 ∷ []

empty-Holds : Holds [] empty_buffer
empty-Holds = record {
  positive = omega arith;
  content = refl;
  bounded = omega arith;
  counted = refl;
  full = λ p. absurd (omega arith);
}

full-Holds : Holds three_lines full_buffer
full-Holds = record {
  positive = omega arith;
  content = refl;
  bounded = omega arith;
  counted = refl;
  full = λ p. refl;
}

extend-Holds_example : Holds three_lines (extend empty_buffer three_lines)
extend-Holds_example = extend-Holds three_lines [] empty_buffer empty-Holds

abbrev numbered_pipeline : Pipeline
numbered_pipeline = record { buffer = full_buffer; seq = 3 }

numbered_pipeline-IsNumbered : IsNumbered numbered_pipeline
numbered_pipeline-IsNumbered = record {
  positive = omega arith;
  bounded = omega arith;
  counted = omega arith;
  numbered = (refl, (refl, tt));
}

abbrev with_steve : Players
with_steve = record {
  online = (codes "Steve", none) ∷ [];
  recently_left = codes "Alex" ∷ [];
  pending_uuids = [];
}

leave_twice_iff_example :
    ((leave (codes "Steve") (leave (codes "Steve") with_steve).0).1 ≡ [])
    ↔ (length (add (codes "Steve") with_steve.recently_left) ≤ max_pending_uuids)
leave_twice_iff_example = leave_twice_iff (codes "Steve") with_steve refl

abbrev test_policy : RestartPolicy
test_policy = record {
  mode = on_crash;
  delay = 10;
  max_consecutive_crashes = 3;
  backoff_factor = 2;
  max_delay = 300;
  stability_threshold = 120;
}

abbrev test_config : Config
test_config = record {
  restart_policy = test_policy;
  auto_accept_eula = false;
  has_pre_start = false;
  translate = λ m. codes "text";
}

abbrev new_runtime : Runtime
new_runtime = record {
  config = test_config;
  state = offline;
  state_since = 0;
  state_reason = none;
  last_error = none;
  handle = none;
  adopted = none;
  pipeline = record { buffer = empty_buffer; seq = 0 };
  players = no_players;
  stop_requested = false;
  consecutive_crashes = 0;
  started_at = none;
  supervision = no_supervision;
  readiness_task = false;
  restart_task = false;
  liveness_task = false;
  tailer = false;
  phase = unlocked;
  clock = 0;
  published = [];
}

new_runtime-IsCoherent : IsCoherent new_runtime
unfolding is_running is_alive_handle
new_runtime-IsCoherent = record {
  own_runs = λ h. ground arith;
  adopted_runs = λ h. ground arith;
  exclusive = λ h. refl;
  supervised = λ h. ground arith;
  holding = tt;
}

-- A start, and a process that crashes at once.
abbrev crash_on_start : List Input
crash_on_start =
    call_start none
    ∷ orphan_searched none
    ∷ launch_over (spawned settled 42 true [])
    ∷ process_exits (pos 1)
    ∷ process_reaped
    ∷ []

run-Good_example : Good (perform reader_drained (run crash_on_start new_runtime))
run-Good_example = run-Good crash_on_start reader_drained new_runtime new_runtime-IsCoherent

-- Online, with one crash behind it.
abbrev online_runtime : Runtime
online_runtime = record new_runtime {
  state = online;
  consecutive_crashes = 1;
  handle = some (record { pid = 42; exit = some (pos 1); stdin_available = true });
  started_at = some 0;
  supervision = draining 7;
}

settle-Outcome_example : Outcome true 2 (pos 1) online_runtime (settle 7 (pos 1) online_runtime).1
unfolding is_running is_stable
settle-Outcome_example = settle-Outcome 7 (pos 1) online_runtime refl
