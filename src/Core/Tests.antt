-- ===== src/Core/Tests.antt =====
-- The decisions of core/ on concrete values.
use minecraft_server_manager.Prelude.{◌<◌, ◌≡◌, ◌≢◌, ◌↔◌, refl, true, false, Option, none, some}
use minecraft_server_manager.Prelude.Int.{pos}
use minecraft_server_manager.Core.Restart.{
  RestartPolicy, never, on_crash, evaluate, has_failed, compute_delay,
}
use minecraft_server_manager.Core.Restart.Decisions.{evaluate_iff}
use minecraft_server_manager.Core.Permissions.{ServerRole}

abbrev crash_policy : RestartPolicy
crash_policy = record {
  mode = on_crash;
  delay = 10;
  max_consecutive_crashes = 3;
  backoff_factor = 2;
  max_delay = 300;
  stability_threshold = 120;
}

evaluate_iff_example : ((evaluate crash_policy false (some (pos 1)) 2).should_restart ≡ true) ↔ (
    (false ≡ false)
    × (on_crash ≢ never)
    × (on_crash ≡ on_crash → has_failed (some (pos 1)) ≡ true)
    × (2 < 3))
evaluate_iff_example = evaluate_iff crash_policy false (some (pos 1)) 2

-- Three crashes are followed by no restart, two by one after 20.
evaluate_halts : (evaluate crash_policy false (some (pos 1)) 3).should_restart ≡ false
unfolding evaluate
evaluate_halts = refl

evaluate_waits : (evaluate crash_policy false (some (pos 1)) 2).delay ≡ 20
unfolding evaluate compute_delay
evaluate_waits = refl

abbrev no_role : Option ServerRole
no_role = none
