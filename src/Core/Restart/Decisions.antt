-- ===== src/Core/Restart/Decisions.antt =====
-- When restart_policy.py restarts a server, and when it gives up.
use minecraft_server_manager.Prelude.{ℕ, ◌<◌, ◌≡◌, ◌≢◌, ◌↔◌, Bool, true, false, Option, arith}
use minecraft_server_manager.Prelude.Int.{ℤ}
use minecraft_server_manager.Core.Restart.{never, on_crash, RestartPolicy, has_failed, evaluate}

-- `evaluate` restarts exactly when the stop was not requested, the mode is not NEVER, an exit in
-- mode ON_CRASH was a failure, and the crashes counted so far are below the policy's maximum.
pub evaluate_iff :
    (p : RestartPolicy) (stop_requested : Bool) (exit_code : Option ℤ) (crashes : ℕ)
    → ((evaluate p stop_requested exit_code crashes).should_restart ≡ true) ↔ (
        (stop_requested ≡ false)
        × (p.mode ≢ never)
        × (p.mode ≡ on_crash → has_failed exit_code ≡ true)
        × (crashes < p.max_consecutive_crashes))
unfolding evaluate
evaluate_iff p stop_requested exit_code crashes = (λ h. ground arith, λ h. ground arith)
