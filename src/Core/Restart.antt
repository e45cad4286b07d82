-- ===== src/Core/Restart.antt =====
-- backend/msm/core/restart_policy.py. Durations are whole numbers of one fixed time unit, and the
-- backoff factor is a whole number (it is 2 wherever the program builds a policy).
pub mod Decisions
pub mod Delays
use minecraft_server_manager.Prelude.{
  ℕ, ◌+◌, ◌-◌, ◌*◌, ◌^◌, min, Bool, true, false, ◌&&◌, not, Option, none, some, leb, if◌then◌else◌,
}
use minecraft_server_manager.Prelude.Int.{ℤ, is_zero}

pub data AutoRestartMode : Type 0 where
  never on_crash always : AutoRestartMode

unfoldable pub is_never : AutoRestartMode → Bool
is_never never = true
is_never on_crash = false
is_never always = false

unfoldable pub is_on_crash : AutoRestartMode → Bool
is_on_crash never = false
is_on_crash on_crash = true
is_on_crash always = false

-- The texts that `evaluate` gives as reasons.
pub data Reason : Type 0 where
  stop_from_panel restart_disabled stopped_normally : Reason
  halted : ℕ → Reason
  attempt : AutoRestartMode → ℕ → ℕ → Reason

pub record RestartDecision : Type 0 where
  pub should_restart : Bool
  pub delay : ℕ
  pub reason : Reason

pub record RestartPolicy : Type 0 where
  pub mode : AutoRestartMode
  pub delay : ℕ
  pub max_consecutive_crashes : ℕ
  pub backoff_factor : ℕ
  pub max_delay : ℕ
  pub stability_threshold : ℕ

abbrev refuse : Reason → RestartDecision
refuse r = record { should_restart = false; delay = 0; reason = r }

unfoldable pub compute_delay : RestartPolicy → ℕ → ℕ
compute_delay p consecutive_crashes =
    min (p.delay * p.backoff_factor ^ (consecutive_crashes - 1)) p.max_delay

unfoldable pub is_stable : RestartPolicy → ℕ → Bool
is_stable p uptime = leb p.stability_threshold uptime

-- `exit_code is None or exit_code != 0`
unfoldable pub has_failed : Option ℤ → Bool
has_failed none = true
has_failed (some code) = not (is_zero code)

unfoldable pub evaluate : RestartPolicy → Bool → Option ℤ → ℕ → RestartDecision
unfolding has_failed is_never is_on_crash
evaluate p stop_requested exit_code consecutive_crashes =
    if stop_requested
    then refuse stop_from_panel
    else if is_never p.mode
    then refuse restart_disabled
    else if is_on_crash p.mode && not (has_failed exit_code)
    then refuse stopped_normally
    else if leb p.max_consecutive_crashes consecutive_crashes
    then refuse (halted consecutive_crashes)
    else record {
      should_restart = true;
      delay = compute_delay p consecutive_crashes;
      reason = attempt p.mode (consecutive_crashes + 1) p.max_consecutive_crashes;
    }
