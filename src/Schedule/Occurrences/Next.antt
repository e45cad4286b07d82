-- ===== src/Schedule/Occurrences/Next.antt =====
-- rules.py: the next occurrence of an interval.
use minecraft_server_manager.Prelude.{
  ℕ, ◌+◌, ◌-◌, ◌*◌, ◌/◌, ◌≤◌, ◌<◌, Option, leb, if◌then◌else◌, Bool-cases, ◌≡◌, ◌⊎◌, refl, arith,
  inl, inr,
}
use native.Mathlib.Nat.{lt-mul-div-succ, mul-div-le}
use minecraft_server_manager.Schedule.Rules.{Rule}
use minecraft_server_manager.Schedule.Occurrences.{minute_us, anchor_of, next_interval}

-- The first point after `reference` of the series that starts one step after the anchor.
abbrev pub IsNextStep : ℕ → ℕ → ℕ → ℕ → Type 0
IsNextStep step anchor reference next =
    (reference < next)
    × ((steps : ℕ) × (next ≡ anchor + step * (steps + 1))
        × ((steps ≡ 0) ⊎ (next ≤ reference + step)))

next_step :
    (step anchor reference : ℕ)
    → 0 < step
    → IsNextStep step anchor reference (
        if leb (anchor + step) reference
        then anchor + step * ((reference - anchor) / step + 1)
        else anchor + step)
next_step step anchor reference h = elim (Bool-cases (leb (anchor + step) reference)) [
  | inl late ↦
      let after = lt-mul-div-succ (reference - anchor) h in
      let before = mul-div-le (reference - anchor) step in
      let split : step * ((reference - anchor) / step + 1)
          ≡ step * ((reference - anchor) / step) + step =
        grind arith in
      rw late (ground arith, ((reference - anchor) / step, refl, inr (ground arith)))
  | inr early ↦
      let unit : step * (0 + 1) ≡ step = grind arith in
      rw early (ground arith, (0, ground arith, inl refl))
]

-- With an interval of at least one minute the next occurrence comes after the reference, on the
-- series of whole intervals from the last run (or from the reference), and no later than one
-- interval after the reference unless it is the first of the series.
pub next_interval-IsNextStep :
    (rule : Rule) (reference : ℕ) (last_run : Option ℕ)
    → 1 ≤ rule.interval_minutes
    → IsNextStep
        (rule.interval_minutes * minute_us)
        (anchor_of last_run reference)
        reference
        (next_interval rule reference last_run)
unfolding next_interval
next_interval-IsNextStep rule reference last_run h =
    next_step (rule.interval_minutes * minute_us) (anchor_of last_run reference) reference
      (omega arith)
