-- ===== src/Core/Restart/Delays.antt =====
-- The backoff of restart_policy.py.
use minecraft_server_manager.Prelude.{ℕ, zero, suc, ◌*◌, ◌^◌, ◌≤◌, ◌≡◌, min, arith, ap, refl, ◌∙◌}
use minecraft_server_manager.Core.Restart.{RestartPolicy, compute_delay}
use native.Mathlib.Nat.{pow-zero, pow-suc, mul_assoc, min-eq_left, min-eq_right}
use native.Mathlib.Decide.{dec_le}

le_of_not_le : {a b : ℕ} → ¬ (a ≤ b) → b ≤ a
le_of_not_le h = omega arith

le-scale : (x f : ℕ) → 1 ≤ f → x ≤ x * f
le-scale x zero h = absurd (omega arith)
le-scale x (suc k) h = omega arith

scale-min : (f x m : ℕ) → 1 ≤ f → min (x * f) m ≡ min (f * min x m) m
scale-min zero x m h = absurd (omega arith)
scale-min (suc k) x m h = elim (dec_le x m) [
  | yes p ↦ rw (min-eq_left p) (omega arith)
  | no p ↦ rw (min-eq_right (le_of_not_le p)) (omega arith)
]

module _ (p : RestartPolicy) where
  delay_at : (n : ℕ) → compute_delay p (suc n) ≡ min (p.delay * p.backoff_factor ^ n) p.max_delay
  unfolding compute_delay
  delay_at n = ap (λ k. min (p.delay * p.backoff_factor ^ k) p.max_delay) (omega arith)

  -- After at most one crash the wait is the base delay, cut at the maximum.
  pub compute_delay-first : (n : ℕ) → n ≤ 1 → compute_delay p n ≡ min p.delay p.max_delay
  unfolding compute_delay
  compute_delay-first zero h = rw (pow-zero p.backoff_factor) (omega arith)
  compute_delay-first (suc zero) h = rw (delay_at zero, pow-zero p.backoff_factor) (omega arith)
  compute_delay-first (suc (suc n)) h = absurd (omega arith)

  -- With a factor of at least 1, each further crash multiplies the wait by the factor until the
  -- maximum is reached, where it stays; no wait is above the maximum.
  pub compute_delay-next :
      1 ≤ p.backoff_factor
      → (n : ℕ)
      → (compute_delay p (suc (suc n))
          ≡ min (p.backoff_factor * compute_delay p (suc n)) p.max_delay)
        × (compute_delay p (suc n) ≤ compute_delay p (suc (suc n)))
        × (compute_delay p (suc n) ≤ p.max_delay)
  compute_delay-next h n =
      let x : ℕ = p.delay * p.backoff_factor ^ n in
      let next : compute_delay p (suc (suc n)) ≡ min (x * p.backoff_factor) p.max_delay =
        rw (delay_at (suc n), pow-suc p.backoff_factor n, mul_assoc) refl in
      let step : min (x * p.backoff_factor) p.max_delay
          ≡ min (p.backoff_factor * compute_delay p (suc n)) p.max_delay =
        rw (delay_at n) (scale-min p.backoff_factor x p.max_delay h) in
      (
        next ∙ step,
        omega (arith, delay_at n, le-scale x p.backoff_factor h),
        omega (arith, delay_at n),
      )
