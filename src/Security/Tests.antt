-- ===== src/Security/Tests.antt =====
-- A limiter of two attempts in ten seconds.
use minecraft_server_manager.Prelude.{
  ℕ, ◌+◌, ◌*◌, ◌≤◌, ◌≡◌, refl, true, List, [], ◌∷◌, length, codes, Text, arith, text_key,
}
use minecraft_server_manager.Security.RateLimit.{SlidingWindowLimiter, allow, retry_after, second}
use minecraft_server_manager.Security.RateLimit.Window.{fresh, granted_run, recent, serve-bounded}
use minecraft_server_manager.Security.RateLimit.Retry.{retry_after-enough}

abbrev test_attempts : List (Text × ℕ)
test_attempts =
    (codes "a", 1) ∷ (codes "b", 2) ∷ (codes "a", 3) ∷ (codes "a", 4) ∷ (codes "a", 12) ∷ []

serve-bounded_example :
    length (recent 12 10 (granted_run (codes "a") (fresh 2 10) test_attempts)) ≤ 2
serve-bounded_example =
    serve-bounded 2 10 (codes "a") test_attempts
      (omega arith, (omega arith, (omega arith, (omega arith, (omega arith, tt)))))

-- The third attempt in ten seconds is refused, a later one is granted.
granted_times : granted_run (codes "a") (fresh 2 10) test_attempts ≡ 1 ∷ 3 ∷ 12 ∷ []
unfolding allow
granted_times = refl

-- Ten seconds, the first of the two attempts at half a second.
abbrev full_limiter : SlidingWindowLimiter
full_limiter = record {
  limit = 2;
  window = 10 * second;
  hits = (codes "a", 500000 ∷ 3000000 ∷ []) ∷ [];
}

retry_after-enough_example :
    let l' = (allow (codes "a") 4200000 full_limiter).1 in
    (allow (codes "a") (4200000 + retry_after (codes "a") 4200000 l' * second) l').0 ≡ true
unfolding allow
retry_after-enough_example =
    retry_after-enough (codes "a") 4200000 full_limiter (omega arith) (omega arith) refl

-- It is told to wait seven seconds, the truncated difference and one.
announced_wait : retry_after (codes "a") 4200000 (allow (codes "a") 4200000 full_limiter).1 ≡ 7
unfolding allow retry_after
announced_wait = refl
