-- ===== src/Security/RateLimit.antt =====
-- backend/msm/security/ratelimit.py: at most `limit` attempts by key in a sliding window. Times
-- are microseconds of the clock, which is an argument; the window is one of them too.
pub mod Window
pub mod Retry
use minecraft_server_manager.Prelude.{
  ℕ, ◌+◌, ◌-◌, ◌/◌, max, Bool, true, false, Option, none, some, List, [], ◌∷◌, ◌++◌, length, ltb,
  leb, if◌then◌else◌, Text, text_key, Dict, lookup, insert,
}

pub record SlidingWindowLimiter : Type 0 where
  pub limit : ℕ
  pub window : ℕ
  pub hits : Dict Text (List ℕ)

abbrev pub max_keys : ℕ
max_keys = 10000

abbrev pub times : Option (List ℕ) → List ℕ
times none = []
times (some ts) = ts

-- The attempts that are counted for a key.
abbrev pub hits_of : Text → SlidingWindowLimiter → List ℕ
hits_of key l = times (lookup key l.hits)

-- The loop that takes the attempts out of the window off.
unfoldable pub drop_old : ℕ → ℕ → List ℕ → List ℕ
drop_old now window [] = []
drop_old now window (t ∷ ts) =
    let rest = drop_old now window ts in if leb (t + window) now then rest else t ∷ ts

-- The entries with no attempt left are forgotten.
unfoldable pub purge : Dict Text (List ℕ) → Dict Text (List ℕ)
purge [] = []
purge ((key, []) ∷ d) = purge d
purge ((key, t ∷ ts) ∷ d) = (key, t ∷ ts) ∷ purge d

unfoldable pub allow : Text → ℕ → SlidingWindowLimiter → Bool × SlidingWindowLimiter
unfolding drop_old purge
allow key now l =
    let hits = drop_old now l.window (hits_of key l) in
    let counted = insert key (hits ++ now ∷ []) l.hits in
    if leb l.limit (length hits) then (false, record l { hits = insert key hits l.hits }) else (
      true,
      record l { hits = if ltb max_keys (length counted) then purge counted else counted },
    )

-- The microseconds of a second.
abbrev pub second : ℕ
second = 1000000

abbrev pub wait_from : List ℕ → ℕ → ℕ → ℕ
wait_from [] window now = 0
wait_from (t ∷ ts) window now = max 1 ((t + window - now) / second + 1)

-- A number of seconds, `int` keeping the whole seconds of the difference; a difference below 0 gives 1
-- as well.
unfoldable pub retry_after : Text → ℕ → SlidingWindowLimiter → ℕ
retry_after key now l = wait_from (hits_of key l) l.window now

unfoldable pub reset : SlidingWindowLimiter → SlidingWindowLimiter
reset l = record l { hits = [] }
