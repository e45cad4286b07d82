-- ===== src/Security/RateLimit/Retry.antt =====
-- The wait that is announced to a refused client is long enough.
use minecraft_server_manager.Prelude.{
  ℕ, ◌+◌, ◌*◌, ◌-◌, ◌≤◌, ◌<◌, ◌≡◌, refl, inl, inr, Bool-cases, true, false, List, [], ◌∷◌, length,
  leb, arith, Text, text_key, lookup-insert, beq_refl,
}
use native.Mathlib.Nat.{lt-mul-div-succ}
use minecraft_server_manager.Security.RateLimit.{
  SlidingWindowLimiter, hits_of, drop_old, allow, retry_after, wait_from, second,
}
use minecraft_server_manager.Security.RateLimit.Window.{kept_le}

refused-hits :
    (key : Text) (now : ℕ) (l : SlidingWindowLimiter)
    → (allow key now l).0 ≡ false
    → (hits_of key (allow key now l).1 ≡ drop_old now l.window (hits_of key l))
      × (l.limit ≤ length (drop_old now l.window (hits_of key l)))
      × ((allow key now l).1.limit ≡ l.limit)
      × ((allow key now l).1.window ≡ l.window)
unfolding allow
refused-hits key now l h =
    let hits = drop_old now l.window (hits_of key l) in
    elim (Bool-cases (leb l.limit (length hits))) [
      | inl full ↦
          rw (full, lookup-insert key key hits l.hits, beq_refl key)
            (refl, ground arith, refl, refl)
      | inr room ↦ absurd (ground (arith, room, h))
    ]

granted_if :
    (key : Text) (now : ℕ) (l : SlidingWindowLimiter)
    → length (drop_old now l.window (hits_of key l)) < l.limit
    → (allow key now l).0 ≡ true
unfolding allow
granted_if key now l h = ground arith

-- The first attempt is out of the window after the wait, so there is room.
room_after :
    (now window limit : ℕ) (hits : List ℕ)
    → 1 ≤ limit
    → limit ≤ length hits
    → length hits ≤ limit
    → length (drop_old (now + wait_from hits window now * second) window hits) < limit
unfolding drop_old
room_after now window limit [] p q r = absurd (omega arith)
room_after now window limit (t ∷ ts) p q r =
    let later = now + wait_from (t ∷ ts) window now * second in
    let left = t + window - now in
    let past : leb (t + window) later ≡ true =
      ground (arith, lt-mul-div-succ left {b = second} (omega arith)) in
    rw past (omega (arith, kept_le later window ts))

-- A client that is refused, and tries again after the whole number of seconds that `retry_after` then
-- announces, the clock being finer than a second, is let in, if nothing else has been counted for its key meanwhile (with a limit of at least 1, and no more
-- attempts counted than the limit, as is always the case).
pub retry_after-enough :
    (key : Text) (now : ℕ) (l : SlidingWindowLimiter)
    → 1 ≤ l.limit
    → length (hits_of key l) ≤ l.limit
    → (allow key now l).0 ≡ false
    → let l' = (allow key now l).1 in
      (allow key (now + retry_after key now l' * second) l').0 ≡ true
unfolding retry_after
retry_after-enough key now l p q h =
    let (same, full, limit, window) = refused-hits key now l h in
    let l' = (allow key now l).1 in
    let hits = drop_old now l.window (hits_of key l) in
    granted_if key (now + wait_from (hits_of key l') l'.window now * second) l' (
      rw (limit, window, same)
        (room_after now l.window l.limit hits p full
          (omega (arith, kept_le now l.window (hits_of key l)))))
