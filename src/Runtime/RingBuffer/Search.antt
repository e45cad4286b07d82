-- ===== src/Runtime/RingBuffer/Search.antt =====
-- What a search of ring_buffer.py returns.
use minecraft_server_manager.Prelude.{
  Text, contains, ℕ, ◌≤◌, ◌≡◌, refl, Bool, true, false, Option, none, List, [], ◌∷◌, length,
  length-drop, arith, keep, All, drop, last_n, ◌-◌, Bool-cases, inl, inr, zero, suc,
}
use minecraft_server_manager.Core.LogLine.{LogLine}
use minecraft_server_manager.Runtime.RingBuffer.{RingBuffer, search, from_end}

All-keep : (p : LogLine → Bool) (lines : List LogLine) → All (λ l. p l ≡ true) (keep p lines)
All-keep p [] = tt
All-keep p (l ∷ lines) =
    let rest = All-keep p lines in
    elim (Bool-cases (p l)) [ inl yes' ↦ rw yes' (yes', rest) | inr no' ↦ rw no' rest ]

All-drop :
    (p : LogLine → Bool) (n : ℕ) (lines : List LogLine)
    → All (λ l. p l ≡ true) lines
    → All (λ l. p l ≡ true) (drop n lines)
All-drop p zero lines h = h
All-drop p (suc n) [] h = tt
All-drop p (suc n) (l ∷ lines) h = All-drop p n lines h.1

pub from_end-last_n :
    (limit : ℕ) (lines : List LogLine) → 1 ≤ limit → from_end limit lines ≡ last_n limit lines
from_end-last_n limit lines h = ground arith

from_end_sound :
    (p : LogLine → Bool) (limit : ℕ) (lines : List LogLine)
    → 1 ≤ limit
    → (length (from_end limit (keep p lines)) ≤ limit)
      × All (λ l. p l ≡ true) (from_end limit (keep p lines))
from_end_sound p limit lines h =
    let kept = keep p lines in
    rw (from_end-last_n limit kept h) (
      omega (arith, length-drop (length kept - limit) kept),
      All-drop p (length kept - limit) kept (All-keep p lines),
    )

module _ (casefold : Text → Text) (compile : Text → Bool → Option (Text → Bool)) where
  -- A literal search, with a limit of at least 1 and a query that is not empty, returns at most
  -- `limit` lines, and each of them contains the query; so does a search for a pattern that does not
  -- compile.
  pub search_sound :
      (b : RingBuffer) (c : ℕ) (cs : Text) (limit : ℕ) (use_regex : Bool)
      → 1 ≤ limit
      → (use_regex ≡ true → compile (c ∷ cs) true ≡ none)
      → let found = search casefold compile b (c ∷ cs) limit use_regex true in
        (length found ≤ limit) × All (λ l. contains (c ∷ cs) l.text ≡ true) found
  unfolding search
  search_sound b c cs limit false h k =
      from_end_sound (λ l. contains (c ∷ cs) l.text) limit b.lines h
  search_sound b c cs limit true h k =
      rw (k refl) (from_end_sound (λ l. contains (c ∷ cs) l.text) limit b.lines h)
