-- ===== src/Runtime/RingBuffer/Resume.antt =====
-- Histories whose lines bear consecutive numbers: what `since` gives back after a lost connection.
use minecraft_server_manager.Prelude.{
  ℕ, zero, suc, ◌+◌, ◌-◌, ◌≤◌, ◌≡◌, sym, ap, ◌∙◌, List, [], ◌∷◌, ◌++◌, length, drop, keep,
  length-drop, arith, ltb, min, none, inl, inr, Bool-cases, drop-nil, subst, true, false,
}
use minecraft_server_manager.Core.LogLine.{LogLine}
use minecraft_server_manager.Runtime.RingBuffer.{RingBuffer, since}

-- The lines are numbered n, n + 1, n + 2, ...
abbrev pub Consecutive : ℕ → List LogLine → Type 0
Consecutive n [] = Unit
Consecutive n (line ∷ lines) = (line.seq ≡ n) × Consecutive (suc n) lines

pub Consecutive-snoc :
    (n : ℕ) (lines : List LogLine) (line : LogLine)
    → Consecutive n lines
    → line.seq ≡ n + length lines
    → Consecutive n (lines ++ line ∷ [])
Consecutive-snoc n [] line h e = (omega arith, tt)
Consecutive-snoc n (l ∷ lines) line h e =
    (h.0, Consecutive-snoc (suc n) lines line h.1 (omega arith))

pub Consecutive-drop :
    (k n : ℕ) (lines : List LogLine)
    → Consecutive n lines
    → k ≤ length lines
    → Consecutive (n + k) (drop k lines)
Consecutive-drop zero n lines h p = subst (λ m. Consecutive m lines) (omega arith) h
Consecutive-drop (suc k) n [] h p = absurd (omega arith)
Consecutive-drop (suc k) n (l ∷ lines) h p =
    subst (λ m. Consecutive m (drop k lines)) (omega arith)
      (Consecutive-drop k (suc n) lines h.1 (omega arith))

none_left : (seq a : ℕ) (l : LogLine) → l.seq ≡ a → ltb seq l.seq ≡ true → suc seq - suc a ≡ 0
none_left seq a l e h = ground arith

none_before : (seq a : ℕ) (l : LogLine) → l.seq ≡ a → ltb seq l.seq ≡ true → suc seq - a ≡ 0
none_before seq a l e h = ground arith

one_more :
    (seq a : ℕ) (l : LogLine)
    → l.seq ≡ a
    → ltb seq l.seq ≡ false
    → suc seq - a ≡ suc (suc seq - suc a)
one_more seq a l e h = ground arith

-- In consecutive lines, those after number `seq` are all but a known number of the first ones.
keep-after :
    (a seq : ℕ) (lines : List LogLine)
    → Consecutive a lines
    → keep (λ line. ltb seq line.seq) lines ≡ drop (suc seq - a) lines
keep-after a seq [] h = sym (drop-nil (suc seq - a))
keep-after a seq (l ∷ lines) h =
    let rest = keep-after (suc a) seq lines h.1 in
    elim (Bool-cases (ltb seq l.seq)) [
      | inl later ↦
          rw (later, rest)
            (ap (λ k. l ∷ drop k lines) (none_left seq a l h.0 later)
              ∙ sym (ap (λ k. drop k (l ∷ lines)) (none_before seq a l h.0 later)))
      | inr upto ↦ rw (upto, rest) (sym (ap (λ k. drop k (l ∷ lines)) (one_more seq a l h.0 upto)))
    ]

-- The lines that `since` gives a client which has received number `seq`, from a history numbered
-- up to `last`: exactly the numbers after `seq`, without gap or repetition, as far as the buffer
-- still holds them.
pub since-Consecutive :
    (b : RingBuffer) (seq last : ℕ)
    → Consecutive (suc last - length b.lines) b.lines
    → length b.lines ≤ last
    → seq ≤ last
    → (length (since b seq none) ≡ min (last - seq) (length b.lines))
      × Consecutive (suc last - length (since b seq none)) (since b seq none)
unfolding since
since-Consecutive b seq last h p q =
    let k : ℕ = suc seq - (suc last - length b.lines) in
    let shown = keep-after (suc last - length b.lines) seq b.lines h in
    let kept = length-drop k b.lines in
    let tail = Consecutive-drop k (suc last - length b.lines) b.lines h (omega arith) in
    rw shown
      (omega (arith, kept), subst (λ m. Consecutive m (drop k b.lines)) (omega (arith, kept)) tail)
