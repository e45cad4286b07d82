-- ===== src/Runtime/RingBuffer/History.antt =====
-- ring_buffer.py against its specification: the last lines of an unbounded history, and how many
-- lines of it are gone.
use minecraft_server_manager.Prelude.{
  ℕ, ◌+◌, ◌-◌, ◌≤◌, ◌≡◌, refl, sym, ap, ◌∙◌, some, List, [], ◌∷◌, ◌++◌, append-nil, append_assoc,
  length, drop, last_n, length-append, length-drop, drop-append, drop-drop, arith, ◌==◌, true,
  false, max, subst, Bool-cases, inl, inr,
}
use minecraft_server_manager.Core.LogLine.{LogLine}
use minecraft_server_manager.Runtime.RingBuffer.{RingBuffer, append, extend, resize}

-- The buffer holds the end of `history`, at most `maxlen` lines of it, and counts the others.
pub record Holds (history : List LogLine) (b : RingBuffer) : Type 0 where
  pub positive : 1 ≤ b.maxlen
  pub content : b.lines ≡ drop b.dropped history
  pub bounded : length b.lines ≤ b.maxlen
  pub counted : b.dropped + length b.lines ≡ length history
  pub full : 1 ≤ b.dropped → length b.lines ≡ b.maxlen

-- A line at the end of a suffix is a line at the end of the whole.
drop-snoc :
    (k d : ℕ) (lines history : List LogLine) (line : LogLine)
    → lines ≡ drop d history
    → d ≤ length history
    → drop k (lines ++ line ∷ []) ≡ drop (d + k) (history ++ line ∷ [])
drop-snoc k d lines history line e h =
    ap (λ l. drop k (l ++ line ∷ [])) e
    ∙ ap (drop k) (sym (drop-append d history (line ∷ []) h))
    ∙ drop-drop k d (history ++ line ∷ [])

append-Holds :
    (history : List LogLine) (b : RingBuffer) (line : LogLine)
    → Holds history b
    → Holds (history ++ line ∷ []) (append b line)
unfolding append
append-Holds history b line h =
    let k : ℕ = length (b.lines ++ line ∷ []) - b.maxlen in
    let longer = length-append b.lines (line ∷ []) in
    let longest = length-append history (line ∷ []) in
    let shown = drop-snoc k b.dropped b.lines history line h.content (omega arith) in
    let counted : b.dropped + k ≡ (append b line).dropped = ground (arith, longer) in
    let kept = length-drop k (b.lines ++ line ∷ []) in
    record {
      positive = h.positive;
      content = shown ∙ ap (λ d. drop d (history ++ line ∷ [])) counted;
      bounded = omega (arith, kept);
      counted = omega (arith, kept);
      full = λ p. ground (arith, kept, longer);
    }

-- Whatever lines are appended to a buffer that holds a history, the result holds that history
-- followed by these lines: exactly the last `maxlen` lines are kept, in order, once it is full,
-- and `dropped` counts every line that is gone.
pub extend-Holds :
    (lines history : List LogLine) (b : RingBuffer)
    → Holds history b
    → Holds (history ++ lines) (extend b lines)
unfolding extend
extend-Holds [] history b h = rw append-nil h
extend-Holds (line ∷ lines) history b h =
    subst (λ l. Holds l (extend b (line ∷ lines))) (append_assoc history (line ∷ []) lines)
      (extend-Holds lines (history ++ line ∷ []) (append b line) (append-Holds history b line h))

abbrev shrunk : RingBuffer → ℕ → RingBuffer
shrunk b maxlen = record {
  maxlen = maxlen;
  lines = last_n maxlen b.lines;
  dropped = b.dropped + (length b.lines - length (last_n maxlen b.lines));
}

resize-other :
    (b : RingBuffer) (maxlen : ℕ)
    → 1 ≤ maxlen
    → (maxlen == b.maxlen) ≡ false
    → resize b maxlen ≡ some (shrunk b maxlen)
unfolding resize
resize-other b maxlen p e = ground arith

resize-same :
    (b : RingBuffer) (maxlen : ℕ)
    → 1 ≤ maxlen
    → (maxlen == b.maxlen) ≡ true
    → resize b maxlen ≡ some b
unfolding resize
resize-same b maxlen p e = ground arith

-- A resize to a positive capacity succeeds, and the buffer still shows the end of the same history:
-- the most recent lines stay, and `dropped` grows by the lines that no longer fit, no others.
pub resize-keeps :
    (history : List LogLine) (b : RingBuffer) (maxlen : ℕ)
    → Holds history b
    → 1 ≤ maxlen
    → (c : RingBuffer) × (resize b maxlen ≡ some c)
      × (c.maxlen ≡ maxlen)
      × (c.dropped ≡ max b.dropped (length history - maxlen))
      × (c.lines ≡ drop c.dropped history)
resize-keeps history b maxlen h p = elim (Bool-cases (maxlen == b.maxlen)) [
  | inl e ↦ (b, resize-same b maxlen p e, ground arith, ground arith, h.content)
  | inr e ↦
      let k : ℕ = length b.lines - maxlen in
      let kept = length-drop k b.lines in
      let c = shrunk b maxlen in
      (
        c,
        resize-other b maxlen p e,
        refl,
        omega (arith, kept),
        ap (drop k) h.content
            ∙ drop-drop k b.dropped history
            ∙ ap (λ d. drop d history) (omega (arith, kept)),
      )
]
