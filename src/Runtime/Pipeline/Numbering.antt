-- ===== src/Runtime/Pipeline/Numbering.antt =====
-- Every line that passes log_pipeline.py has the next number, so a client can resume exactly.
use minecraft_server_manager.Prelude.{
  Text, suc, ◌+◌, ◌-◌, ◌≤◌, ◌≡◌, refl, [], ◌∷◌, ◌++◌, length, length-append, length-drop, arith,
  subst, drop,
}
use minecraft_server_manager.Core.LogLine.{LogLevel, LineSource, LogLine}
use minecraft_server_manager.Runtime.RingBuffer
use minecraft_server_manager.Runtime.RingBuffer.{RingBuffer}
use minecraft_server_manager.Runtime.RingBuffer.Resume.{
  Consecutive, Consecutive-snoc, Consecutive-drop,
}
use minecraft_server_manager.Runtime.Pipeline.{Pipeline, add_line, reset}

-- The buffer holds the lines with the last numbers, up to the counter.
pub record IsNumbered (p : Pipeline) : Type 0 where
  pub positive : 1 ≤ p.buffer.maxlen
  pub bounded : length p.buffer.lines ≤ p.buffer.maxlen
  pub counted : length p.buffer.lines ≤ p.seq
  pub numbered : Consecutive (suc p.seq - length p.buffer.lines) p.buffer.lines

-- Numbering one line, from the process or from MSM itself, keeps the numbers in the buffer
-- consecutive and ending at the counter; the line bears the new value of the counter, which is the
-- old one plus 1.
pub add_line-IsNumbered :
    (text : Text) (level : LogLevel) (source : LineSource) (p : Pipeline)
    → IsNumbered p
    → let (q, line) = add_line text level source p in
      IsNumbered q × (line.seq ≡ q.seq) × (q.seq ≡ p.seq + 1)
unfolding add_line RingBuffer.append
add_line-IsNumbered text level source p h =
    let line : LogLine = record { seq = p.seq + 1; text = text; level = level; source = source } in
    let lines = p.buffer.lines ++ line ∷ [] in
    let longer = length-append p.buffer.lines (line ∷ []) in
    let k = length lines - p.buffer.maxlen in
    let kept = length-drop k lines in
    let all =
      Consecutive-snoc (suc p.seq - length p.buffer.lines) p.buffer.lines line h.numbered
        (omega (arith, h.counted)) in
    (
      record {
        positive = h.positive;
        bounded = omega (arith, kept);
        counted = omega (arith, kept, longer);
        numbered =
            subst (λ m. Consecutive m (drop k lines)) (omega (arith, kept, longer, h.counted))
              (Consecutive-drop k (suc p.seq - length p.buffer.lines) lines all (omega arith));
      },
      refl,
      refl,
    )

-- Emptying the history keeps the counter, so no number is ever given twice.
pub reset-IsNumbered :
    (p : Pipeline) → IsNumbered p → IsNumbered (reset p) × ((reset p).seq ≡ p.seq)
unfolding reset RingBuffer.clear
reset-IsNumbered p h = (
  record { positive = h.positive; bounded = omega arith; counted = omega arith; numbered = tt },
  refl,
)
