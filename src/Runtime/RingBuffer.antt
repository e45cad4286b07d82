-- ===== src/Runtime/RingBuffer.antt =====
-- backend/msm/runtime/ring_buffer.py: the bounded console history of a server. Limits are naturals;
-- `casefold` and the compiler of regular expressions are Python's.
pub mod History
pub mod Resume
pub mod Search
use minecraft_server_manager.Prelude.{
  Text, contains, ℕ, ◌+◌, ◌-◌, Bool, Option, none, some, List, [], ◌∷◌, ◌++◌, length, take, drop,
  last_n, keep, last?, ltb, leb, ◌==◌, if◌then◌else◌,
}
use minecraft_server_manager.Core.LogLine.{LogLine}

pub record RingBuffer : Type 0 where
  pub maxlen : ℕ
  pub lines : List LogLine
  pub dropped : ℕ

-- `RingBuffer(maxlen)`; `none` is the ValueError.
unfoldable pub new : ℕ → Option RingBuffer
new maxlen =
    if ltb maxlen 1 then none else some (record { maxlen = maxlen; lines = []; dropped = 0 })

-- `deque(maxlen=...)`: an append to a full deque drops its first element.
abbrev pub deque_append : ℕ → List LogLine → LogLine → List LogLine
deque_append maxlen lines line = last_n maxlen (lines ++ line ∷ [])

unfoldable pub append : RingBuffer → LogLine → RingBuffer
append b line = record b {
  lines = deque_append b.maxlen b.lines line;
  dropped = if length b.lines == b.maxlen then b.dropped + 1 else b.dropped;
}

unfoldable pub extend : RingBuffer → List LogLine → RingBuffer
extend b [] = b
extend b (line ∷ lines) = extend (append b line) lines

unfoldable pub clear : RingBuffer → RingBuffer
clear b = record b { lines = []; dropped = 0 }

abbrev seq_of : Option LogLine → Option ℕ
seq_of none = none
seq_of (some line) = some line.seq

abbrev first? : List LogLine → Option LogLine
first? [] = none
first? (line ∷ lines) = some line

unfoldable pub first_seq : RingBuffer → Option ℕ
first_seq b = seq_of (first? b.lines)

unfoldable pub last_seq : RingBuffer → Option ℕ
last_seq b = seq_of (last? b.lines)

-- `l[-limit:]`, which is the whole list for a limit of 0.
abbrev pub from_end : ℕ → List LogLine → List LogLine
from_end limit lines = if limit == 0 then lines else last_n limit lines

unfoldable pub tail : RingBuffer → ℕ → List LogLine
tail b limit =
    if leb limit 0
    then []
    else if leb (length b.lines) limit
    then b.lines
    else from_end limit b.lines

unfoldable pub since : RingBuffer → ℕ → Option ℕ → List LogLine
since b seq none = keep (λ line. ltb seq line.seq) b.lines
since b seq (some limit) = take limit (keep (λ line. ltb seq line.seq) b.lines)

unfoldable pub before : RingBuffer → ℕ → ℕ → List LogLine
before b seq limit =
    if leb limit 0 then [] else from_end limit (keep (λ line. ltb line.seq seq) b.lines)

-- The result, or `none` for the ValueError.
unfoldable pub resize : RingBuffer → ℕ → Option RingBuffer
resize b maxlen =
    if ltb maxlen 1
    then none
    else if maxlen == b.maxlen
    then some b
    else let kept : List LogLine = from_end maxlen b.lines in
      some (record {
        maxlen = maxlen;
        lines = kept;
        dropped = b.dropped + (length b.lines - length kept);
      })

module _ (casefold : Text → Text) (compile : Text → Bool → Option (Text → Bool)) where
  abbrev literal_search : RingBuffer → Text → ℕ → Bool → List LogLine
  literal_search b query limit case_sensitive =
      let needle = if case_sensitive then query else casefold query in
      from_end limit (
        keep (λ line. contains needle (if case_sensitive then line.text else casefold line.text))
          b.lines)

  abbrev pattern_search : RingBuffer → Text → ℕ → Bool → Option (Text → Bool) → List LogLine
  pattern_search b query limit case_sensitive none = literal_search b query limit case_sensitive
  pattern_search b query limit case_sensitive (some matches) =
      from_end limit (keep (λ line. matches line.text) b.lines)

  unfoldable pub search : RingBuffer → Text → ℕ → Bool → Bool → List LogLine
  search b [] limit use_regex case_sensitive = []
  search b (c ∷ cs) limit use_regex case_sensitive =
      let query : Text = c ∷ cs in
      if use_regex
      then pattern_search b query limit case_sensitive (compile query case_sensitive)
      else literal_search b query limit case_sensitive
