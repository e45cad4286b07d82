-- ===== src/Runtime/Pipeline.antt =====
-- backend/msm/runtime/log_pipeline.py: the numbering of a server's console lines. The callbacks that
-- `_dispatch` makes are those of the runtime, and stand with it (Runtime/Server/Console.antt).
pub mod Numbering
use minecraft_server_manager.Prelude.{Text, ℕ, ◌+◌}
use minecraft_server_manager.Core.LogLine.{LogLevel, LineSource, LogLine}
use minecraft_server_manager.Runtime.RingBuffer
use minecraft_server_manager.Runtime.RingBuffer.{RingBuffer}

pub record Pipeline : Type 0 where
  pub buffer : RingBuffer
  pub seq : ℕ

-- What `parse_line` reads from a raw line: its text without formatting, and its level.
pub record Parsed : Type 0 where
  pub text : Text
  pub level : LogLevel

-- `next_seq`, and the append at the start of `_dispatch`.
unfoldable pub add_line : Text → LogLevel → LineSource → Pipeline → Pipeline × LogLine
add_line text level source p =
    let line : LogLine = record { seq = p.seq + 1; text = text; level = level; source = source } in
    (record { buffer = RingBuffer.append p.buffer line; seq = p.seq + 1 }, line)

-- `ingest`, up to the callbacks.
unfoldable pub ingest : Parsed → Pipeline → Pipeline × LogLine
unfolding add_line
ingest parsed = add_line parsed.text parsed.level LineSource.stdout

-- `emit_system`, up to the callback.
unfoldable pub emit_system : Text → LogLevel → LineSource → Pipeline → Pipeline × LogLine
unfolding add_line
emit_system = add_line

unfoldable pub reset : Pipeline → Pipeline
reset p = record p { buffer = RingBuffer.clear p.buffer }
