-- ===== src/Runtime.antt =====
-- backend/msm/runtime: the processes, their consoles and their life cycles.
pub mod RingBuffer
pub mod Pipeline
pub mod Server
pub mod ProcessHandle
pub mod Command
mod Tests
