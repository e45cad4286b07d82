-- ===== src/Ws/Backlog.antt =====
-- What a client is told of the lines that it missed, when it resumes after line `n`.
use minecraft_server_manager.Core.LogLine.{LogLine}
use minecraft_server_manager.Runtime.RingBuffer.{RingBuffer}
