-- ===== src/Core/LogLine.antt =====
-- backend/msm/core/log_line.py: the fields of a console line that the runtime and the WebSocket
-- read.
use minecraft_server_manager.Prelude.{ℕ, Text}

pub data LogLevel : Type 0 where
  trace debug info warn error fatal raw : LogLevel

pub data LineSource : Type 0 where
  stdout stderr msm command : LineSource

pub record LogLine : Type 0 where
  pub seq : ℕ
  pub text : Text
  pub level : LogLevel
  pub source : LineSource
