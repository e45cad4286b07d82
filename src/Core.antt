-- ===== src/Core.antt =====
-- backend/msm/core: the domain rules that depend on neither the database nor the processes.
pub mod LogLine
pub mod States
pub mod Restart
pub mod Permissions
pub mod Commands
pub mod Danger
mod Tests
