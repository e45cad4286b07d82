-- ===== src/Runtime/Server.antt =====
-- backend/msm/runtime/server_runtime.py: the life cycle of one Minecraft server.
pub mod Model
pub mod Console
pub mod Players
pub mod Presence
pub mod Events
pub mod Start
pub mod Stop
pub mod Steps
pub mod Coherent
pub mod Recovery
