-- ===== src/Minecraft.antt =====
-- backend/msm/minecraft: of the files of a server, server.properties.
pub mod Properties
mod Tests
