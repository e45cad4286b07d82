-- ===== src/Services.antt =====
-- backend/msm/services: of the services, the hosting of the accounts' servers.
pub mod Hosting
pub mod Members
mod Tests
