-- ===== src/Security.antt =====
-- backend/msm/security: access to the panel.
pub mod RateLimit
pub mod Access
mod Tests
