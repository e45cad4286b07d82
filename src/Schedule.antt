-- ===== src/Schedule.antt =====
-- backend/msm/schedule: when a scheduled task is due.
pub mod Rules
pub mod Occurrences
mod Tests
