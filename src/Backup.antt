-- ===== src/Backup.antt =====
-- backend/msm/backup: of the backups, the suspension of a world's writes.
pub mod Hot
mod Tests
