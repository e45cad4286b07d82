-- ===== src/LauncherSync.antt =====
-- backend/msm/launcher_sync: the synchronisation of a server's files with the manifest of a file server.
pub mod Manifest
pub mod Plan
pub mod Disk
pub mod Download
pub mod State
pub mod Service
pub mod Inside
pub mod Converged
mod Tests
