-- ===== src/LauncherSync/State.antt =====
-- The state that a synchronisation reads and changes: the integration's row in the database
-- (backend/msm/db/models/launcher.py), the files that MSM remembers, and the folders.
use minecraft_server_manager.Prelude.{ℕ, Bool, Option, List, Text, Dict}
use minecraft_server_manager.Prelude.Json.{Json}
use minecraft_server_manager.LauncherSync.Manifest.{Refusal, Side}
use minecraft_server_manager.LauncherSync.Plan.{Plan}
use minecraft_server_manager.LauncherSync.Disk.{DiskError, Files}
use minecraft_server_manager.LauncherSync.Download.{DownloadError}

pub data SyncStatus : Type 0 where
  never up_to_date applied pending_restart blocked sync_failed : SyncStatus

pub data SideSource : Type 0 where
  by_override by_manifest by_detection by_default : SideSource

pub data OnServer : Type 0 where
  disabled_there enabled_there absent_there : OnServer

-- What a synchronisation raises.
pub data SyncError : Type 0 where
  not_reached : SyncError
  refused_manifest : Refusal → SyncError
  not_downloaded : DownloadError → SyncError
  not_applied : DiskError → SyncError

-- What the integration shows as its last error.
pub data Problem : Type 0 where
  raised : SyncError → Problem
  mass_deletion : ℕ → ℕ → Problem

-- One file of the last manifest, as the interface shows it.
pub record Row : Type 0 where
  pub path : Text
  pub sha256 : Text
  pub size : ℕ
  pub declared_side : Option Side
  pub disabled_upstream : Bool
  pub side : Side
  pub side_source : SideSource
  pub on_server : OnServer

pub record Summary : Type 0 where
  pub installs : ℕ
  pub removes : ℕ
  pub adopted : ℕ
  pub unchanged : ℕ
  pub client_only : ℕ
  pub download_bytes : ℕ

pub record Integration : Type 0 where
  pub enabled : Bool
  pub sync_paths : List Text
  pub interval_minutes : ℕ
  pub side_overrides : Dict Text Side
  pub side_cache : Dict Text Side
  pub manifest_etag : Option Text
  pub pack_version : Option Text
  pub manifest_entries : List Row
  pub next_sync_at : ℕ
  pub last_sync_at : ℕ
  pub last_sync_status : SyncStatus
  pub last_sync_error : Option Problem
  pub last_sync_summary : Option Summary
  pub pending_plan : Option Plan

-- What the file server answers: no data when the manifest has not changed.
pub record ManifestFetch : Type 0 where
  pub data_read : Option Json
  pub etag : Option Text

pub record World : Type 0 where
  pub integration : Integration
  pub tracked : Dict Text Text
  pub files : Files
  pub staging : Files
