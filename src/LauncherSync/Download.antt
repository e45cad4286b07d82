-- ===== src/LauncherSync/Download.antt =====
-- backend/msm/launcher_sync/remote.py, FileServerClient.download: a file is fetched and checked before
-- it is kept.
pub mod Prepared
use minecraft_server_manager.Prelude.{
  ℕ, min, ◌≡◌, refl, sym, ap, subst, ◌∙◌, inl, inr, Bool-cases, Option-cases, Bool, true, false,
  not, Option, none, some, List, [], ◌∷◌, length, ltb, arith, if◌then◌else◌, Text, text_key,
  text_eq, text_eq_iff, lookup, insert, lookup-insert, beq_refl, All,
}
use minecraft_server_manager.Prelude.Fallible.{
  Fallible, refuse_if, done, failed, ◌>>=◌, ◌>>◌, Ensures, holds, Ensures-guard, Ensures-step,
  Ensures-if, Ensures-done, Fallible-cases,
}
use minecraft_server_manager.LauncherSync.Manifest.{max_file_bytes}
use minecraft_server_manager.LauncherSync.Plan.{Install}
use minecraft_server_manager.LauncherSync.Disk.{Bytes, Files}

pub data DownloadError : Type 0 where
  unavailable larger_than_announced wrong_checksum : DownloadError

-- The fingerprint of a file, and what the file server answers for a path.
module _ (sha256_of : Bytes → Text) (answer : Text → Fallible DownloadError Bytes) where
  abbrev pub is_prepared : Text → Option Bytes → Bool
  is_prepared sha256 none = false
  is_prepared sha256 (some content) = text_eq (sha256_of content) sha256

  abbrev fetch_and_check : Text → Text → ℕ → Files → Fallible DownloadError Files
  fetch_and_check path sha256 size staging = do
    content ← answer path
    refuse_if (ltb (min size max_file_bytes) (length content)) larger_than_announced
    refuse_if (not (text_eq (sha256_of content) sha256)) wrong_checksum
    done (insert sha256 content staging)

  unfoldable pub download : Text → Text → ℕ → Files → Fallible DownloadError Files
  download path sha256 size staging =
      if is_prepared sha256 (lookup sha256 staging)
      then done staging
      else fetch_and_check path sha256 size staging

  -- The loop of `_synchronize` over the installations of a plan.
  unfoldable pub download_all : List Install → Files → Option DownloadError × Files
  unfolding download
  download_all [] staging = (none, staging)
  download_all (i ∷ is) staging = elim (download i.path i.sha256 i.size staging) [
    | done next ↦ download_all is next
    | failed error ↦ (some error, staging)
  ]
