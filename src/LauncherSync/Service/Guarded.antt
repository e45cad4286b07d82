-- ===== src/LauncherSync/Service/Guarded.antt =====
-- What a synchronisation must not do (services/launcher_service.py, run_sync).
use minecraft_server_manager.Prelude.{
  ℕ, ◌≡◌, refl, inl, inr, Bool-cases, Option-cases, Bool, true, false, ◌&&◌, not, Option, none,
  some, length, if◌then◌else◌, Text, text_key,
}
use minecraft_server_manager.Prelude.Fallible.{Fallible, done, failed}
use minecraft_server_manager.LauncherSync.Manifest.{Refusal, Manifest}
use minecraft_server_manager.LauncherSync.Plan.{Plan, is_mass_deletion}
use minecraft_server_manager.LauncherSync.Disk.{Files}
use minecraft_server_manager.LauncherSync.Download.{DownloadError}
use minecraft_server_manager.LauncherSync.State.{SyncError, ManifestFetch, World}
use minecraft_server_manager.LauncherSync.Service.{and_then}
use minecraft_server_manager.LauncherSync.Service.Sync.{
  Outside, is_empty_plan, conclude, after_downloads, follow_plan, after_sides, candidates_of,
  local_of, search_sides, keep_staging, with_manifest, read_manifest, fetched, stamp, synchronize,
  settle_error, run_sync,
}

pub and_then-elim :
    {A B : Type 0} (P : Option SyncError × B → Type 0) (r : Option SyncError × A)
    (next : A → Option SyncError × B) (stopped : A → B)
    → ((a : A) → P (next a))
    → ((error : SyncError) (a : A) → P (some error, stopped a))
    → P (and_then r next stopped)
and_then-elim P (some error, a) next stopped h k = k error a
and_then-elim P (none, a) next stopped h k = h a

pub if-elim :
    {A : Type 0} (P : A → Type 0) (b : Bool) (x y : A) → P x → P y → P (if b then x else y)
if-elim P true x y h k = h
if-elim P false x y h k = k

module _ (o : Outside) (stays : o.running ≡ true) where
  conclude-kept : (plan : Plan) (w : World) → (conclude o plan w).1.files ≡ w.files
  unfolding conclude
  conclude-kept plan w = elim (Bool-cases (is_empty_plan plan)) [
    | inl nothing ↦ rw nothing refl
    | inr something ↦ rw (something, stays) refl
  ]

  after_downloads-kept :
      (plan : Plan) (hidden : ℕ) (r : Option DownloadError × Files) (w : World)
      → (after_downloads o plan hidden r w).1.files ≡ w.files
  unfolding after_downloads
  after_downloads-kept plan hidden (some error, staging) w = refl
  after_downloads-kept plan hidden (none, staging) w = conclude-kept plan _

  follow_plan-kept :
      (allow : Bool) (plan : Plan) (hidden : ℕ) (w : World)
      → (follow_plan o allow plan hidden w).1.files ≡ w.files
  unfolding follow_plan
  follow_plan-kept allow plan hidden w =
      elim (Bool-cases (is_mass_deletion plan (length w.tracked) && not allow)) [
        | inl mass ↦ rw mass refl
        | inr few ↦ rw few (after_downloads-kept plan hidden _ _)
      ]

  with_manifest-kept :
      (allow : Bool) (m : Manifest) (w : World) → (with_manifest o allow m w).1.files ≡ w.files
  unfolding with_manifest after_sides
  with_manifest-kept allow m w =
      and_then-elim {B = World} (λ r. r.1.files ≡ w.files) (search_sides o m w)
        (after_sides o allow (candidates_of o m w) (local_of o w) w) (keep_staging o w)
        (λ s. follow_plan-kept allow _ _ _) (λ error s. refl)

  read_manifest-kept :
      (allow : Bool) (etag : Option Text) (r : Fallible Refusal Manifest) (w : World)
      → (read_manifest o allow etag r w).1.files ≡ w.files
  read_manifest-kept allow etag (failed refusal) w = refl
  read_manifest-kept allow etag (done m) w = with_manifest-kept allow m _

  fetched-kept :
      (allow : Bool) (r : Fallible SyncError ManifestFetch) (w : World)
      → (fetched o allow r w).1.files ≡ w.files
  fetched-kept allow (failed error) w = refl
  fetched-kept allow (done f) w = elim (Option-cases f.data_read) [
    | inl unchanged ↦ rw unchanged (with_manifest-kept allow _ w)
    | inr (raw, given) ↦ rw given (read_manifest-kept allow f.etag _ w)
  ]

  settle_error-kept :
      (r : Option SyncError × World) (files : Files)
      → r.1.files ≡ files
      → (settle_error o r).files ≡ files
  settle_error-kept (none, w) files h = h
  settle_error-kept (some error, w) files h = h

  -- While the server runs, a synchronisation changes no file of it, whatever the file server
  -- answers.
  pub run_sync-kept :
      (allow : Bool) (now : ℕ) (w : World) → (run_sync o allow now w).files ≡ w.files
  unfolding run_sync synchronize
  run_sync-kept allow now w =
      if-elim (λ v. v.files ≡ w.files) w.integration.enabled
        (settle_error o (synchronize o allow (stamp o now w))) w
        (settle_error-kept (synchronize o allow (stamp o now w)) w.files
          (fetched-kept allow _ (stamp o now w)))
        refl
