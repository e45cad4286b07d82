-- ===== src/LauncherSync/Service/Ends.antt =====
-- How a synchronisation ends: what holds of every way to end holds of the run (services/launcher_service.py).
use minecraft_server_manager.Prelude.{
  ℕ, ◌≡◌, refl, sym, subst, if◌then◌else◌, inl, inr, Option-cases, Bool, true, Option, none, some,
  Text,
}
use minecraft_server_manager.Prelude.Fallible.{Fallible, done, failed}
use minecraft_server_manager.LauncherSync.Manifest.{Refusal, Manifest}
use minecraft_server_manager.LauncherSync.State.{sync_failed, SyncError, ManifestFetch, World}
use minecraft_server_manager.LauncherSync.Service.{Search}
use minecraft_server_manager.LauncherSync.Service.Sync.{
  Outside, after_sides, candidates_of, local_of, search_sides, keep_staging, with_manifest,
  read_manifest, fetched, stamp, synchronize, settle_error, run_sync,
}
use minecraft_server_manager.LauncherSync.Service.Guarded.{and_then-elim}

-- `Q` holds if no error was raised.
abbrev pub Holds : (World → Type 0) → Option SyncError × World → Type 0
Holds Q (none, w) = Q w
Holds Q (some error, w) = Unit

module _ (o : Outside) (allow : Bool) (Q : World → Type 0) where
  module _ (w : World) where
    -- The state when the side of each file is known: the disk and what MSM remembers of it are as
    -- they were.
    pub record IsReached (v : World) : Type 0 where
      pub files : v.files ≡ w.files
      pub tracked : v.tracked ≡ w.tracked
      pub found : local_of o v ≡ local_of o w

    abbrev pub EachEnd : Type 0
    EachEnd =
        (m : Manifest) (v : World) (s : Search)
        → IsReached v
        → Holds Q (after_sides o allow (candidates_of o m v) (local_of o v) v s)

    with_manifest-Holds :
        (m : Manifest) (v : World) → IsReached v → EachEnd → Holds Q (with_manifest o allow m v)
    unfolding with_manifest
    with_manifest-Holds m v r h =
        and_then-elim {B = World} (Holds Q) (search_sides o m v)
          (after_sides o allow (candidates_of o m v) (local_of o v) v) (keep_staging o v)
          (λ s. h m v s r) (λ error s. tt)

    reached : IsReached w
    reached = record { files = refl; tracked = refl; found = refl }

    read_manifest-Holds :
        (etag : Option Text) (r : Fallible Refusal Manifest)
        → EachEnd
        → Holds Q (read_manifest o allow etag r w)
    read_manifest-Holds etag (failed refusal) h = tt
    read_manifest-Holds etag (done m) h =
        with_manifest-Holds m _ (record { files = refl; tracked = refl; found = refl }) h

    fetched-Holds : (r : Fallible SyncError ManifestFetch) → EachEnd → Holds Q (fetched o allow r w)
    fetched-Holds (failed error) h = tt
    fetched-Holds (done f) h = elim (Option-cases f.data_read) [
      | inl unchanged ↦ rw unchanged (with_manifest-Holds _ w reached h)
      | inr (raw, given) ↦ rw given (read_manifest-Holds f.etag _ h)
    ]

  settle_error-Holds :
      (r : Option SyncError × World)
      → ((v : World) → v.integration.last_sync_status ≡ sync_failed → Q v)
      → Holds Q r
      → Q (settle_error o r)
  settle_error-Holds (none, w) f h = h
  settle_error-Holds (some error, w) f h = f _ refl

  -- What holds of a failure, and of each way to end once the sides are known, holds of the run.
  pub run_sync-elim :
      (now : ℕ) (w : World)
      → w.integration.enabled ≡ true
      → ((v : World) → v.integration.last_sync_status ≡ sync_failed → Q v)
      → EachEnd (stamp o now w)
      → Q (run_sync o allow now w)
  unfolding run_sync synchronize
  run_sync-elim now w on f h =
      subst (λ b. Q (if b then settle_error o (synchronize o allow (stamp o now w)) else w))
        (sym on)
        (settle_error-Holds (synchronize o allow (stamp o now w)) f
          (fetched-Holds (stamp o now w) _ h))
