-- ===== src/LauncherSync/Service/Pending.antt =====
-- backend/msm/services/launcher_service.py, apply_pending and _record_applied: what was prepared while
-- the server ran is applied before it starts.
use minecraft_server_manager.Prelude.{
  ℕ, ◌≡◌, refl, sym, ap, subst, ◌∙◌, inl, inr, Bool-cases, Bool, true, false, ◌&&◌, not, Option,
  none, some, List, [], ◌∷◌, map, any, length, All, if◌then◌else◌, is_some, Text, text_key, Dict,
  lookup,
}
use minecraft_server_manager.LauncherSync.Manifest.{ManifestEntry}
use minecraft_server_manager.LauncherSync.Plan.{LocalFile, Install, Plan, is_mass_deletion}
use minecraft_server_manager.LauncherSync.Disk.{Files, DiskError, FileCall, apply_plan}
use minecraft_server_manager.LauncherSync.Disk.Inventory.{Agrees}
use minecraft_server_manager.LauncherSync.Disk.Applied.{Distinct}
use minecraft_server_manager.LauncherSync.Download.{DownloadError, download_all}
use minecraft_server_manager.LauncherSync.Download.Prepared.{IsPrepared, download_all-ArePrepared}
use minecraft_server_manager.LauncherSync.State.{SyncError, pending_restart, sync_failed, World}
use minecraft_server_manager.LauncherSync.Service.{Sides, row_of, mark_applied, stored_plan}
use minecraft_server_manager.LauncherSync.Service.PlayersOnly.{plan_for}
use minecraft_server_manager.LauncherSync.Service.Rows.{
  row_path, AreServed, mark-AreServed, paths-rows,
}
use minecraft_server_manager.LauncherSync.Service.Sync.{
  Outside, is_empty_plan, wait_for_restart, after_apply, conclude, after_downloads, follow_plan,
  after_sides, candidates_of, local_of, run_sync,
}
use minecraft_server_manager.LauncherSync.Service.Ends.{Holds, run_sync-elim}
use minecraft_server_manager.LauncherSync.Service.Served.{
  IsUsable, AreUsableKeys, applied-AreServed, plan-IsApplied,
}

abbrev is_missing : Files → Install → Bool
is_missing staging i = not (is_some (lookup i.sha256 staging))

-- `apply_pending`: a plan with a file that is not prepared any more is given up, and the next
-- synchronisation is due at once.
module _ (o : Outside) where
  abbrev apply_some : Option Plan → ℕ → World → Option SyncError × World
  apply_some none now w = (none, w)
  apply_some (some plan) now w =
      if any (is_missing w.staging) plan.installs
      then (
        none,
        record w { integration = record w.integration { pending_plan = none; next_sync_at = now } },
      )
      else after_apply o plan (apply_plan o.resolve o.refuses w.staging plan w.files) w

  unfoldable pub apply_pending : ℕ → World → Option SyncError × World
  apply_pending now w = apply_some w.integration.pending_plan now w

nothing_missing :
    (o : Outside) (staging : Files) (is : List Install)
    → All (λ i. IsPrepared o.sha256_of o.answer staging i.sha256) is
    → any (is_missing staging) is ≡ false
nothing_missing o staging [] h = refl
nothing_missing o staging (i ∷ is) h = rw (h.0.1, nothing_missing o staging is h.1) refl

-- An end without an error, with each file of the interface served.
abbrev pub IsDelivered : Outside → Option SyncError × World → Type 0
IsDelivered o r = (r.0 ≡ none) × AreServed o.sha256_of r.1.files r.1.integration.manifest_entries

module _ (o : Outside) (later : ℕ)
    (obeys : (call : FileCall) (disk : Files) → o.refuses call disk ≡ none) where
  -- The plan that waits can be applied.
  abbrev IsPromised : World → Type 0
  IsPromised v =
      v.integration.last_sync_status ≡ pending_restart
      → Distinct (map row_path v.integration.manifest_entries)
      → All (IsUsable o) (map row_path v.integration.manifest_entries)
      → IsDelivered o (apply_pending o later v)

  delivered :
      (local : Dict Text LocalFile) (tracked : Dict Text Text) (sides : Sides)
      (cs : List ManifestEntry) (w : World)
      → Agrees o.sha256_of local w.files
      → AreUsableKeys o tracked
      → w.integration.manifest_entries ≡ map (row_of local sides) cs
      → All
          (λ i. IsPrepared o.sha256_of o.answer w.staging i.sha256)
          (plan_for local tracked sides cs).installs
      → w.integration.pending_plan ≡ some (stored_plan (plan_for local tracked sides cs))
      → Distinct (map row_path w.integration.manifest_entries)
      → All (IsUsable o) (map row_path w.integration.manifest_entries)
      → IsDelivered o (apply_pending o later w)
  unfolding apply_pending after_apply stored_plan mark_applied apply_plan
  delivered local tracked sides cs w agrees keys shown prepared waits distinct usable =
      let plan = plan_for local tracked sides cs in
      let same = ap (map row_path) shown ∙ paths-rows local sides cs in
      let apart = subst Distinct same distinct in
      let names = subst (All (IsUsable o)) same usable in
      let (after, ran, done_so) =
        plan-IsApplied o w.staging local tracked sides cs w.files agrees o.refuses obeys keys apart
          names prepared in
      rw (waits, nothing_missing o w.staging plan.installs prepared, ran)
        (
          refl,
          mark-AreServed o.sha256_of after (stored_plan plan) w.integration.manifest_entries (
              subst (AreServed o.sha256_of after) (sym shown) (
                applied-AreServed o w.staging local tracked sides cs w.files agrees after apart
                  names done_so)),
        )

  module _ (local : Dict Text LocalFile) (tracked : Dict Text Text) (sides : Sides)
      (cs : List ManifestEntry) (keys : AreUsableKeys o tracked) where
    abbrev plan : Plan
    plan = plan_for local tracked sides cs

    after_apply-IsPromised :
        (r : Option DiskError × Files) (w : World) → Holds IsPromised (after_apply o plan r w)
    unfolding after_apply
    after_apply-IsPromised (some error, files) w = tt
    after_apply-IsPromised (none, files) w = λ e. cc

    conclude-IsPromised :
        (w : World)
        → Agrees o.sha256_of local w.files
        → w.integration.manifest_entries ≡ map (row_of local sides) cs
        → All (λ i. IsPrepared o.sha256_of o.answer w.staging i.sha256) plan.installs
        → Holds IsPromised (conclude o plan w)
    unfolding conclude apply_pending
    conclude-IsPromised w agrees shown prepared = elim (Bool-cases (is_empty_plan plan)) [
      | inl nothing ↦ rw nothing (λ e. cc)
      | inr something ↦ rw something (elim (Bool-cases o.running) [
        | inl on ↦ rw on λ e distinct usable.
            delivered local tracked sides cs (wait_for_restart o plan w) agrees keys shown prepared
              refl distinct usable
        | inr off ↦ rw off (after_apply-IsPromised _ w)
      ])
    ]

    after_downloads-IsPromised :
        (hidden : ℕ) (r : Option DownloadError × Files) (w : World)
        → Agrees o.sha256_of local w.files
        → w.integration.manifest_entries ≡ map (row_of local sides) cs
        → (r.0 ≡ none → All (λ i. IsPrepared o.sha256_of o.answer r.1 i.sha256) plan.installs)
        → Holds IsPromised (after_downloads o plan hidden r w)
    unfolding after_downloads
    after_downloads-IsPromised hidden (some error, staging) w agrees shown prepared = tt
    after_downloads-IsPromised hidden (none, staging) w agrees shown prepared =
        conclude-IsPromised _ agrees shown (prepared refl)

  follow_plan-IsPromised :
      (allow : Bool) (local : Dict Text LocalFile) (sides : Sides) (cs : List ManifestEntry)
      (hidden : ℕ) (w : World)
      → Agrees o.sha256_of local w.files
      → AreUsableKeys o w.tracked
      → w.integration.manifest_entries ≡ map (row_of local sides) cs
      → Holds IsPromised (follow_plan o allow (plan_for local w.tracked sides cs) hidden w)
  unfolding follow_plan
  follow_plan-IsPromised allow local sides cs hidden w agrees keys shown =
      let plan = plan_for local w.tracked sides cs in
      elim (Bool-cases (is_mass_deletion plan (length w.tracked) && not allow)) [
        | inl mass ↦ rw mass (λ e. cc)
        | inr few ↦ rw few (
            after_downloads-IsPromised local w.tracked sides cs keys hidden
              (download_all o.sha256_of o.answer plan.installs w.staging) _ agrees shown
              (download_all-ArePrepared o.sha256_of o.answer plan.installs w.staging))
      ]

  failed-IsPromised : (v : World) → v.integration.last_sync_status ≡ sync_failed → IsPromised v
  failed-IsPromised v failed_so waits = let bad = rw failed_so at waits in cc

  -- What a synchronisation has left for the next start is applied by it without an error, and then
  -- each file that the interface shows, except those for the players only, is on the disk with the
  -- fingerprint of the manifest. It is assumed that the inventory is that of the disk, that the paths
  -- shown are different, and that none of them, nor of those that MSM remembers to have installed,
  -- is a disabled name or the name of a temporary copy (`.msm-tmp`), or is diverted by a link, and that
  -- the file system refuses no call.
  pub apply_pending-run_sync :
      (allow : Bool) (now : ℕ) (w : World)
      → w.integration.enabled ≡ true
      → Agrees o.sha256_of (local_of o w) w.files
      → AreUsableKeys o w.tracked
      → (run_sync o allow now w).integration.last_sync_status ≡ pending_restart
      → Distinct (map row_path (run_sync o allow now w).integration.manifest_entries)
      → All (IsUsable o) (map row_path (run_sync o allow now w).integration.manifest_entries)
      → IsDelivered o (apply_pending o later (run_sync o allow now w))
  unfolding after_sides
  apply_pending-run_sync allow now w on agrees keys =
      run_sync-elim o allow IsPromised now w on failed-IsPromised λ m v s r.
        follow_plan-IsPromised allow (local_of o v) s.sides (candidates_of o m v) _ _
          (subst (λ l. Agrees o.sha256_of l v.files) (sym r.found)
            (subst (Agrees o.sha256_of (local_of o w)) (sym r.files) agrees))
          (subst (AreUsableKeys o) (sym r.tracked) keys) refl
