-- ===== src/LauncherSync/Service/Served.antt =====
-- What a synchronisation that succeeded leaves on the disk (services/launcher_service.py with
-- launcher_sync/plan.py, disk.py and remote.py).
use minecraft_server_manager.Prelude.{
  ℕ, ◌≡◌, refl, sym, ap, subst, ◌∙◌, inl, inr, Bool-cases, Bool, true, false, ◌&&◌, not, Option,
  none, some, List, [], ◌∷◌, map, keep, length, All, arith, Text, text_key, Dict, member,
}
use minecraft_server_manager.Prelude.Fallible.{done}
use minecraft_server_manager.LauncherSync.Manifest.{ManifestEntry}
use minecraft_server_manager.LauncherSync.Plan.{
  LocalFile, Install, Plan, plan_entries, compute_plan, is_mass_deletion,
}
use minecraft_server_manager.LauncherSync.Plan.Safety.{compute_plan-Planned}
use minecraft_server_manager.LauncherSync.Disk.{
  Files, DiskError, FileCall, disabled_name, apply_plan,
}
use minecraft_server_manager.LauncherSync.Disk.Obeyed.{obedient, apply_plan-obedient}
use minecraft_server_manager.LauncherSync.Disk.Names.{IsOrdinary}
use minecraft_server_manager.LauncherSync.Disk.Inventory.{Agrees}
use minecraft_server_manager.LauncherSync.Disk.Applied.{
  Distinct, IsReady, IsRemovable, IsApplied, apply_plan-IsApplied,
}
use minecraft_server_manager.LauncherSync.Plan.Installs.{
  entry_path, installs-paths, Distinct-installs, current-IsSkipped, all_wanted,
}
use minecraft_server_manager.LauncherSync.Converged.{all-IsCurrentOn, wanted-kept}
use minecraft_server_manager.LauncherSync.Download.{DownloadError, download_all}
use minecraft_server_manager.LauncherSync.Download.Prepared.{IsPrepared, download_all-ArePrepared}
use minecraft_server_manager.LauncherSync.State.{sync_failed, Row, World}
use minecraft_server_manager.LauncherSync.Service.{Sides, client_side, row_of}
use minecraft_server_manager.LauncherSync.Service.PlayersOnly.{plan_for}
use minecraft_server_manager.LauncherSync.Service.Sync.{
  Outside, is_empty_plan, nothing_left, after_apply, conclude, after_downloads, follow_plan,
  after_sides, candidates_of, local_of, run_sync,
}
use minecraft_server_manager.LauncherSync.Service.Guarded.{if-elim}
use minecraft_server_manager.LauncherSync.Service.Rows.{
  row_path, is_success, AreServed, mark-AreServed, rows-AreServed, Distinct-keep, paths-keep,
  paths-rows, paths-mark_applied, removes-All, empty-All,
}
use minecraft_server_manager.LauncherSync.Service.Ends.{Holds, run_sync-elim}

-- The path is neither the disabled name of another nor the name of a temporary copy, and no link
-- diverts its two names.
abbrev pub IsUsable : Outside → Text → Type 0
IsUsable o path =
    IsOrdinary path
    × (o.resolve path ≡ done path)
    × (o.resolve (disabled_name path) ≡ done (disabled_name path))

-- The paths that MSM remembers to have installed are usable.
abbrev pub AreUsableKeys : Outside → Dict Text Text → Type 0
AreUsableKeys o tracked = All (λ kept. IsUsable o kept.0) tracked

-- What a success promises, where the paths of the manifest are different and usable.
abbrev pub IsSettled : Outside → World → Type 0
IsSettled o v =
    is_success v.integration.last_sync_status ≡ true
    → Distinct (map row_path v.integration.manifest_entries)
    → All (IsUsable o) (map row_path v.integration.manifest_entries)
    → AreServed o.sha256_of v.files v.integration.manifest_entries

module _ (o : Outside) (staging : Files) where
  prepared-IsReady :
      (i : Install)
      → IsUsable o i.path
      → IsPrepared o.sha256_of o.answer staging i.sha256
      → IsReady o.sha256_of o.resolve staging i
  prepared-IsReady i u h = record {
    plain = u.0;
    target = if-elim (λ n. o.resolve n ≡ done n) i.disabled (disabled_name i.path) i.path u.2 u.1;
    other = if-elim (λ n. o.resolve n ≡ done n) i.disabled i.path (disabled_name i.path) u.1 u.2;
    content = h.0;
    staged = h.1;
    checked = h.2;
  }

  all-AreReady :
      (is : List Install)
      → All (λ i. IsUsable o i.path) is
      → All (λ i. IsPrepared o.sha256_of o.answer staging i.sha256) is
      → All (IsReady o.sha256_of o.resolve staging) is
  all-AreReady [] p h = tt
  all-AreReady (i ∷ is) p h = (prepared-IsReady i p.0 h.0, all-AreReady is p.1 h.1)

  all-AreRemovable :
      (paths : List Text)
      → All (IsUsable o) paths
      → All (IsRemovable o.sha256_of o.resolve staging) paths
  all-AreRemovable [] p = tt
  all-AreRemovable (path ∷ paths) p =
      (record { plain = p.0.0; active = p.0.1; disabled = p.0.2 }, all-AreRemovable paths p.1)

  usable-plain :
      (es : List ManifestEntry) → All (λ e. IsUsable o e.path) es → All (λ e. IsOrdinary e.path) es
  usable-plain [] h = tt
  usable-plain (e ∷ es) h = (h.0.0, usable-plain es h.1)

  module _ (local : Dict Text LocalFile) (tracked : Dict Text Text) (sides : Sides)
      (cs : List ManifestEntry) (files : Files) (agrees : Agrees o.sha256_of local files) where
    abbrev plan : Plan
    plan = plan_for local tracked sides cs

    abbrev rows : List Row
    rows = map (row_of local sides) cs

    abbrev for_server : List ManifestEntry
    for_server = keep (λ e. not (client_side sides e)) cs

    pub applied-AreServed :
        (after : Files)
        → Distinct (map entry_path cs)
        → All (IsUsable o) (map entry_path cs)
        → IsApplied o.sha256_of o.resolve staging plan files after
        → AreServed o.sha256_of after rows
    unfolding compute_plan plan_entries
    applied-AreServed after distinct plain done_so =
        rows-AreServed o.sha256_of after local sides cs (
          all-IsCurrentOn o.sha256_of o.resolve staging files for_server local tracked after
            for_server agrees done_so (usable-plain for_server (paths-keep (IsUsable o) _ cs plain))
            (all_wanted for_server)
            (current-IsSkipped local tracked for_server (Distinct-keep _ cs distinct))
            (compute_plan-Planned for_server local tracked))

    pub plan-IsApplied :
        (refuses : FileCall → Files → Option Files)
        → ((call : FileCall) (disk : Files) → refuses call disk ≡ none)
        → AreUsableKeys o tracked
        → Distinct (map entry_path cs)
        → All (IsUsable o) (map entry_path cs)
        → All (λ i. IsPrepared o.sha256_of o.answer staging i.sha256) plan.installs
        → (after : Files) × (apply_plan o.resolve refuses staging plan files ≡ (none, after))
          × IsApplied o.sha256_of o.resolve staging plan files after
    unfolding compute_plan
    plan-IsApplied refuses obeys keys distinct plain prepared =
        apply_plan-IsApplied o.sha256_of o.resolve staging refuses obeys plan files
          (all-AreReady plan.installs
            (installs-paths local tracked (IsUsable o) for_server
              (paths-keep (IsUsable o) _ cs plain))
            prepared)
          (Distinct-installs local tracked for_server (Distinct-keep _ cs distinct))
          (all-AreRemovable plan.removes (removes-All (IsUsable o) for_server local tracked keys))
          (installs-paths local tracked (λ p. member p plan.removes ≡ false) for_server
            (wanted-kept o.sha256_of o.resolve staging files for_server local tracked for_server
              (all_wanted for_server)))

    nothing_to_do :
        is_empty_plan plan ≡ true → IsApplied o.sha256_of o.resolve staging plan files files
    nothing_to_do h = record {
      stored = empty-All _ plan.installs (ground arith);
      gone = empty-All _ plan.removes (ground arith);
      kept = λ q p a b. refl;
    }

    same_paths :
        (w : World)
        → w.integration.manifest_entries ≡ rows
        → map row_path w.integration.manifest_entries ≡ map entry_path cs
    same_paths w shown = ap (map row_path) shown ∙ paths-rows local sides cs

    after_apply-IsSettled :
        (w : World) (r : Option DiskError × Files)
        → w.integration.manifest_entries ≡ rows
        → AreUsableKeys o tracked
        → All (λ i. IsPrepared o.sha256_of o.answer staging i.sha256) plan.installs
        → r ≡ apply_plan o.resolve o.refuses staging plan files
        → Holds (IsSettled o) (after_apply o plan r w)
    unfolding after_apply
    after_apply-IsSettled w (some error, after) shown keys prepared ran = tt
    after_apply-IsSettled w (none, after) shown keys prepared ran = λ settled distinct plain.
        let marked = paths-mark_applied plan w.integration.manifest_entries in
        let apart = subst Distinct (marked ∙ same_paths w shown) distinct in
        let names = subst (All (IsUsable o)) (marked ∙ same_paths w shown) plain in
        let (left, ended, done_so) =
          plan-IsApplied obedient (λ call disk. refl) keys apart names prepared in
        let quiet = apply_plan-obedient o.resolve o.refuses staging plan files after (sym ran) in
        let same : left ≡ after = ap (λ x. x.1) (sym ended ∙ quiet) in
        mark-AreServed o.sha256_of after plan w.integration.manifest_entries (
          subst (AreServed o.sha256_of after) (sym shown) (
            subst (λ f. AreServed o.sha256_of f rows) same
              (applied-AreServed left apart names done_so)))

    empty-IsSettled :
        (v : World)
        → v.files ≡ files
        → v.integration.manifest_entries ≡ rows
        → is_empty_plan plan ≡ true
        → IsSettled o v
    empty-IsSettled v kept shown nothing settled distinct plain =
        subst (λ f. AreServed o.sha256_of f v.integration.manifest_entries) (sym kept)
          (subst (AreServed o.sha256_of files) (sym shown) (
            applied-AreServed files (subst Distinct (same_paths v shown) distinct)
              (subst (All (IsUsable o)) (same_paths v shown) plain) (nothing_to_do nothing)))

    conclude-IsSettled :
        (w : World)
        → o.running ≡ false
        → w.files ≡ files
        → w.staging ≡ staging
        → w.integration.manifest_entries ≡ rows
        → AreUsableKeys o tracked
        → All (λ i. IsPrepared o.sha256_of o.answer staging i.sha256) plan.installs
        → Holds (IsSettled o) (conclude o plan w)
    unfolding conclude
    conclude-IsSettled w idle kept made shown keys prepared =
        elim (Bool-cases (is_empty_plan plan)) [
          | inl nothing ↦ rw nothing (empty-IsSettled (nothing_left o w) kept shown nothing)
          | inr something ↦
              rw (something, idle)
                (after_apply-IsSettled w (apply_plan o.resolve o.refuses w.staging plan w.files)
                  shown keys prepared (rw (kept, made) refl))
        ]

module _ (o : Outside) (idle : o.running ≡ false) where
  after_downloads-IsSettled :
      (local : Dict Text LocalFile) (tracked : Dict Text Text) (sides : Sides)
      (cs : List ManifestEntry) (hidden : ℕ) (r : Option DownloadError × Files) (w : World)
      → Agrees o.sha256_of local w.files
      → AreUsableKeys o tracked
      → w.integration.manifest_entries ≡ map (row_of local sides) cs
      → (r.0 ≡ none
          → All
              (λ i. IsPrepared o.sha256_of o.answer r.1 i.sha256)
              (plan_for local tracked sides cs).installs)
      → Holds (IsSettled o) (after_downloads o (plan_for local tracked sides cs) hidden r w)
  unfolding after_downloads
  after_downloads-IsSettled local tracked sides cs hidden (some error, staging) w agrees keys shown
        prepared =
      tt
  after_downloads-IsSettled local tracked sides cs hidden (none, staging) w agrees keys shown
        prepared =
      conclude-IsSettled o staging local tracked sides cs w.files agrees _ idle refl refl shown keys
        (prepared refl)

  follow_plan-IsSettled :
      (allow : Bool) (local : Dict Text LocalFile) (sides : Sides) (cs : List ManifestEntry)
      (hidden : ℕ) (w : World)
      → Agrees o.sha256_of local w.files
      → AreUsableKeys o w.tracked
      → w.integration.manifest_entries ≡ map (row_of local sides) cs
      → Holds (IsSettled o) (follow_plan o allow (plan_for local w.tracked sides cs) hidden w)
  unfolding follow_plan
  follow_plan-IsSettled allow local sides cs hidden w agrees keys shown =
      let plan = plan_for local w.tracked sides cs in
      elim (Bool-cases (is_mass_deletion plan (length w.tracked) && not allow)) [
        | inl mass ↦ rw mass (λ settled. cc)
        | inr few ↦ rw few (
            after_downloads-IsSettled local w.tracked sides cs hidden
              (download_all o.sha256_of o.answer plan.installs w.staging) _ agrees keys shown
              (download_all-ArePrepared o.sha256_of o.answer plan.installs w.staging))
      ]

  failed-IsSettled : (v : World) → v.integration.last_sync_status ≡ sync_failed → IsSettled o v
  failed-IsSettled v failed_so settled = let bad = rw failed_so at settled in cc

  -- A synchronisation of a stopped server that ends as applied or as up to date has done what it is
  -- for: each file that the interface then shows, except those for the players only, is on the
  -- server's disk with the fingerprint of the manifest. It is assumed that no link diverts a name of
  -- the folder, that the inventory is that of the disk, and that the paths shown are different and
  -- none of them, nor of those that MSM remembers to have installed, is a disabled name or the name
  -- of a temporary copy (`.msm-tmp`). Nothing is assumed of what the file system refuses.
  pub run_sync-AreServed :
      (allow : Bool) (now : ℕ) (w : World)
      → w.integration.enabled ≡ true
      → Agrees o.sha256_of (local_of o w) w.files
      → AreUsableKeys o w.tracked
      → is_success (run_sync o allow now w).integration.last_sync_status ≡ true
      → Distinct (map row_path (run_sync o allow now w).integration.manifest_entries)
      → All (IsUsable o) (map row_path (run_sync o allow now w).integration.manifest_entries)
      → AreServed o.sha256_of
          (run_sync o allow now w).files
          (run_sync o allow now w).integration.manifest_entries
  unfolding after_sides
  run_sync-AreServed allow now w on agrees keys =
      run_sync-elim o allow (IsSettled o) now w on failed-IsSettled λ m v s r.
        follow_plan-IsSettled allow (local_of o v) s.sides (candidates_of o m v) _ _
          (subst (λ l. Agrees o.sha256_of l v.files) (sym r.found)
            (subst (Agrees o.sha256_of (local_of o w)) (sym r.files) agrees))
          (subst (AreUsableKeys o) (sym r.tracked) keys) refl
