-- ===== src/LauncherSync/Converged.antt =====
-- The plan and the disk together: a synchronisation that is applied leaves nothing to install
-- (launcher_sync/plan.py, launcher_sync/disk.py).
use minecraft_server_manager.Prelude.{
  ◌≡◌, refl, sym, ap, subst, ◌∙◌, inl, inr, Bool, true, false, Option, none, List, [], ◌∷◌, map,
  All, arith, Text, text_key, text_eq_iff, Dict, lookup, has_key, member,
}
use minecraft_server_manager.Prelude.Fallible.{Fallible}
use minecraft_server_manager.LauncherSync.Manifest.{ManifestEntry}
use minecraft_server_manager.LauncherSync.Plan.{
  LocalFile, Install, is_current, install_of, plan_entries, is_wanted, compute_plan,
}
use minecraft_server_manager.LauncherSync.Plan.Safety.{
  Listed, Planned, installs-plan_entry, removes_iff, compute_plan-Planned,
}
use minecraft_server_manager.LauncherSync.Disk.{Bytes, Files, DiskError, FileCall, apply_plan}
use minecraft_server_manager.LauncherSync.Disk.Names.{IsOrdinary}
use minecraft_server_manager.LauncherSync.Disk.Slots.{slot, slot_of}
use minecraft_server_manager.LauncherSync.Disk.Inventory.{version, Agrees}
use minecraft_server_manager.LauncherSync.Disk.Applied.{
  Distinct, install_path, IsReady, IsRemovable, IsStored, IsApplied, apply_plan-IsApplied,
}
use minecraft_server_manager.LauncherSync.Plan.Installs.{
  entry_path, IsSkipped, installs-paths, Distinct-installs, current-IsSkipped, all_wanted,
}

Listed-All : (Q : Install → Type 0) (i : Install) (is : List Install) → Listed i is → All Q is → Q i
Listed-All Q i [] l h = absurd l
Listed-All Q i (j ∷ js) (inl e) h = subst Q e h.0
Listed-All Q i (j ∷ js) (inr l) h = Listed-All Q i js l h.1

nothing_installed :
    (es : List ManifestEntry) (local : Dict Text LocalFile) (tracked : Dict Text Text)
    → All (λ e. is_current e (lookup e.path local) ≡ true) es
    → (plan_entries es local tracked).installs ≡ []
unfolding plan_entries
nothing_installed [] local tracked h = refl
nothing_installed (e ∷ es) local tracked h =
    installs-plan_entry e (lookup e.path local) (has_key e.path tracked)
      (plan_entries es local tracked)
    ∙ rw h.0 (nothing_installed es local tracked h.1)

module _ (sha256_of : Bytes → Text) where
  stored-current :
      (e : ManifestEntry) (disabled : Bool) (c : Bytes)
      → sha256_of c ≡ e.sha256
      → is_current e (version sha256_of e.path (slot_of disabled c)) ≡ true
  stored-current e true c h = (text_eq_iff (sha256_of c) e.sha256).1 h
  stored-current e false c h = (text_eq_iff (sha256_of c) e.sha256).1 h

  module _ (resolve : Text → Fallible DiskError Text) (staging files : Files) where
    module _ (entries : List ManifestEntry) (local : Dict Text LocalFile)
        (tracked : Dict Text Text) where
      -- The file of an entry is up to date on the disk.
      abbrev pub IsCurrentOn : Files → ManifestEntry → Type 0
      IsCurrentOn after e = is_current e (version sha256_of e.path (slot e.path after)) ≡ true

      entry-IsCurrentOn :
          (after : Files) (e : ManifestEntry)
          → Agrees sha256_of local files
          → IsApplied sha256_of resolve staging (compute_plan entries local tracked) files after
          → IsOrdinary e.path
          → member e.path (compute_plan entries local tracked).removes ≡ false
          → IsSkipped local tracked
              (map install_path (compute_plan entries local tracked).installs)
              e
          → Planned local (compute_plan entries local tracked).installs e
          → IsCurrentOn after e
      entry-IsCurrentOn after e agrees applied plain kept skipped (inl current) =
          ap (λ s. is_current e (version sha256_of e.path s))
            (applied.kept e.path plain (skipped current) kept)
          ∙ ap (is_current e) (sym (agrees e.path plain.0))
          ∙ current
      entry-IsCurrentOn after e agrees applied plain kept skipped (inr listed) =
          let (c, held, checked) =
            Listed-All (IsStored sha256_of resolve staging after)
              (install_of e (lookup e.path local)) _ listed applied.stored in
          ap (λ s. is_current e (version sha256_of e.path s)) held ∙ stored-current e _ c checked

      pub all-IsCurrentOn :
          (after : Files) (es : List ManifestEntry)
          → Agrees sha256_of local files
          → IsApplied sha256_of resolve staging (compute_plan entries local tracked) files after
          → All (λ e. IsOrdinary e.path) es
          → All (λ e. is_wanted entries e.path ≡ true) es
          → All
              (IsSkipped local tracked
                (map install_path (compute_plan entries local tracked).installs))
              es
          → All (Planned local (compute_plan entries local tracked).installs) es
          → All (IsCurrentOn after) es
      all-IsCurrentOn after [] agrees applied plain wanted skipped planned = tt
      all-IsCurrentOn after (e ∷ es) agrees applied plain wanted skipped planned = (
        entry-IsCurrentOn after e agrees applied plain.0
            (removes_iff entries local tracked e.path ∙ rw wanted.0 (ground arith)) skipped.0
            planned.0,
        all-IsCurrentOn after es agrees applied plain.1 wanted.1 skipped.1 planned.1,
      )

      pub wanted-kept :
          (es : List ManifestEntry)
          → All (λ e. is_wanted entries e.path ≡ true) es
          → All (λ e. member e.path (compute_plan entries local tracked).removes ≡ false) es
      wanted-kept [] h = tt
      wanted-kept (e ∷ es) h =
          (removes_iff entries local tracked e.path ∙ rw h.0 (ground arith), wanted-kept es h.1)

      all-AreCurrent :
          (after : Files) (next : Dict Text LocalFile) (es : List ManifestEntry)
          → Agrees sha256_of next after
          → All (λ e. IsOrdinary e.path) es
          → All (IsCurrentOn after) es
          → All (λ e. is_current e (lookup e.path next) ≡ true) es
      all-AreCurrent after next [] agrees plain h = tt
      all-AreCurrent after next (e ∷ es) agrees plain h = (
        ap (is_current e) (agrees e.path plain.0.0) ∙ h.0,
        all-AreCurrent after next es agrees plain.1 h.1,
      )

      -- A manifest of different paths, none of them a disabled name or the name of a temporary copy
      -- (`.msm-tmp`), is reached in one synchronisation: when what the plan installs is downloaded
      -- and checked, no link diverts a name, what is removed has such a path too, and the file system
      -- refuses no call, the plan is applied without an error, and a plan that is computed from an
      -- inventory of the disk that this leaves, whatever MSM then remembers to have installed, has
      -- nothing to install.
      pub compute_plan-apply_plan :
          (refuses : FileCall → Files → Option Files) (next : Dict Text LocalFile)
          (known : Dict Text Text)
          → ((call : FileCall) (files : Files) → refuses call files ≡ none)
          → Distinct (map entry_path entries)
          → All (λ e. IsOrdinary e.path) entries
          → Agrees sha256_of local files
          → All (IsReady sha256_of resolve staging) (compute_plan entries local tracked).installs
          → All (IsRemovable sha256_of resolve staging) (compute_plan entries local tracked).removes
          → Agrees sha256_of next
              (apply_plan resolve refuses staging (compute_plan entries local tracked) files).1
          → ((apply_plan resolve refuses staging (compute_plan entries local tracked) files).0
              ≡ none)
            × ((compute_plan entries next known).installs ≡ [])
      unfolding compute_plan
      compute_plan-apply_plan refuses next known obeys distinct plain agrees ready removable found =
          let wanted = all_wanted entries in
          let plan = compute_plan entries local tracked in
          let (after, ran, applied) =
            apply_plan-IsApplied sha256_of resolve staging refuses obeys plan files ready
              (Distinct-installs local tracked entries distinct) removable
              (installs-paths local tracked (λ p. member p plan.removes ≡ false) entries
                (wanted-kept entries wanted)) in
          let current =
            all-IsCurrentOn after entries agrees applied plain wanted
              (current-IsSkipped local tracked entries distinct)
              (compute_plan-Planned entries local tracked) in
          (
            ap (λ r. r.0) ran,
            nothing_installed entries next known (
                all-AreCurrent after next entries (subst (λ r. Agrees sha256_of next r.1) ran found)
                  plain current),
          )
