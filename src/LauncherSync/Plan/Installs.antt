-- ===== src/LauncherSync/Plan/Installs.antt =====
-- Which paths a plan installs (launcher_sync/plan.py, compute_plan).
use minecraft_server_manager.Prelude.{
  ◌≡◌, refl, sym, subst, inl, inr, Bool-cases, true, false, List, [], ◌∷◌, map, All, arith,
  if◌then◌else◌, Text, text_key, text_eq_iff, Dict, lookup, has_key, member, beq_refl,
}
use minecraft_server_manager.LauncherSync.Manifest.{ManifestEntry}
use minecraft_server_manager.LauncherSync.Plan.{
  LocalFile, is_current, install_of, plan_entries, is_wanted,
}
use minecraft_server_manager.LauncherSync.Plan.Safety.{installs-plan_entry}
use minecraft_server_manager.LauncherSync.Disk.Applied.{Distinct, install_path}

abbrev pub entry_path : ManifestEntry → Text
entry_path e = e.path

abbrev pub install_paths : List ManifestEntry → Dict Text LocalFile → Dict Text Text → List Text
install_paths es local tracked = map install_path (plan_entries es local tracked).installs

module _ (local : Dict Text LocalFile) (tracked : Dict Text Text) where
  -- What holds of the paths of the manifest holds of those of the installations.
  pub installs-paths :
      (P : Text → Type 0) (es : List ManifestEntry)
      → All (λ e. P e.path) es
      → All (λ i. P i.path) (plan_entries es local tracked).installs
  unfolding plan_entries
  installs-paths P [] h = tt
  installs-paths P (e ∷ es) h =
      rw
        (installs-plan_entry e (lookup e.path local) (has_key e.path tracked)
          (plan_entries es local tracked))
        (elim (Bool-cases (is_current e (lookup e.path local))) [
          | inl same ↦ rw same (installs-paths P es h.1)
          | inr other ↦ rw other (h.0, installs-paths P es h.1)
        ])

  absent-installs :
      (p : Text) (es : List ManifestEntry)
      → member p (map entry_path es) ≡ false
      → member p (install_paths es local tracked) ≡ false
  unfolding plan_entries
  absent-installs p [] h = refl
  absent-installs p (e ∷ es) h =
      let rest = absent-installs p es (ground arith) in
      rw
        (installs-plan_entry e (lookup e.path local) (has_key e.path tracked)
          (plan_entries es local tracked))
        (elim (Bool-cases (is_current e (lookup e.path local))) [
          | inl same ↦ rw same rest
          | inr other ↦ rw other (ground arith)
        ])

  pub Distinct-installs :
      (es : List ManifestEntry)
      → Distinct (map entry_path es)
      → Distinct (install_paths es local tracked)
  unfolding plan_entries
  Distinct-installs [] h = tt
  Distinct-installs (e ∷ es) h =
      rw
        (installs-plan_entry e (lookup e.path local) (has_key e.path tracked)
          (plan_entries es local tracked))
        (elim (Bool-cases (is_current e (lookup e.path local))) [
          | inl same ↦ rw same (Distinct-installs es h.1)
          | inr other ↦ rw other (absent-installs e.path es h.0, Distinct-installs es h.1)
        ])

  -- A file that is current is not installed.
  abbrev pub IsSkipped : List Text → ManifestEntry → Type 0
  IsSkipped paths e = is_current e (lookup e.path local) ≡ true → member e.path paths ≡ false

  IsSkipped-cons :
      (p : Text) (paths : List Text) (es : List ManifestEntry)
      → member p (map entry_path es) ≡ false
      → All (IsSkipped paths) es
      → All (IsSkipped (p ∷ paths)) es
  IsSkipped-cons p paths [] h k = tt
  IsSkipped-cons p paths (e ∷ es) h k = (
    λ c. ground (arith, k.0 c, text_eq_iff p e.path, text_eq_iff e.path p),
    IsSkipped-cons p paths es (ground arith) k.1,
  )

  pub current-IsSkipped :
      (es : List ManifestEntry)
      → Distinct (map entry_path es)
      → All (IsSkipped (install_paths es local tracked)) es
  unfolding plan_entries
  current-IsSkipped [] h = tt
  current-IsSkipped (e ∷ es) h =
      let rest = current-IsSkipped es h.1 in
      let installs = (plan_entries es local tracked).installs in
      let current = lookup e.path local in
      let first = install_of e current in
      subst (λ l. All (IsSkipped (map install_path l)) (e ∷ es))
        (sym
          (installs-plan_entry e current (has_key e.path tracked) (plan_entries es local tracked)))
        (elim (Bool-cases (is_current e current)) [
          | inl same ↦
              subst
                (λ b.
                  All (IsSkipped (map install_path (if b then installs else first ∷ installs)))
                    (e ∷ es))
                (sym same) (λ c. absent-installs e.path es h.0, rest)
          | inr other ↦
              subst
                (λ b.
                  All (IsSkipped (map install_path (if b then installs else first ∷ installs)))
                    (e ∷ es))
                (sym other)
                (
                  λ c. let bad = rw other at c in cc,
                  IsSkipped-cons e.path (map install_path installs) es h.0 rest,
                )
        ])

wanted_later :
    (e : ManifestEntry) (all_entries es : List ManifestEntry)
    → All (λ x. is_wanted all_entries x.path ≡ true) es
    → All (λ x. is_wanted (e ∷ all_entries) x.path ≡ true) es
wanted_later e all_entries [] h = tt
wanted_later e all_entries (x ∷ es) h = (ground arith, wanted_later e all_entries es h.1)

pub all_wanted : (es : List ManifestEntry) → All (λ x. is_wanted es x.path ≡ true) es
all_wanted [] = tt
all_wanted (e ∷ es) = (rw (beq_refl e.path) refl, wanted_later e es es (all_wanted es))
