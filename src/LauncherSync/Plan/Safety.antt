-- ===== src/LauncherSync/Plan/Safety.antt =====
-- A synchronisation removes only what MSM installed, and leaves the server with the manifest's files.
use minecraft_server_manager.Prelude.{
  ◌+◌, ◌≡◌, ◌⊎◌, refl, ap, ◌∙◌, inl, inr, Bool-cases, Bool, true, ◌&&◌, ◌||◌, not, Option, List, [],
  ◌∷◌, length, All, arith, if◌then◌else◌, Text, text_key, text_eq, text_eq_iff, Dict, lookup,
  has_key, member,
}
use minecraft_server_manager.LauncherSync.Manifest.{ManifestEntry}
use minecraft_server_manager.LauncherSync.Plan.{
  LocalFile, Install, Plan, is_current, install_of, plan_entry, plan_entries, insert_sorted,
  sorted_texts, is_wanted, unwanted, compute_plan,
}

member-insert_sorted :
    (path t : Text) (ts : List Text)
    → member path (insert_sorted t ts) ≡ (text_eq path t || member path ts)
member-insert_sorted path t [] = refl
member-insert_sorted path t (u ∷ us) = ground (arith, member-insert_sorted path t us)

member-sorted_texts :
    (path : Text) (ts : List Text) → member path (sorted_texts ts) ≡ member path ts
unfolding sorted_texts
member-sorted_texts path [] = refl
member-sorted_texts path (t ∷ ts) =
    member-insert_sorted path t (sorted_texts ts) ∙ rw (member-sorted_texts path ts) refl

same_wanted :
    (entries : List ManifestEntry) (path t : Text)
    → text_eq path t ≡ true
    → is_wanted entries path ≡ is_wanted entries t
same_wanted entries path t h = ap (is_wanted entries) ((text_eq_iff path t).0 h)

member-unwanted :
    (entries : List ManifestEntry) (path : Text) (tracked : Dict Text Text)
    → member path (unwanted entries tracked)
      ≡ (has_key path tracked && not (is_wanted entries path))
member-unwanted entries path [] = refl
member-unwanted entries path ((t, sha256) ∷ rest) =
    ground (arith, member-unwanted entries path rest, same_wanted entries path t)

-- The removals are the tracked paths that are not wanted any more.
pub removes_iff :
    (entries : List ManifestEntry) (local : Dict Text LocalFile) (tracked : Dict Text Text)
    (path : Text)
    → member path (compute_plan entries local tracked).removes
      ≡ (has_key path tracked && not (is_wanted entries path))
unfolding compute_plan
removes_iff entries local tracked path =
    member-sorted_texts path (unwanted entries tracked) ∙ member-unwanted entries path tracked

abbrev pub Listed : Install → List Install → Type 0
Listed i [] = ⊥
Listed i (j ∷ js) = (j ≡ i) ⊎ Listed i js

-- The file on the disk is the manifest's, or it is to be installed, disabled or not as it is on the
-- disk (as in the manifest, if it is not there).
abbrev pub Planned : Dict Text LocalFile → List Install → ManifestEntry → Type 0
Planned local installs e =
    (is_current e (lookup e.path local) ≡ true)
    ⊎ Listed (install_of e (lookup e.path local)) installs

pub installs-plan_entry :
    (e : ManifestEntry) (current : Option LocalFile) (tracked : Bool) (rest : Plan)
    → ((plan_entry e current tracked rest).installs
        ≡ (if is_current e current then rest.installs else install_of e current ∷ rest.installs))
unfolding plan_entry
installs-plan_entry e current tracked rest = elim (Bool-cases (is_current e current)) [
  | inl same ↦ elim (Bool-cases tracked) [
    | inl known ↦ rw (same, known) refl
    | inr new ↦ rw (same, new) refl
  ]
  | inr other ↦ rw other refl
]

Listed-later :
    (i : Install) (e : ManifestEntry) (current : Option LocalFile) (tracked : Bool) (rest : Plan)
    → Listed i rest.installs
    → Listed i (plan_entry e current tracked rest).installs
Listed-later i e current tracked rest h =
    rw (installs-plan_entry e current tracked rest) (elim (Bool-cases (is_current e current)) [
      | inl same ↦ rw same h
      | inr other ↦ rw other (inr h)
    ])

All-Planned-later :
    (local : Dict Text LocalFile) (e : ManifestEntry) (current : Option LocalFile) (tracked : Bool)
    (rest : Plan) (es : List ManifestEntry)
    → All (Planned local rest.installs) es
    → All (Planned local (plan_entry e current tracked rest).installs) es
All-Planned-later local e current tracked rest [] h = tt
All-Planned-later local e current tracked rest (x ∷ es) h = (
  elim h.0 [
    | inl same ↦ inl same
    | inr listed ↦
        inr (Listed-later (install_of x (lookup x.path local)) e current tracked rest listed)
  ],
  All-Planned-later local e current tracked rest es h.1,
)

plan_entries-Planned :
    (entries : List ManifestEntry) (local : Dict Text LocalFile) (tracked : Dict Text Text)
    → All (Planned local (plan_entries entries local tracked).installs) entries
unfolding plan_entries
plan_entries-Planned [] local tracked = tt
plan_entries-Planned (e ∷ es) local tracked =
    let current = lookup e.path local in
    let known = has_key e.path tracked in
    let rest = plan_entries es local tracked in
    (
      elim (Bool-cases (is_current e current)) [
        | inl same ↦ inl same
        | inr other ↦ inr (rw (installs-plan_entry e current known rest, other) (inl refl))
      ],
      All-Planned-later local e current known rest es (plan_entries-Planned es local tracked),
    )

pub compute_plan-Planned :
    (entries : List ManifestEntry) (local : Dict Text LocalFile) (tracked : Dict Text Text)
    → All (Planned local (compute_plan entries local tracked).installs) entries
unfolding compute_plan
compute_plan-Planned entries local tracked = plan_entries-Planned entries local tracked

-- Each file of the manifest is counted once: as an installation, as an adoption or as unchanged.
pub compute_plan-partition :
    (entries : List ManifestEntry) (local : Dict Text LocalFile) (tracked : Dict Text Text)
    → let p = compute_plan entries local tracked in
      length p.installs + length p.adopts + p.unchanged ≡ length entries
unfolding compute_plan plan_entries plan_entry
compute_plan-partition [] local tracked = refl
compute_plan-partition (e ∷ es) local tracked =
    let rest = compute_plan-partition es local tracked in
    elim (Bool-cases (is_current e (lookup e.path local))) [
      | inl same ↦ elim (Bool-cases (has_key e.path tracked)) [
        | inl known ↦ rw (same, known) (omega arith)
        | inr new ↦ rw (same, new) (omega arith)
      ]
      | inr other ↦ rw other (omega arith)
    ]
