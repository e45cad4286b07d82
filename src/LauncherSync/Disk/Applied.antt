-- ===== src/LauncherSync/Disk/Applied.antt =====
-- A plan applied to the disk as a whole (launcher_sync/disk.py, apply_plan).
use minecraft_server_manager.Prelude.{
  ◌≡◌, refl, ◌∙◌, Option, inl, inr, Bool-cases, false, none, some, List, [], ◌∷◌, map, All, arith,
  Text, text_key, text_eq, text_eq_iff, lookup, insert, erase, member,
}
use minecraft_server_manager.Prelude.Fallible.{Fallible, done}
use minecraft_server_manager.LauncherSync.Plan.{Install, Plan}
use minecraft_server_manager.LauncherSync.Disk.{
  Bytes, Files, DiskError, FileCall, disabled_name, temporary_name, target_name, other_name,
  copy_in, install_file, remove_file, each, apply_plan,
}
use minecraft_server_manager.LauncherSync.Disk.Names.{IsOrdinary}
use minecraft_server_manager.LauncherSync.Disk.Slots.{
  slot, slot_of, slot-temporary, slot-install, slot-install_other, slot-remove, slot-remove_other,
}

abbrev pub Distinct : List Text → Type 0
Distinct [] = Unit
Distinct (p ∷ ps) = (member p ps ≡ false) × Distinct ps

abbrev pub install_path : Install → Text
install_path i = i.path

module _ (sha256_of : Bytes → Text) (resolve : Text → Fallible DiskError Text)
    (staging : Files) where
  -- The file of an installation has been downloaded and checked, and no link diverts its names.
  pub record IsReady (i : Install) : Type 0 where
    pub plain : IsOrdinary i.path
    pub target : resolve (target_name i) ≡ done (target_name i)
    pub other : resolve (other_name i) ≡ done (other_name i)
    pub content : Bytes
    pub staged : lookup i.sha256 staging ≡ some content
    pub checked : sha256_of content ≡ i.sha256

  pub record IsRemovable (path : Text) : Type 0 where
    pub plain : IsOrdinary path
    pub active : resolve path ≡ done path
    pub disabled : resolve (disabled_name path) ≡ done (disabled_name path)

  -- The file is on the disk with the fingerprint of the plan, under the one name that goes with its
  -- state.
  abbrev pub IsStored : Files → Install → Type 0
  IsStored files i =
      (c : Bytes) × (slot i.path files ≡ slot_of i.disabled c) × (sha256_of c ≡ i.sha256)

  abbrev pub IsGone : Files → Text → Type 0
  IsGone files path = slot path files ≡ (none, none)

  -- Only the files of these paths have changed.
  abbrev pub Frames : List Text → Files → Files → Type 0
  Frames paths files after =
      (q : Text) → IsOrdinary q → member q paths ≡ false → slot q after ≡ slot q files

  -- The disk with the temporary copy made and renamed.
  abbrev copied : Install → Bytes → Files → Files
  copied i c files =
      let temporary = temporary_name (target_name i) in erase temporary (insert temporary c files)

  abbrev installed : Install → Bytes → Files → Files
  installed i c files = erase (other_name i) (insert (target_name i) c (copied i c files))

  abbrev removed : Text → Files → Files
  removed path files = erase (disabled_name path) (erase path files)

  -- What a plan does to the disk.
  pub record IsApplied (plan : Plan) (files after : Files) : Type 0 where
    pub stored : All (IsStored after) plan.installs
    pub gone : All (IsGone after) plan.removes
    pub kept :
        (q : Text)
        → IsOrdinary q
        → member q (map install_path plan.installs) ≡ false
        → member q plan.removes ≡ false
        → slot q after ≡ slot q files

  still_stored :
      (removes : List Text) (files after : Files) (installs : List Install)
      → Frames removes files after
      → All IsReady installs
      → All (λ i. member i.path removes ≡ false) installs
      → All (IsStored files) installs
      → All (IsStored after) installs
  still_stored removes files after [] frame r m h = tt
  still_stored removes files after (i ∷ is) frame r m h = (
    (h.0.0, frame i.path r.0.plain m.0 ∙ h.0.1, h.0.2),
    still_stored removes files after is frame r.1 m.1 h.1,
  )

  -- The file system refuses no call.
  module _ (refuses : FileCall → Files → Option Files)
      (obeys : (call : FileCall) (files : Files) → refuses call files ≡ none) where
    install_file-done :
        (i : Install) (files : Files) (r : IsReady i)
        → install_file resolve refuses staging i files ≡ (none, installed i r.content files)
    unfolding install_file copy_in
    install_file-done i files r = rw (r.target, r.other, obeys, r.staged, obeys, obeys, obeys) refl

    install_all :
        (installs : List Install) (files : Files)
        → All IsReady installs
        → Distinct (map install_path installs)
        → (after : Files) × (each (install_file resolve refuses staging) installs files
            ≡ (none, after))
          × Frames (map install_path installs) files after
          × All (IsStored after) installs
    install_all [] files h d = (files, refl, λ q p m. refl, tt)
    install_all (i ∷ is) files h d =
        let r = h.0 in
        let next = installed i r.content files in
        let (after, ran, frame, stored) = install_all is next h.1 d.1 in
        let ready = copied i r.content files in
        (
          after,
          rw (install_file-done i files r, each) ran,
          λ q p m.
              frame q p (ground arith)
              ∙ slot-install_other i r.content ready q r.plain.0 p.0 (ground arith)
              ∙ slot-temporary (target_name i) q r.content files p,
          (
            (
              r.content,
              frame i.path r.plain d.0 ∙ slot-install i r.content ready r.plain.0,
              r.checked,
            ),
            stored,
          ),
        )

    remove_file-done :
        (path : Text) (files : Files)
        → IsRemovable path
        → remove_file resolve refuses staging path files ≡ (none, removed path files)
    unfolding remove_file
    remove_file-done path files r = rw (r.active, obeys, r.disabled, obeys) refl

    remove_all :
        (removes : List Text) (files : Files)
        → All IsRemovable removes
        → (after : Files) × (each (remove_file resolve refuses staging) removes files
            ≡ (none, after))
          × Frames removes files after
          × ((q : Text) → IsOrdinary q → IsGone files q → IsGone after q)
          × All (IsGone after) removes
    remove_all [] files h = (files, refl, λ q p m. refl, λ q p g. g, tt)
    remove_all (path ∷ paths) files h =
        let r = h.0 in
        let next = removed path files in
        let (after, ran, frame, stays, gone) = remove_all paths next h.1 in
        (
          after,
          rw (remove_file-done path files r, each) ran,
          λ q p m.
              frame q p (ground arith)
              ∙ slot-remove_other path files q r.plain.0 p.0 (ground arith),
          λ q p g. stays q p (elim (Bool-cases (text_eq q path)) [
            | inl same ↦ rw ((text_eq_iff q path).0 same) (slot-remove path files)
            | inr other ↦ slot-remove_other path files q r.plain.0 p.0 other ∙ g
          ]),
          (stays path r.plain (slot-remove path files), gone),
        )

    -- A plan whose files are prepared, whose paths are neither disabled names nor names of temporary
    -- copies, all different, and lead to no link, is applied without an error, where the file system
    -- refuses no call: each of its installations is on the disk, with the fingerprint of the plan and
    -- under the one of its two names that goes with its state; what it removes is gone under both
    -- names; no other such path has changed.
    pub apply_plan-IsApplied :
        (plan : Plan) (files : Files)
        → All IsReady plan.installs
        → Distinct (map install_path plan.installs)
        → All IsRemovable plan.removes
        → All (λ i. member i.path plan.removes ≡ false) plan.installs
        → (after : Files) × (apply_plan resolve refuses staging plan files ≡ (none, after))
          × IsApplied plan files after
    unfolding apply_plan
    apply_plan-IsApplied plan files ready distinct removable apart =
        let (middle, ran, frame, stored) = install_all plan.installs files ready distinct in
        let (after, ran₂, frame₂, stays, gone) = remove_all plan.removes middle removable in
        (
          after,
          rw ran ran₂,
          record {
            stored = still_stored plan.removes middle after plan.installs frame₂ ready apart stored;
            gone = gone;
            kept = λ q p a b. frame₂ q p b ∙ frame q p a;
          },
        )
