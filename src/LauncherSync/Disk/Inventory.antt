-- ===== src/LauncherSync/Disk/Inventory.antt =====
-- What the inventory of the disk finds (launcher_sync/disk.py, scan_local).
use minecraft_server_manager.Prelude.{
  ◌≡◌, refl, sym, ap, ◌∙◌, inl, inr, Bool-cases, Bool, true, false, Option-cases, subst, Option,
  none, some, List, [], ◌∷◌, ◌++◌, length, take-append-drop, ◌-◌, if◌then◌else◌, Text, text_key,
  text_eq, text_eq_iff, Dict, lookup, insert, has_key, lookup-insert, absent-lookup, beq_refl,
}
use minecraft_server_manager.LauncherSync.Plan.{LocalFile}
use minecraft_server_manager.LauncherSync.Disk.{
  Bytes, Files, ScannedFile, Known, disabled_suffix, ends_with, disabled_name, without_suffix,
  digest_of, is_active, scan_file, scan_local,
}
use minecraft_server_manager.LauncherSync.Disk.Names.{
  IsPlain, plain-disabled, disabled-disabled, disabled-plain,
}
use minecraft_server_manager.LauncherSync.Disk.Slots.{slot}

-- A name with the suffix is the disabled name of what stands before it.
disabled_name-without_suffix :
    (r : Text) → ends_with disabled_suffix r ≡ true → disabled_name (without_suffix r) ≡ r
disabled_name-without_suffix r h =
    ap (λ s. without_suffix r ++ s) (sym ((text_eq_iff _ disabled_suffix).0 h))
    ∙ take-append-drop (length r - length disabled_suffix) r

-- The disk that holds the listed files.
abbrev pub files_of : Files → List ScannedFile → Files
files_of before [] = before
files_of before (file ∷ rest) = files_of (insert file.relative file.content before) rest

module _ (sha256_of : Bytes → Text) where
  -- What an inventory says of the two names of a file: the active one wins.
  abbrev pub version : Text → Option Bytes × Option Bytes → Option LocalFile
  version p (some c, other) = some (record { path = p; sha256 = sha256_of c; disabled = false })
  version p (none, some c) = some (record { path = p; sha256 = sha256_of c; disabled = true })
  version p (none, none) = none

  -- The inventory is that of the disk.
  abbrev pub Agrees : Dict Text LocalFile → Files → Type 0
  Agrees local files = (q : Text) → IsPlain q → lookup q local ≡ version q (slot q files)

  abbrev found_file : Text → Bytes → Bool → LocalFile
  found_file p content disabled = record {
    path = p;
    sha256 = sha256_of content;
    disabled = disabled;
  }

  -- One turn of the inventory, at a file under its disabled name and at one under its own.
  abbrev scanned : Text → Bytes → Bool → Dict Text LocalFile → Dict Text LocalFile
  scanned p content disabled found =
      if is_active (lookup p found) then found else insert p (found_file p content disabled) found

  scanned-other :
      (p : Text) (content : Bytes) (disabled : Bool) (found : Dict Text LocalFile) (q : Text)
      → text_eq q p ≡ false
      → lookup q (scanned p content disabled found) ≡ lookup q found
  scanned-other p content disabled found q h = elim (Bool-cases (is_active (lookup p found))) [
    | inl active ↦ rw active refl
    | inr idle ↦ rw (idle, lookup-insert, h) refl
  ]

  scanned-disabled_same :
      (p : Text) (content : Bytes) (found : Dict Text LocalFile) (before : Files)
      → IsPlain p
      → lookup p found ≡ version p (slot p before)
      → lookup (disabled_name p) before ≡ none
      → lookup p (scanned p content true found)
        ≡ version p (slot p (insert (disabled_name p) content before))
  scanned-disabled_same p content found before plain agrees fresh =
      elim (Option-cases (lookup p before)) [
        | inr (c, held) ↦
            let known : lookup p found ≡ some (found_file p c false) = agrees ∙ rw held refl in
            rw
              (
                lookup-insert (disabled_name p) p content before,
                lookup-insert (disabled_name p) (disabled_name p) content before,
                plain-disabled p p plain,
                beq_refl (disabled_name p),
                held,
                known,
                known,
              )
              refl
        | inl missing ↦
            let known : lookup p found ≡ none = agrees ∙ rw (missing, fresh) refl in
            rw
              (
                lookup-insert (disabled_name p) p content before,
                lookup-insert (disabled_name p) (disabled_name p) content before,
                plain-disabled p p plain,
                beq_refl (disabled_name p),
                missing,
                known,
                lookup-insert,
                beq_refl p,
              )
              refl
      ]

  scanned-disabled :
      (p : Text) (content : Bytes) (found : Dict Text LocalFile) (before : Files)
      → Agrees found before
      → lookup (disabled_name p) before ≡ none
      → Agrees (scanned p content true found) (insert (disabled_name p) content before)
  scanned-disabled p content found before agrees fresh q plain = elim (Bool-cases (text_eq q p)) [
    | inl same ↦
        let e = (text_eq_iff q p).0 same in
        let plain_p = subst IsPlain e plain in
        rw e (scanned-disabled_same p content found before plain_p (agrees p plain_p) fresh)
    | inr other ↦
        scanned-other p content true found q other
        ∙ agrees q plain
        ∙ sym (
            rw
              (
                lookup-insert (disabled_name p) q content before,
                lookup-insert (disabled_name p) (disabled_name q) content before,
                plain-disabled q p plain,
                disabled-disabled q p other,
              )
              refl)
  ]

  scanned-active_same :
      (p : Text) (content : Bytes) (found : Dict Text LocalFile) (before : Files)
      → lookup p found ≡ version p (slot p before)
      → lookup p before ≡ none
      → lookup p (scanned p content false found) ≡ some (found_file p content false)
  scanned-active_same p content found before agrees fresh =
      elim (Option-cases (lookup (disabled_name p) before)) [
        | inr (c, held) ↦
            let known : lookup p found ≡ some (found_file p c true) =
              agrees ∙ rw (fresh, held) refl in
            rw (known, lookup-insert, beq_refl p) refl
        | inl missing ↦
            let known : lookup p found ≡ none = agrees ∙ rw (fresh, missing) refl in
            rw (known, lookup-insert, beq_refl p) refl
      ]

  scanned-active :
      (p : Text) (content : Bytes) (found : Dict Text LocalFile) (before : Files)
      → IsPlain p
      → Agrees found before
      → lookup p before ≡ none
      → Agrees (scanned p content false found) (insert p content before)
  scanned-active p content found before plain_p agrees fresh q plain =
      elim (Bool-cases (text_eq q p)) [
        | inl same ↦ rw ((text_eq_iff q p).0 same) (
            scanned-active_same p content found before (agrees p plain_p) fresh
            ∙ sym (rw (lookup-insert p p content before, beq_refl p) refl))
        | inr other ↦
            scanned-other p content false found q other
            ∙ agrees q plain
            ∙ sym (
                rw
                  (
                    lookup-insert p q content before,
                    lookup-insert p (disabled_name q) content before,
                    disabled-plain q p plain_p,
                    other,
                  )
                  refl)
      ]

  module _ (known : Dict Text Known) where
    -- The listing names each file once, and a remembered fingerprint is that of the file.
    abbrev pub IsListing : Files → List ScannedFile → Type 0
    IsListing before [] = Unit
    IsListing before (file ∷ rest) =
        (has_key file.relative before ≡ false)
        × (digest_of sha256_of (lookup file.relative known) file ≡ sha256_of file.content)
        × IsListing (insert file.relative file.content before) rest

    scan_file-Agrees :
        (found : Dict Text LocalFile) (before : Files) (file : ScannedFile)
        → Agrees found before
        → has_key file.relative before ≡ false
        → digest_of sha256_of (lookup file.relative known) file ≡ sha256_of file.content
        → Agrees (scan_file sha256_of known found file) (insert file.relative file.content before)
    unfolding scan_file
    scan_file-Agrees found before file agrees new digest =
        let fresh = absent-lookup file.relative before new in
        elim (Bool-cases (ends_with disabled_suffix file.relative)) [
          | inl disabled ↦
              let e = disabled_name-without_suffix file.relative disabled in
              let p = without_suffix file.relative in
              rw (disabled, digest)
                (subst
                  (λ r. Agrees (scanned p file.content true found) (insert r file.content before)) e
                  (scanned-disabled p file.content found before agrees
                    (ap (λ r. lookup r before) e ∙ fresh)))
          | inr plain ↦
              rw (plain, digest)
                (scanned-active file.relative file.content found before plain agrees fresh)
        ]

    scan_local-onto :
        (found : Dict Text LocalFile) (before : Files) (files : List ScannedFile)
        → Agrees found before
        → IsListing before files
        → Agrees (scan_local sha256_of known found files) (files_of before files)
    unfolding scan_local
    scan_local-onto found before [] agrees h = agrees
    scan_local-onto found before (file ∷ rest) agrees h =
        scan_local-onto (scan_file sha256_of known found file)
          (insert file.relative file.content before) rest
          (scan_file-Agrees found before file agrees h.0 h.1) h.2

    pub scan_local-Agrees :
        (files : List ScannedFile)
        → IsListing [] files
        → Agrees (scan_local sha256_of known [] files) (files_of [] files)
    scan_local-Agrees files h = scan_local-onto [] [] files (λ q plain. refl) h

    -- Where the listing names each file once, and a fingerprint that is remembered for its size and
    -- date is that of its content, for a path that does not itself end in `.disabled`: a file that is
    -- there under this path is found, enabled, with the fingerprint of its content; one that is there
    -- only under the disabled name is found, disabled; otherwise the path is not found.
    pub lookup-scan_local :
        (files : List ScannedFile) (q : Text)
        → IsListing [] files
        → IsPlain q
        → lookup q (scan_local sha256_of known [] files) ≡ version q (slot q (files_of [] files))
    lookup-scan_local files q h plain = scan_local-Agrees files h q plain
