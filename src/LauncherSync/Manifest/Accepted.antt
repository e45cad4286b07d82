-- ===== src/LauncherSync/Manifest/Accepted.antt =====
-- What an accepted manifest guarantees (launcher_sync/manifest.py, parse_manifest).
use minecraft_server_manager.Prelude.{
  suc, ◌+◌, ◌≤◌, ◌≡◌, refl, ap, Bool, true, false, List, [], ◌∷◌, ◌++◌, map, length, length-append,
  All, ltb, leb, arith, Text, text_key, text_eq_iff, codes, member, add, member-add,
}
use minecraft_server_manager.Prelude.Fallible.{
  done, Ensures, holds, refused, Ensures-done, Ensures-bind, Ensures-step, Ensures-guard,
  Ensures-if, Ensures-map,
}
use minecraft_server_manager.Prelude.Int.{pos}
use minecraft_server_manager.Prelude.Json.{
  Json, number, array, object, Items, end, item, Fields, get, get_or, size_of,
}
use minecraft_server_manager.LauncherSync.Manifest.{
  listed_twice, too_many_files, max_entries, max_file_bytes, ManifestEntry, Manifest, read_checksum,
  read_size, read_side, read_entry, read_entries, check_twice, read_lists, parse_manifest,
}
use minecraft_server_manager.LauncherSync.Manifest.Paths.{IsInside, validate_path-Ensures}

-- What is known of one entry.
pub record IsAccepted (e : ManifestEntry) : Type 0 where
  pub inside : IsInside e.path
  pub small : e.size ≤ max_file_bytes

read_size-small : (raw : Json) → Ensures (λ n. n ≤ max_file_bytes) (read_size raw)
unfolding read_size
read_size-small (number (pos n)) =
    Ensures-if (leb n max_file_bytes) (λ small. holds (ground arith)) λ large. refused
read_size-small _ = refused

module _ (printed : Json → Text) (lower casefold : Text → Text) where
  abbrev pub key : ManifestEntry → Text
  key e = casefold e.path

  -- No two entries name the same file, upper and lower case being the same.
  abbrev pub AreDistinct : List ManifestEntry → Type 0
  AreDistinct [] = Unit
  AreDistinct (e ∷ es) = (member (key e) (map key es) ≡ false) × AreDistinct es

  read_entry-Ensures :
      (disabled : Bool) (raw : Json)
      → Ensures IsAccepted (read_entry printed lower casefold disabled raw)
  unfolding read_entry
  read_entry-Ensures disabled (object raw) =
      Ensures-bind (validate_path-Ensures (get (codes "path") raw)) λ path inside.
        Ensures-step (read_checksum (get (codes "sha256") raw)) λ sha256 _.
          Ensures-bind (read_size-small (get (codes "size") raw)) λ size small.
            Ensures-step (read_side printed lower casefold (get (codes "side") raw))
              λ side _. holds (record { inside = inside; small = small })
  read_entry-Ensures disabled _ = refused

  -- The entries of one of the two lists, none left out and in their order.
  abbrev pub Reads : Bool → List Json → List ManifestEntry → Type 0
  Reads disabled [] [] = Unit
  Reads disabled [] (e ∷ es) = ⊥
  Reads disabled (raw ∷ raws) [] = ⊥
  Reads disabled (raw ∷ raws) (e ∷ es) =
      (read_entry printed lower casefold disabled raw ≡ done e) × Reads disabled raws es

  read_entries-Reads :
      (disabled : Bool) (raws : Items)
      → Ensures (Reads disabled (size_of raws)) (read_entries printed lower casefold disabled raws)
  unfolding read_entries
  read_entries-Reads disabled end = holds tt
  read_entries-Reads disabled (item raw rest) =
      Ensures-step (read_entry printed lower casefold disabled raw) λ e read.
        Ensures-bind (read_entries-Reads disabled rest) λ others reads. holds (read, reads)

  Reads-IsAccepted :
      (disabled : Bool) (raws : List Json) (es : List ManifestEntry)
      → Reads disabled raws es
      → All IsAccepted es
  Reads-IsAccepted disabled [] [] h = tt
  Reads-IsAccepted disabled [] (e ∷ es) h = absurd h
  Reads-IsAccepted disabled (raw ∷ raws) [] h = absurd h
  Reads-IsAccepted disabled (raw ∷ raws) (e ∷ es) h =
      (Ensures-done (read_entry-Ensures disabled raw) h.0, Reads-IsAccepted disabled raws es h.1)

  absent :
      (k : Text) (seen : List Text) (es : List ManifestEntry)
      → All (λ e. member (key e) (add k seen) ≡ false) es
      → member k (map key es) ≡ false
  absent k seen [] h = refl
  absent k seen (e ∷ es) h = ground (
    arith,
    h.0,
    member-add k (key e) seen,
    text_eq_iff (key e) k,
    text_eq_iff k (key e),
    absent k seen es h.1,
  )

  still_absent :
      (k : Text) (seen : List Text) (es : List ManifestEntry)
      → All (λ e. member (key e) (add k seen) ≡ false) es
      → All (λ e. member (key e) seen ≡ false) es
  still_absent k seen [] h = tt
  still_absent k seen (e ∷ es) h =
      (ground (arith, h.0, member-add k (key e) seen), still_absent k seen es h.1)

  check_twice-Ensures :
      (seen : List Text) (es : List ManifestEntry)
      → Ensures
          (λ _. All (λ e. member (key e) seen ≡ false) es × AreDistinct es)
          (check_twice printed lower casefold seen es)
  unfolding check_twice
  check_twice-Ensures seen [] = holds (tt, tt)
  check_twice-Ensures seen (e ∷ es) = Ensures-guard (member (key e) seen) listed_twice λ new.
      Ensures-map (check_twice-Ensures (add (key e) seen) es) λ _ (others, distinct).
        ((new, still_absent (key e) seen es others), (absent (key e) seen es others, distinct))

  All-append :
      (es fs : List ManifestEntry)
      → All IsAccepted es
      → All IsAccepted fs
      → All IsAccepted (es ++ fs)
  All-append [] fs h k = k
  All-append (e ∷ es) fs h k = (h.0, All-append es fs h.1 k)

  Reads-length :
      (disabled : Bool) (raws : List Json) (es : List ManifestEntry)
      → Reads disabled raws es
      → length es ≡ length raws
  Reads-length disabled [] [] h = refl
  Reads-length disabled [] (e ∷ es) h = absurd h
  Reads-length disabled (raw ∷ raws) [] h = absurd h
  Reads-length disabled (raw ∷ raws) (e ∷ es) h = ap suc (Reads-length disabled raws es h.1)

  -- What the entries of an accepted manifest are.
  pub record IsValid (raw : Fields) (m : Manifest) : Type 0 where
    pub files : Items
    pub disabled : Items
    pub files_given : get (codes "files") raw ≡ array files
    pub disabled_given : get_or (codes "disabledFiles") (array end) raw ≡ array disabled
    pub shown : List ManifestEntry
    pub hidden : List ManifestEntry
    pub all_entries : m.entries ≡ shown ++ hidden
    pub shown_read : Reads false (size_of files) shown
    pub hidden_read : Reads true (size_of disabled) hidden
    pub accepted : All IsAccepted m.entries
    pub distinct : AreDistinct m.entries
    pub bounded : length m.entries ≤ max_entries

  read_lists-Ensures :
      (raw : Fields) (files disabled : Json)
      → get (codes "files") raw ≡ files
      → get_or (codes "disabledFiles") (array end) raw ≡ disabled
      → Ensures (IsValid raw) (read_lists printed lower casefold raw files disabled)
  unfolding read_lists
  read_lists-Ensures raw (array files) (array disabled) f d =
      Ensures-guard (ltb max_entries (length (size_of files) + length (size_of disabled)))
        too_many_files
        λ few. Ensures-bind (read_entries-Reads false files) λ shown a.
          Ensures-bind (read_entries-Reads true disabled) λ hidden b.
            Ensures-bind (check_twice-Ensures [] (shown ++ hidden)) λ _ (_, distinct).
              holds (record {
                files = files;
                disabled = disabled;
                files_given = f;
                disabled_given = d;
                shown = shown;
                hidden = hidden;
                all_entries = refl;
                shown_read = a;
                hidden_read = b;
                accepted =
                    All-append shown hidden (Reads-IsAccepted false _ shown a)
                      (Reads-IsAccepted true _ hidden b);
                distinct = distinct;
                bounded = ground (
                  arith,
                  length-append shown hidden,
                  Reads-length false _ shown a,
                  Reads-length true _ hidden b,
                );
              })
  read_lists-Ensures raw (array files) _ f d = refused
  read_lists-Ensures raw _ _ f d = refused

  -- A manifest that is not refused has exactly the entries of its two lists, in their order, none
  -- left out; each has a path made of names (none of them empty, `.` or `..`, and none with a slash, a
  -- backslash or a NUL) that does not begin with a drive letter and a colon, and a size of at most one
  -- gibibyte; no two paths are equal up to upper and lower case, and there are
  -- at most 100000.
  pub parse_manifest-IsValid :
      (raw : Fields) (m : Manifest)
      → parse_manifest printed lower casefold (object raw) ≡ done m
      → IsValid raw m
  unfolding parse_manifest
  parse_manifest-IsValid raw m h = Ensures-done (read_lists-Ensures raw _ _ refl refl) h
