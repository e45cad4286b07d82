-- ===== src/LauncherSync/Manifest.antt =====
-- backend/msm/launcher_sync/manifest.py: the manifest of a file server, validated entry by entry.
pub mod Paths
pub mod Accepted
mod Tests
use minecraft_server_manager.Prelude.{
  ℕ, zero, suc, ◌+◌, ◌^◌, Bool, true, false, ◌&&◌, ◌||◌, not, Option, none, some, List, [], ◌∷◌,
  ◌++◌, length, any, keep, ltb, leb, ◌==◌, if◌then◌else◌, Text, codes, text_key, text_eq,
  starts_with, member, add,
}
use minecraft_server_manager.Prelude.Fallible.{Fallible, refuse_if, done, failed, ◌>>=◌, ◌>>◌}
use minecraft_server_manager.Prelude.Int.{pos}
use minecraft_server_manager.Prelude.Trim.{is_empty}
use minecraft_server_manager.Prelude.Json.{
  Json, text, number, null, array, object, Items, end, item, Fields, get, get_or, is_true, size_of,
  str,
}

-- The reasons for which a manifest is refused.
pub data Refusal : Type 0 where
  not_an_object files_missing disabled_not_a_list too_many_files no_path path_too_long : Refusal
  forbidden_character absolute_path climbing_path entry_not_an_object bad_checksum : Refusal
  bad_size unknown_side listed_twice : Refusal

pub data Side : Type 0 where
  client server both : Side

pub record ManifestEntry : Type 0 where
  pub path : Text
  pub sha256 : Text
  pub size : ℕ
  pub side : Option Side
  pub disabled : Bool

pub record Manifest : Type 0 where
  pub pack_version : Option Text
  pub mc_version : Option Text
  pub loader : Option Text
  pub entries : List ManifestEntry

abbrev pub max_file_bytes : ℕ
max_file_bytes = 2 ^ 30

abbrev pub max_entries : ℕ
max_entries = 100000

abbrev pub max_path_length : ℕ
max_path_length = 512

abbrev pub has : ℕ → Text → Bool
has c t = any (λ d. c == d) t

abbrev is_letter : ℕ → Bool
is_letter c = (leb 65 c && leb c 90) || (leb 97 c && leb c 122)

-- `re.match(r"^[A-Za-z]:", raw)`
abbrev pub has_drive : Text → Bool
has_drive [] = false
has_drive (c ∷ []) = false
has_drive (c ∷ d ∷ rest) = is_letter c && d == 58

abbrev pub push : ℕ → List Text → List Text
push c [] = (c ∷ []) ∷ []
push c (part ∷ parts) = (c ∷ part) ∷ parts

-- `raw.split(c)`
abbrev pub split : ℕ → Text → List Text
split c [] = [] ∷ []
split c (d ∷ rest) = let parts = split c rest in if c == d then [] ∷ parts else push d parts

-- `part in ("", ".", "..")`
abbrev pub is_special : Text → Bool
is_special part = is_empty part || text_eq part (codes ".") || text_eq part (codes "..")

unfoldable pub check_path : Text → Fallible Refusal Text
check_path raw = do
  refuse_if (is_empty raw) no_path
  refuse_if (ltb max_path_length (length raw)) path_too_long
  refuse_if (has 0 raw || has 92 raw) forbidden_character
  refuse_if (starts_with (codes "/") raw || has_drive raw) absolute_path
  refuse_if (any is_special (split 47 raw)) climbing_path
  done raw

unfoldable pub validate_path : Json → Fallible Refusal Text
unfolding check_path
validate_path (text raw) = check_path raw
validate_path _ = failed no_path

abbrev pub is_hex : ℕ → Bool
is_hex c = (leb 48 c && leb c 57) || (leb 65 c && leb c 70) || (leb 97 c && leb c 102)

-- `^[0-9a-fA-F]{n}$` matched at the start: `$` also stands before a final line feed.
abbrev pub is_checksum : ℕ → Text → Bool
is_checksum zero [] = true
is_checksum zero (c ∷ rest) = c == 10 && is_empty rest
is_checksum (suc n) [] = false
is_checksum (suc n) (c ∷ rest) = is_hex c && is_checksum n rest

-- `str.lower` on what the checksum's pattern accepts.
abbrev pub lower_char : ℕ → ℕ
lower_char c = if leb 65 c && leb c 90 then c + 32 else c

abbrev pub lower_hex : Text → Text
lower_hex [] = []
lower_hex (c ∷ cs) = lower_char c ∷ lower_hex cs

unfoldable pub read_checksum : Json → Fallible Refusal Text
read_checksum (text sha) = if is_checksum 64 sha then done (lower_hex sha) else failed bad_checksum
read_checksum _ = failed bad_checksum

unfoldable pub read_size : Json → Fallible Refusal ℕ
read_size (number (pos n)) = if leb n max_file_bytes then done n else failed bad_size
read_size _ = failed bad_size

-- `SIDE_ALIASES.get`
abbrev pub side_alias : Text → Option Side
side_alias name =
    if text_eq name (codes "client")
    then some client
    else if text_eq name (codes "server")
    then some server
    else if text_eq name (codes "both") || text_eq name (codes "*")
    then some both
    else none

abbrev or_unknown : Option Side → Fallible Refusal (Option Side)
or_unknown none = failed unknown_side
or_unknown (some side) = done (some side)

-- What `str` prints of a value that is no text, `str.lower` and `str.casefold`.
module _ (printed : Json → Text) (lower casefold : Text → Text) where
  unfoldable pub read_side : Json → Fallible Refusal (Option Side)
  read_side null = done none
  read_side value = or_unknown (side_alias (lower (str printed value)))

  unfoldable pub read_entry : Bool → Json → Fallible Refusal ManifestEntry
  unfolding validate_path read_checksum read_size read_side
  read_entry disabled (object raw) = do
    path ← validate_path (get (codes "path") raw)
    sha256 ← read_checksum (get (codes "sha256") raw)
    size ← read_size (get (codes "size") raw)
    side ← read_side (get (codes "side") raw)
    done (record { path = path; sha256 = sha256; size = size; side = side; disabled = disabled })
  read_entry disabled _ = failed entry_not_an_object

  unfoldable pub read_entries : Bool → Items → Fallible Refusal (List ManifestEntry)
  unfolding read_entry
  read_entries disabled end = done []
  read_entries disabled (item raw rest) = do
    entry ← read_entry disabled raw
    entries ← read_entries disabled rest
    done (entry ∷ entries)

  unfoldable pub check_twice : List Text → List ManifestEntry → Fallible Refusal (Unit {0})
  check_twice seen [] = done tt
  check_twice seen (entry ∷ rest) = do
    refuse_if (member (casefold entry.path) seen) listed_twice
    check_twice (add (casefold entry.path) seen) rest

  abbrev first_loader : List (Text × Text) → Fields → Option Text
  first_loader [] raw = none
  first_loader ((key, label) ∷ rest) raw =
      let value = get key raw in
      let others = first_loader rest raw in
      if is_true value then some (label ++ codes " " ++ str printed value) else others

  abbrev loader_fields : List (Text × Text)
  loader_fields =
      (codes "neoforgeVersion", codes "neoforge")
      ∷ (codes "forgeVersion", codes "forge")
      ∷ (codes "fabricVersion", codes "fabric")
      ∷ (codes "quiltVersion", codes "quilt")
      ∷ []

  abbrev version_of : Json → Option Text
  version_of value = if is_true value then some (str printed value) else none

  abbrev pub manifest_of : Fields → List ManifestEntry → Manifest
  manifest_of raw entries = record {
    pack_version = version_of (get (codes "packVersion") raw);
    mc_version = version_of (get (codes "mcVersion") raw);
    loader = first_loader loader_fields raw;
    entries = entries;
  }

  unfoldable pub read_lists : Fields → Json → Json → Fallible Refusal Manifest
  unfolding read_entries check_twice
  read_lists raw (array files) (array disabled) = do
    refuse_if (ltb max_entries (length (size_of files) + length (size_of disabled))) too_many_files
    shown ← read_entries false files
    hidden ← read_entries true disabled
    check_twice [] (shown ++ hidden)
    done (manifest_of raw (shown ++ hidden))
  read_lists raw (array files) _ = failed disabled_not_a_list
  read_lists raw _ _ = failed files_missing

  unfoldable pub parse_manifest : Json → Fallible Refusal Manifest
  unfolding read_lists
  parse_manifest (object raw) =
      read_lists raw (get (codes "files") raw) (get_or (codes "disabledFiles") (array end) raw)
  parse_manifest _ = failed not_an_object

-- `Manifest.under`
unfoldable pub under : List Text → Manifest → List ManifestEntry
under prefixes m = keep (λ e. any (λ prefix. starts_with prefix e.path) prefixes) m.entries
