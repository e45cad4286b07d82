-- ===== src/Minecraft/Properties.antt =====
-- backend/msm/minecraft/properties.py: server.properties, read and changed line by line. The file is
-- the list of its lines; str.lower, int of a text and str of a number are Python's, as parameters.
pub mod Changes
use minecraft_server_manager.Prelude.{
  ℕ, zero, suc, ◌+◌, Bool, true, false, ◌&&◌, ◌||◌, not, Option, none, some, List, [], ◌∷◌, ◌++◌,
  length, ltb, ◌==◌, if◌then◌else◌, any, is_some, Text, text_eq, codes, has_char, starts_with, map,
}
use minecraft_server_manager.Prelude.Int.{ℤ, pos, negsuc}
use minecraft_server_manager.Prelude.Fallible.{Fallible, done, failed, ◌>>=◌}
use minecraft_server_manager.Prelude.Trim.{strip, is_space, is_empty}

pub data PropertyKind : Type 0 where
  boolean : PropertyKind
  integer : Option ℕ → Option ℕ → PropertyKind
  plain_string : PropertyKind
  one_of : List Text → PropertyKind

pub record PropertyMeta : Type 0 where
  pub key : Text
  pub kind : PropertyKind
  pub requires_restart : Bool

abbrev meta_of : Text → PropertyKind → Bool → PropertyMeta
meta_of key kind restart = record { key = key; kind = kind; requires_restart = restart }

unfoldable pub known_properties : List PropertyMeta
known_properties =
    meta_of (codes "motd") plain_string true
    ∷ meta_of (codes "server-port") (integer (some 1) (some 65535)) true
    ∷ meta_of (codes "max-players") (integer (some 1) (some 10000)) true
    ∷ meta_of (codes "gamemode")
        (one_of (map codes ("survival" ∷ "creative" ∷ "adventure" ∷ "spectator" ∷ []))) false
    ∷ meta_of (codes "difficulty")
        (one_of (map codes ("peaceful" ∷ "easy" ∷ "normal" ∷ "hard" ∷ []))) false
    ∷ meta_of (codes "pvp") boolean false
    ∷ meta_of (codes "hardcore") boolean true
    ∷ meta_of (codes "white-list") boolean false
    ∷ meta_of (codes "online-mode") boolean true
    ∷ meta_of (codes "allow-flight") boolean true
    ∷ meta_of (codes "allow-nether") boolean true
    ∷ meta_of (codes "view-distance") (integer (some 2) (some 32)) true
    ∷ meta_of (codes "simulation-distance") (integer (some 3) (some 32)) true
    ∷ meta_of (codes "spawn-protection") (integer (some 0) none) true
    ∷ meta_of (codes "enable-command-block") boolean true
    ∷ meta_of (codes "level-name") plain_string true
    ∷ meta_of (codes "level-seed") plain_string true
    ∷ meta_of (codes "enforce-whitelist") boolean true
    ∷ meta_of (codes "enable-rcon") boolean true
    ∷ meta_of (codes "rcon.port") (integer (some 1) (some 65535)) true
    ∷ []

abbrev find_meta : List PropertyMeta → Text → Option PropertyMeta
find_meta [] key = none
find_meta (m ∷ ms) key = if text_eq key m.key then some m else find_meta ms key

unfoldable pub meta_by_key : Text → Option PropertyMeta
meta_by_key key = find_meta known_properties key

pub data PropertyError : Type 0 where
  line_break : PropertyError
  not_a_boolean : PropertyError
  not_an_integer : PropertyError
  too_low : ℤ → ℕ → PropertyError
  too_high : ℤ → ℕ → PropertyError
  not_a_choice : PropertyError
  file_not_found : PropertyError
  invalid_key : Text → PropertyError

pub record Python : Type 0 where
  pub lower : Text → Text
  pub int_of_text : Text → Option ℤ
  pub text_of_int : ℤ → Text

unfoldable pub reject_line_breaks : Text → Fallible PropertyError Text
reject_line_breaks value =
    if has_char 10 value || has_char 13 value then failed line_break else done (strip value)

abbrev below : ℤ → Option ℕ → Option ℕ
below n none = none
below (negsuc k) (some minimum) = some minimum
below (pos k) (some minimum) = if ltb k minimum then some minimum else none

abbrev above : ℤ → Option ℕ → Option ℕ
above n none = none
above (negsuc k) (some maximum) = none
above (pos k) (some maximum) = if ltb maximum k then some maximum else none

abbrev validate_number : Python → Option ℕ → Option ℕ → Option ℤ → Fallible PropertyError Text
validate_number py minimum maximum none = failed not_an_integer
validate_number py minimum maximum (some n) = elim (below n minimum) [
  | some limit ↦ failed (too_low n limit)
  | none ↦ elim (above n maximum) [
    | some limit ↦ failed (too_high n limit)
    | none ↦ done (py.text_of_int n)
  ]
]

unfoldable pub validate_kind : Python → PropertyKind → Text → Fallible PropertyError Text
validate_kind py boolean clean =
    if text_eq (py.lower clean) (codes "true") || text_eq (py.lower clean) (codes "false")
    then done (py.lower clean)
    else failed not_a_boolean
validate_kind py (integer minimum maximum) clean =
    validate_number py minimum maximum (py.int_of_text clean)
validate_kind py plain_string clean = done clean
validate_kind py (one_of choices) clean =
    if any (text_eq clean) choices then done clean else failed not_a_choice

abbrev by_meta : Python → Option PropertyMeta → Text → Fallible PropertyError Text
by_meta py none clean = done clean
by_meta py (some m) clean = validate_kind py m.kind clean

unfoldable pub validate_value : Python → Text → Text → Fallible PropertyError Text
unfolding reject_line_breaks
validate_value py key value = do
  clean ← reject_line_breaks value
  by_meta py (meta_by_key key) clean

-- `[=:]`
abbrev pub is_separator : ℕ → Bool
is_separator c = (c == 61) || (c == 58)

-- `[^#!=:\s]`
unfoldable pub starts_key : ℕ → Bool
starts_key c = not ((c == 35) || (c == 33) || is_separator c || is_space c)

abbrev pub longer_key : ℕ → Option (Text × Text) → Option (Text × Text)
longer_key c none = none
longer_key c (some (key, rest)) = some (c ∷ key, rest)

abbrev pub before_separator : Text → Option (Text × Text)
before_separator [] = none
before_separator (c ∷ cs) =
    let rest = before_separator cs in if is_separator c then some ([], cs) else longer_key c rest

abbrev pub trimmed : Option (Text × Text) → Option (Text × Text)
trimmed none = none
trimmed (some (key, value)) = some (strip key, strip value)

-- The entry of a line: the text before the first separator and the one after it, without blanks
-- around them. A blank line, or one that starts as a comment, has no first character of a key.
unfoldable pub read_line : Text → Option (Text × Text)
read_line [] = none
read_line (c ∷ cs) = if starts_key c then trimmed (before_separator (c ∷ cs)) else none

-- `{entry.key: entry}[key]`: the value and the line of the last entry with the key.
abbrev pub entry_at : Text → ℕ → Option (Text × Text) → Option (Text × ℕ)
entry_at key index none = none
entry_at key index (some (k, value)) = if text_eq key k then some (value, index) else none

abbrev pub later_or : Option (Text × ℕ) → Option (Text × ℕ) → Option (Text × ℕ)
later_or none here = here
later_or (some later) here = some later

unfoldable pub last_entry : Text → ℕ → List Text → Option (Text × ℕ)
last_entry key index [] = none
last_entry key index (line ∷ lines) =
    later_or (last_entry key (index + 1) lines) (entry_at key index (read_line line))

-- `lines[n] = line`
abbrev pub set_at : ℕ → Text → List Text → List Text
set_at n line [] = []
set_at zero line (l ∷ ls) = line ∷ ls
set_at (suc n) line (l ∷ ls) = l ∷ set_at n line ls

abbrev pub property_line : Text → Text → Text
property_line key value = key ++ 61 ∷ value

-- The lines, the keys applied and whether a restart is needed, so far.
pub record Applied : Type 0 where
  pub lines : List Text
  pub applied : List Text
  pub needs_restart : Bool

abbrev restart_of : Option PropertyMeta → Bool
restart_of none = true
restart_of (some m) = m.requires_restart

abbrev pub note_key : Text → List Text → Applied → Applied
note_key key lines a = record {
  lines = lines;
  applied = a.applied ++ key ∷ [];
  needs_restart = a.needs_restart || restart_of (meta_by_key key);
}

abbrev pub write_known : Text → Text → Option (Text × ℕ) → Applied → Applied
write_known key value none a = note_key key (a.lines ++ property_line key value ∷ []) a
write_known key value (some (old, n)) a =
    if text_eq old value then a else note_key key (set_at n (property_line key value) a.lines) a

-- One change; `original` are the lines that were read, where the entry is looked up.
unfoldable pub write_change : List Text → Text → Text → Applied → Applied
unfolding last_entry
write_change original key value a = write_known key value (last_entry key 0 original) a

abbrev pub is_refused_key : Text → Bool
is_refused_key key = is_empty key || has_char 61 key || starts_with (35 ∷ []) key

unfoldable pub apply_loop :
    Python → List Text → List (Text × Text) → Applied → Fallible PropertyError Applied
unfolding validate_value write_change
apply_loop py original [] a = done a
apply_loop py original ((raw_key, raw_value) ∷ changes) a =
    if is_refused_key (strip raw_key)
    then failed (invalid_key raw_key)
    else (validate_value py (strip raw_key) raw_value >>= λ value.
        apply_loop py original changes (write_change original (strip raw_key) value a))

abbrev unchanged : List Text → Applied
unchanged lines = record { lines = lines; applied = []; needs_restart = false }

-- The keys applied, the restart, and the lines of the file afterwards; `none` is a missing file.
unfoldable pub apply_changes :
    Python → Option (List Text) → List (Text × Text) → Fallible PropertyError Applied
unfolding apply_loop
apply_changes py none [] = done (unchanged [])
apply_changes py none (change ∷ changes) = failed file_not_found
apply_changes py (some lines) changes = apply_loop py lines changes (unchanged lines)
