-- ===== src/LauncherSync/Manifest/Paths.antt =====
-- What a path of the manifest is (launcher_sync/manifest.py, validate_path).
use minecraft_server_manager.Prelude.{
  ℕ, ◌≤◌, ◌≡◌, ◌≢◌, refl, sym, ap, ◌∙◌, inl, inr, Bool-cases, Bool, true, false, ◌&&◌, ◌||◌, not,
  List, [], ◌∷◌, ◌++◌, length, any, all, All, ltb, starts_with, ◌==◌, arith, Text, codes,
}
use minecraft_server_manager.Prelude.Fallible.{Ensures, holds, refused, Ensures-guard}
use minecraft_server_manager.Prelude.Trim.{is_empty}
use minecraft_server_manager.Prelude.Json.{Json, text}
use minecraft_server_manager.LauncherSync.Manifest.{
  no_path, path_too_long, forbidden_character, absolute_path, climbing_path, max_path_length, has,
  is_letter, has_drive, push, split, is_special, check_path, validate_path,
}

abbrev pub is_name_char : ℕ → Bool
is_name_char c = not (47 == c) && (not (0 == c) && not (92 == c))

-- The name of a file or of a folder: not empty, not `.`, not `..`, and without a separator of
-- either system or a NUL.
pub record IsName (part : Text) : Type 0 where
  pub full : part ≢ []
  pub not_here : part ≢ codes "."
  pub not_up : part ≢ codes ".."
  pub chars : all is_name_char part ≡ true

-- `"/".join(parts)`
abbrev pub join : List Text → Text
join [] = []
join (part ∷ []) = part
join (part ∷ next ∷ parts) = part ++ 47 ∷ join (next ∷ parts)

abbrev pub letters : Text
letters = codes "ABCDEFGHIJKLMNOPQRSTUVWXYZabcdefghijklmnopqrstuvwxyz"

-- Does a path begin with none of the drives `A:` to `Z:`, `a:` to `z:`?
abbrev pub is_driveless : Text → Bool
is_driveless path = all (λ letter. not (starts_with (letter ∷ codes ":") path)) letters

-- A path that stays below the folder it is resolved in: names, one after the other, of which the
-- first does not name a drive.
pub record IsInside (path : Text) : Type 0 where
  pub parts : List Text
  pub joined : path ≡ join parts
  pub names : All IsName parts
  pub driveless : is_driveless path ≡ true
  pub short : length path ≤ max_path_length

-- `split` never gives the empty list.
split-shape : (c : ℕ) (t : Text) → (part : Text) × (parts : List Text) × (split c t ≡ part ∷ parts)
split-shape c [] = ([], [], refl)
split-shape c (d ∷ t) = elim (Bool-cases (c == d)) [
  | inl same ↦ ([], split c t, rw same refl)
  | inr other ↦ let (part, parts, e) = split-shape c t in (d ∷ part, parts, rw (other, e) refl)
]

join-push :
    (c : ℕ) (part : Text) (parts : List Text)
    → join (push c (part ∷ parts)) ≡ c ∷ join (part ∷ parts)
join-push c part [] = refl
join-push c part (next ∷ parts) = refl

join-split : (t : Text) → join (split 47 t) ≡ t
join-split [] = refl
join-split (d ∷ t) =
    let (part, parts, e) = split-shape 47 t in
    elim (Bool-cases (47 == d)) [
      | inl same ↦ rw (same, e) (ap (λ r. 47 ∷ r) (ap join (sym e) ∙ join-split t) ∙ ground arith)
      | inr other ↦
          rw (other, e) (join-push d part parts ∙ ap (λ r. d ∷ r) (ap join (sym e) ∙ join-split t))
    ]

-- The characters of a part: none is the separator, and all are the text's.
split-all :
    (c : ℕ) (q : ℕ → Bool) (t : Text)
    → all q t ≡ true
    → All (λ part. all (λ d. not (c == d) && q d) part ≡ true) (split c t)
split-all c q [] h = (refl, tt)
split-all c q (d ∷ t) h =
    let ih = split-all c q t (ground arith) in
    let (part, parts, e) = split-shape c t in
    elim (Bool-cases (c == d)) [
      | inl same ↦ rw same (refl, ih)
      | inr other ↦ let tail = rw e at ih in rw (other, e) (ground arith, tail.1)
    ]

clean_chars :
    (a b : ℕ) (t : Text)
    → (has a t || has b t) ≡ false
    → all (λ d. not (a == d) && not (b == d)) t ≡ true
clean_chars a b [] h = refl
clean_chars a b (d ∷ t) h = ground (arith, clean_chars a b t)

part-IsName : (part : Text) → is_special part ≡ false → all is_name_char part ≡ true → IsName part
part-IsName part h k = record {
  full = λ e. let bad = rw e at h in cc;
  not_here = λ e. let bad = rw e at h in cc;
  not_up = λ e. let bad = rw e at h in cc;
  chars = k;
}

parts-AreNames :
    (parts : List Text)
    → any is_special parts ≡ false
    → All (λ part. all is_name_char part ≡ true) parts
    → All IsName parts
parts-AreNames [] h k = tt
parts-AreNames (part ∷ parts) h k =
    (part-IsName part (ground arith) k.0, parts-AreNames parts (ground arith) k.1)

-- A letter and a colon: the first character decides which drive it is.
not_letter :
    (c : ℕ) (rest bound : Text)
    → all is_letter bound ≡ true
    → is_letter c ≡ false
    → all (λ letter. not (starts_with (letter ∷ codes ":") (c ∷ rest))) bound ≡ true
not_letter c rest [] h k = refl
not_letter c rest (b ∷ bound) h k = elim (Bool-cases (b == c)) [
  | inl same ↦ absurd (ground arith)
  | inr other ↦ ground (arith, not_letter c rest bound (ground arith) k)
]

alone :
    (c : ℕ) (bound : Text)
    → all (λ letter. not (starts_with (letter ∷ codes ":") (c ∷ []))) bound ≡ true
alone c [] = refl
alone c (b ∷ bound) = ground (arith, alone c bound)

not_colon :
    (c d : ℕ) (rest bound : Text)
    → (d == 58) ≡ false
    → all (λ letter. not (starts_with (letter ∷ codes ":") (c ∷ d ∷ rest))) bound ≡ true
not_colon c d rest [] h = refl
not_colon c d rest (b ∷ bound) h = ground (arith, not_colon c d rest bound h)

has_drive-is_driveless : (path : Text) → has_drive path ≡ false → is_driveless path ≡ true
has_drive-is_driveless [] h = refl
has_drive-is_driveless (c ∷ []) h = alone c letters
has_drive-is_driveless (c ∷ d ∷ rest) h = elim (Bool-cases (is_letter c)) [
  | inl letter ↦ not_colon c d rest letters (ground arith)
  | inr other ↦ not_letter c (d ∷ rest) letters refl other
]

check_path-Ensures : (raw : Text) → Ensures IsInside (check_path raw)
unfolding check_path
check_path-Ensures raw = Ensures-guard (is_empty raw) no_path λ full.
    Ensures-guard (ltb max_path_length (length raw)) path_too_long λ short.
      Ensures-guard (has 0 raw || has 92 raw) forbidden_character λ plain.
        Ensures-guard (starts_with (codes "/") raw || has_drive raw) absolute_path λ relative.
          Ensures-guard (any is_special (split 47 raw)) climbing_path λ normal. holds (record {
            parts = split 47 raw;
            joined = sym (join-split raw);
            names =
                parts-AreNames (split 47 raw) normal
                  (split-all 47 _ raw (clean_chars 0 92 raw plain));
            driveless = has_drive-is_driveless raw (ground arith);
            short = ground arith;
          })

-- A path that is accepted is made of names, and begins with no drive letter, so that it stays below the folder it is resolved in,
-- and has at most 512 characters.
pub validate_path-Ensures : (raw : Json) → Ensures IsInside (validate_path raw)
unfolding validate_path
validate_path-Ensures (text raw) = check_path-Ensures raw
validate_path-Ensures _ = refused
