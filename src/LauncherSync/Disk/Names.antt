-- ===== src/LauncherSync/Disk/Names.antt =====
-- The two names of a file, `path` and `path.disabled` (launcher_sync/disk.py, DISABLED_SUFFIX).
use minecraft_server_manager.Prelude.{
  ℕ, ◌-◌, some, last?, ◌≡◌, ◌≢◌, refl, sym, ap, ◌∙◌, inl, inr, Bool-cases, true, false, [], ◌∷◌,
  ◌++◌, length, length-append, take, drop, arith, Text, text_eq, text_eq_iff,
}
use minecraft_server_manager.LauncherSync.Disk.{
  disabled_suffix, ends_with, disabled_name, without_suffix, temporary_suffix, temporary_name,
}

take-append : (xs ys : Text) → take (length xs) (xs ++ ys) ≡ xs
take-append [] ys = refl
take-append (x ∷ xs) ys = ap (λ l. x ∷ l) (take-append xs ys)

drop-append_left : (xs ys : Text) → drop (length xs) (xs ++ ys) ≡ ys
drop-append_left [] ys = refl
drop-append_left (x ∷ xs) ys = drop-append_left xs ys

left_length : (p : Text) → length (disabled_name p) - length disabled_suffix ≡ length p
left_length p = omega (arith, length-append p disabled_suffix)

pub without_suffix-disabled_name : (p : Text) → without_suffix (disabled_name p) ≡ p
without_suffix-disabled_name p =
    ap (λ n. take n (disabled_name p)) (left_length p) ∙ take-append p disabled_suffix

pub ends_with-disabled_name : (p : Text) → ends_with disabled_suffix (disabled_name p) ≡ true
ends_with-disabled_name p =
    (text_eq_iff _ disabled_suffix).1
      (ap (λ n. drop n (disabled_name p)) (left_length p) ∙ drop-append_left p disabled_suffix)

-- A path that is not itself the disabled name of another.
abbrev pub IsPlain : Text → Type 0
IsPlain p = ends_with disabled_suffix p ≡ false

differs : (s t : Text) → s ≢ t → text_eq s t ≡ false
differs s t h = elim (Bool-cases (text_eq s t)) [
  | inl same ↦ absurd (h ((text_eq_iff s t).0 same))
  | inr other ↦ other
]

-- The names of two files with different plain paths are all different.
pub plain-disabled : (p q : Text) → IsPlain p → text_eq p (disabled_name q) ≡ false
plain-disabled p q h = differs p (disabled_name q) λ e.
    let both = ap (ends_with disabled_suffix) e ∙ ends_with-disabled_name q in
    let bad = rw h at both in cc

pub disabled-plain : (p q : Text) → IsPlain q → text_eq (disabled_name p) q ≡ false
disabled-plain p q h = differs (disabled_name p) q λ e.
    let both = ap (ends_with disabled_suffix) (sym e) ∙ ends_with-disabled_name p in
    let bad = rw h at both in cc

pub disabled-disabled :
    (p q : Text) → text_eq p q ≡ false → text_eq (disabled_name p) (disabled_name q) ≡ false
disabled-disabled p q h = differs (disabled_name p) (disabled_name q) λ e.
    let same =
      sym (without_suffix-disabled_name p) ∙ ap without_suffix e ∙ without_suffix-disabled_name q in
    let bad = rw ((text_eq_iff p q).1 same) at h in cc

-- A path that is neither the disabled name of another nor the name of a temporary copy.
abbrev pub IsOrdinary : Text → Type 0
IsOrdinary p = IsPlain p × (ends_with temporary_suffix p ≡ false)

temporary_length : (p : Text) → length (temporary_name p) - length temporary_suffix ≡ length p
temporary_length p = omega (arith, length-append p temporary_suffix)

ends_with-temporary_name : (p : Text) → ends_with temporary_suffix (temporary_name p) ≡ true
ends_with-temporary_name p =
    (text_eq_iff _ temporary_suffix).1 (
      ap (λ n. drop n (temporary_name p)) (temporary_length p)
      ∙ drop-append_left p temporary_suffix)

last-append : (xs : Text) (y : ℕ) (ys : Text) → last? (xs ++ y ∷ ys) ≡ last? (y ∷ ys)
last-append [] y ys = refl
last-append (x ∷ []) y ys = refl
last-append (x ∷ z ∷ xs) y ys = last-append (z ∷ xs) y ys

-- Neither name of an ordinary path is that of a temporary copy.
pub ordinary-temporary : (p q : Text) → IsOrdinary p → text_eq p (temporary_name q) ≡ false
ordinary-temporary p q h = differs p (temporary_name q) λ e.
    let both = ap (ends_with temporary_suffix) e ∙ ends_with-temporary_name q in
    let bad = rw h.1 at both in cc

pub disabled-temporary : (p q : Text) → text_eq (disabled_name p) (temporary_name q) ≡ false
disabled-temporary p q = differs (disabled_name p) (temporary_name q) λ e.
    let bad : some 100 ≡ some 112 = sym (last-append p _ _) ∙ ap last? e ∙ last-append q _ _ in
    absurd (ground arith)
