-- ===== src/Prelude/Trim.antt =====
-- `str.strip` and its halves, `str.replace` of a line end, and what they keep of a text.
use Prim.Native.Nat.{ℕ, ◌≤◌}
use mathlib.Core.Path.{◌≡◌, refl, ap, ◌∙◌}
use mathlib.Core.Logic.{inl, inr}
use mathlib.Core.Bool.{Bool, true, false, ◌&&◌, ◌||◌, not}
use mathlib.Core.List.{List, [], ◌∷◌, ◌++◌}
use native.Mathlib.Omega.{arith}
use minecraft_server_manager.Prelude.Tests.{leb, ◌==◌, if◌then◌else◌, Bool-cases}
use minecraft_server_manager.Prelude.Lists.{length, any, all, keep}
use minecraft_server_manager.Prelude.Strings.{Text}

-- `str.isspace` of a character.
unfoldable pub is_space : ℕ → Bool
is_space c =
    (leb 9 c && leb c 13)
    || (leb 28 c && leb c 32)
    || (c == 133)
    || (c == 160)
    || (c == 5760)
    || (leb 8192 c && leb c 8202)
    || (c == 8232)
    || (c == 8233)
    || (c == 8239)
    || (c == 8287)
    || (c == 12288)

abbrev pub is_empty {ℓ} : {A : Type ℓ} → List A → Bool
is_empty [] = true
is_empty (x ∷ xs) = false

abbrev pub drop_while : (ℕ → Bool) → Text → Text
drop_while p [] = []
drop_while p (c ∷ cs) = let rest = drop_while p cs in if p c then rest else c ∷ cs

abbrev pub rstrip : Text → Text
rstrip [] = []
rstrip (c ∷ cs) = let rest = rstrip cs in if is_empty rest && is_space c then [] else c ∷ rest

-- `text.strip()`
unfoldable pub strip : Text → Text
strip text = rstrip (drop_while is_space text)

-- `text.replace("\r\n", "")`
unfoldable pub remove_crlf : Text → Text
remove_crlf [] = []
remove_crlf (c ∷ []) = c ∷ []
remove_crlf (c ∷ d ∷ cs) = elim ((c == 13) && (d == 10)) [
  | true ↦ remove_crlf cs
  | false ↦ c ∷ remove_crlf (d ∷ cs)
]

-- `text.replace(c, "")` of one character
abbrev pub remove_char : ℕ → Text → Text
remove_char c text = keep (λ d. not (c == d)) text

abbrev pub visible : Text → Bool
visible text = any (λ c. not (is_space c)) text

pub length-drop_while : (p : ℕ → Bool) (s : Text) → length (drop_while p s) ≤ length s
length-drop_while p [] = omega arith
length-drop_while p (c ∷ cs) = ground (arith, length-drop_while p cs)

pub drop_while-all : (p q : ℕ → Bool) (s : Text) → all q s ≡ true → all q (drop_while p s) ≡ true
drop_while-all p q [] h = refl
drop_while-all p q (c ∷ cs) h = ground (arith, drop_while-all p q cs)

rstrip-length : (s : Text) → length (rstrip s) ≤ length s
rstrip-length [] = omega arith
rstrip-length (c ∷ cs) = ground (arith, rstrip-length cs)

rstrip-all : (q : ℕ → Bool) (s : Text) → all q s ≡ true → all q (rstrip s) ≡ true
rstrip-all q [] h = refl
rstrip-all q (c ∷ cs) h =
    let ih = rstrip-all q cs (ground arith) in
    elim (Bool-cases (is_empty (rstrip cs) && is_space c)) [
      | inl gone ↦ rw gone refl
      | inr kept ↦ rw kept (ground arith)
    ]

pub strip-length : (s : Text) → length (strip s) ≤ length s
unfolding strip
strip-length s =
    let a = rstrip-length (drop_while is_space s) in
    let b = length-drop_while is_space s in omega arith

pub strip-all : (q : ℕ → Bool) (s : Text) → all q s ≡ true → all q (strip s) ≡ true
unfolding strip
strip-all q s h = rstrip-all q (drop_while is_space s) (drop_while-all is_space q s h)

rstrip_idem : (s : Text) → rstrip (rstrip s) ≡ rstrip s
rstrip_idem [] = refl
rstrip_idem (c ∷ cs) = elim (Bool-cases (is_empty (rstrip cs) && is_space c)) [
  | inl gone ↦ rw gone refl
  | inr kept ↦ rw (kept, rstrip_idem cs, kept) refl
]

rstrip-start : (c : ℕ) (s : Text) → is_space c ≡ false → rstrip (c ∷ s) ≡ c ∷ rstrip s
rstrip-start c s h = elim (Bool-cases (is_empty (rstrip s))) [
  | inl e ↦ rw (e, h) refl
  | inr e ↦ rw e refl
]

drop_while-rstrip :
    (s : Text)
    → drop_while is_space (rstrip (drop_while is_space s)) ≡ rstrip (drop_while is_space s)
drop_while-rstrip [] = refl
drop_while-rstrip (c ∷ cs) = elim (Bool-cases (is_space c)) [
  | inl space ↦ rw space (drop_while-rstrip cs)
  | inr other ↦ rw (other, rstrip-start c cs other, other) refl
]

pub strip_idem : (s : Text) → strip (strip s) ≡ strip s
unfolding strip
strip_idem s = ap rstrip (drop_while-rstrip s) ∙ rstrip_idem (drop_while is_space s)

pub rstrip-full : (b : Text) → visible b ≡ true → is_empty (rstrip b) ≡ false
rstrip-full [] h = cc
rstrip-full (c ∷ b) h = elim (Bool-cases (is_empty (rstrip b) && is_space c)) [
  | inl gone ↦
      let blank : is_space c ≡ true = ground arith in
      let full = rstrip-full b (rw blank at h) in absurd (ground arith)
  | inr kept ↦ rw kept refl
]

append-full : (a b : Text) → is_empty b ≡ false → is_empty (a ++ b) ≡ false
append-full [] b h = h
append-full (c ∷ a) b h = refl

pub rstrip-visible : (a b : Text) → visible b ≡ true → rstrip (a ++ b) ≡ a ++ rstrip b
rstrip-visible [] b h = refl
rstrip-visible (c ∷ a) b h =
    rw (rstrip-visible a b h, append-full a (rstrip b) (rstrip-full b h)) refl
