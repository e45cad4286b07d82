-- ===== src/Prelude/Strings.antt =====
-- Python's str as the list of its code points: equality, prefixes, substrings, decimal numbers.
use Prim.Native.Char.{code}
use Prim.Native.String.{String}
use Prim.Native.Nat.{ℕ, zero, suc, ◌+◌, ◌-◌, ◌*◌, ◌/◌, ◌%◌, ◌≤◌, ◌<◌}
use mathlib.Core.Path.{◌≡◌, refl, ap, ap₂, sym, ◌∙◌}
use mathlib.Core.Logic.{◌↔◌, ◌≢◌, inl, inr}
use mathlib.Core.Bool.{Bool, true, false, ◌&&◌, ◌||◌}
use mathlib.Core.Option.{Option, none, some}
use mathlib.Core.List.{List, [], ◌∷◌, ◌++◌}
use native.Mathlib.Omega.{arith}
use minecraft_server_manager.Prelude.Tests.{ltb, leb, ◌==◌, if◌then◌else◌, Eq, Bool-cases}
use minecraft_server_manager.Prelude.Lists.{All}

abbrev pub Text : Type 0
Text = List ℕ

abbrev pub codes : String → Text
codes String.[] = []
codes (String.◌∷◌ c s) = code c ∷ codes s

abbrev pub text_eq : Text → Text → Bool
text_eq [] [] = true
text_eq [] (d ∷ ds) = false
text_eq (c ∷ cs) [] = false
text_eq (c ∷ cs) (d ∷ ds) = (c == d) && text_eq cs ds

pub text_eq_iff : (s t : Text) → (text_eq s t ≡ true) ↔ (s ≡ t)
text_eq_iff [] [] = (λ h. refl, λ h. refl)
text_eq_iff [] (d ∷ ds) = (λ h. cc, λ h. cc)
text_eq_iff (c ∷ cs) [] = (λ h. cc, λ h. cc)
text_eq_iff (c ∷ cs) (d ∷ ds) =
    let rest = text_eq_iff cs ds in (λ h. ground (arith, rest), λ h. ground (arith, rest))

instance abbrev pub text_key : Eq Text
text_key = record { beq = text_eq; beq_iff = text_eq_iff }

-- `text.startswith(prefix)`
abbrev pub starts_with : Text → Text → Bool
starts_with [] text = true
starts_with (c ∷ cs) [] = false
starts_with (c ∷ cs) (d ∷ ds) = (c == d) && starts_with cs ds

-- `needle in text`
abbrev pub contains : Text → Text → Bool
contains needle [] = starts_with needle []
contains needle (c ∷ text) = starts_with needle (c ∷ text) || contains needle text

-- Is `c` the last character of the text?
abbrev pub ends_with_char : ℕ → Text → Bool
ends_with_char c [] = false
ends_with_char c (d ∷ []) = c == d
ends_with_char c (d ∷ e ∷ text) = ends_with_char c (e ∷ text)

decimal_fuel : ℕ → ℕ → Text
decimal_fuel zero n = []
decimal_fuel (suc f) n =
    let front = decimal_fuel f (n / 10) in
    if ltb n 10 then (48 + n) ∷ [] else front ++ (48 + n % 10) ∷ []

-- `str(n)`; a number has at most as many digits as its successor counts.
unfoldable pub decimal : ℕ → Text
unfolding decimal_fuel
decimal n = decimal_fuel (suc n) n

unfoldable pub value_from : ℕ → Text → ℕ
value_from acc [] = acc
value_from acc (c ∷ cs) = value_from (acc * 10 + (c - 48)) cs

value_from-snoc :
    (acc : ℕ) (cs : Text) (c : ℕ)
    → value_from acc (cs ++ c ∷ []) ≡ value_from acc cs * 10 + (c - 48)
unfolding value_from
value_from-snoc acc [] c = refl
value_from-snoc acc (d ∷ cs) c = value_from-snoc (acc * 10 + (d - 48)) cs c

value_from-decimal_fuel : (f n : ℕ) → n < f → value_from 0 (decimal_fuel f n) ≡ n
unfolding decimal_fuel
value_from-decimal_fuel zero n h = elim h [ ]
value_from-decimal_fuel (suc f) n h = elim (Bool-cases (ltb n 10)) [
  | inl small ↦ rw small (unfold value_from in omega arith)
  | inr large ↦
      rw (large, value_from-snoc, value_from-decimal_fuel f (n / 10) (ground arith)) (omega arith)
]

pub value_from-decimal : (n : ℕ) → value_from 0 (decimal n) ≡ n
unfolding decimal
value_from-decimal n = value_from-decimal_fuel (suc n) n (omega arith)

-- Decimal numbers determine the number, and consist of digits.
pub decimal_injective : (m n : ℕ) → decimal m ≡ decimal n → m ≡ n
unfolding decimal
decimal_injective m n e =
    sym (value_from-decimal_fuel (suc m) m (omega arith))
    ∙ ap (value_from 0) e
    ∙ value_from-decimal_fuel (suc n) n (omega arith)

abbrev pub IsDigit : ℕ → Type 0
IsDigit c = (48 ≤ c) × (c ≤ 57)

All-snoc : (cs : Text) (c : ℕ) → All IsDigit cs → IsDigit c → All IsDigit (cs ++ c ∷ [])
All-snoc [] c h d = (d, tt)
All-snoc (b ∷ cs) c h d = (h.0, All-snoc cs c h.1 d)

decimal_fuel-digits : (f n : ℕ) → All IsDigit (decimal_fuel f n)
unfolding decimal_fuel
decimal_fuel-digits zero n = tt
decimal_fuel-digits (suc f) n = elim (Bool-cases (ltb n 10)) [
  | inl small ↦ rw small ((omega arith, ground arith), tt)
  | inr large ↦ rw large (
      All-snoc (decimal_fuel f (n / 10)) (48 + n % 10) (decimal_fuel-digits f (n / 10))
        (omega arith, omega arith))
]

pub decimal-digits : (n : ℕ) → All IsDigit (decimal n)
unfolding decimal
decimal-digits n = decimal_fuel-digits (suc n) n

-- Two runs of digits, each before a full stop: the one is a prefix of the other only if equal.
pub starts_with-digits :
    (s t rest : Text)
    → All IsDigit s
    → All IsDigit t
    → starts_with (s ++ 46 ∷ []) (t ++ 46 ∷ rest) ≡ true
    → s ≡ t
starts_with-digits [] [] rest ds dt h = refl
starts_with-digits [] (c ∷ t) rest ds dt h = ground arith
starts_with-digits (c ∷ s) [] rest ds dt h = ground arith
starts_with-digits (c ∷ s) (d ∷ t) rest ds dt h =
    ap₂ (λ a l. a ∷ l) (ground arith) (starts_with-digits s t rest ds.1 dt.1 (ground arith))

pub starts_with-append : (p s t : Text) → starts_with (p ++ s) (p ++ t) ≡ starts_with s t
starts_with-append [] s t = refl
starts_with-append (c ∷ p) s t = ground (arith, starts_with-append p s t)

pub starts_with_self : (s t : Text) → starts_with s (s ++ t) ≡ true
starts_with_self [] t = refl
starts_with_self (c ∷ s) t = ground (arith, starts_with_self s t)

pub ends_with_char-snoc : (c : ℕ) (s : Text) → ends_with_char c (s ++ c ∷ []) ≡ true
ends_with_char-snoc c [] = ground arith
ends_with_char-snoc c (d ∷ []) = ground arith
ends_with_char-snoc c (d ∷ e ∷ s) = ends_with_char-snoc c (e ∷ s)

abbrev pub is_digit : ℕ → Bool
is_digit c = leb 48 c && leb c 57

abbrev digits_only : Text → Bool
digits_only [] = true
digits_only (c ∷ cs) = is_digit c && digits_only cs

-- `int(text)` of ASCII digits; none is the ValueError.
unfoldable pub read_int : Text → Option ℕ
read_int [] = none
read_int (c ∷ cs) = if digits_only (c ∷ cs) then some (value_from 0 (c ∷ cs)) else none

digits_only-All : (s : Text) → All IsDigit s → digits_only s ≡ true
digits_only-All [] h = refl
digits_only-All (c ∷ cs) h = ground (arith, digits_only-All cs h.1)

read_int-digits : (s : Text) → s ≢ [] → All IsDigit s → read_int s ≡ some (value_from 0 s)
unfolding read_int
read_int-digits [] h d = absurd (h refl)
read_int-digits (c ∷ cs) h d = rw (digits_only-All (c ∷ cs) d) refl

snoc_not_empty : (s : Text) (c : ℕ) → s ++ c ∷ [] ≢ []
snoc_not_empty [] c = λ h. cc
snoc_not_empty (d ∷ s) c = λ h. cc

decimal_not_empty : (n : ℕ) → decimal n ≢ []
unfolding decimal decimal_fuel
decimal_not_empty n = elim (Bool-cases (ltb n 10)) [
  | inl small ↦ rw small (λ h. cc)
  | inr large ↦ rw large (snoc_not_empty _ _)
]

-- A number is read back from its decimal form.
pub read_int-decimal : (n : ℕ) → read_int (decimal n) ≡ some n
read_int-decimal n =
    read_int-digits (decimal n) (decimal_not_empty n) (decimal-digits n)
    ∙ ap some (value_from-decimal n)

abbrev first_part : ℕ → List Text → List Text
first_part c [] = (c ∷ []) ∷ []
first_part c (p ∷ ps) = (c ∷ p) ∷ ps

-- `text.split(separator)` at one character.
abbrev pub split : ℕ → Text → List Text
split separator [] = [] ∷ []
split separator (c ∷ cs) =
    let rest = split separator cs in if separator == c then [] ∷ rest else first_part c rest

abbrev pub has_char : ℕ → Text → Bool
has_char c [] = false
has_char c (d ∷ ds) = (c == d) || has_char c ds

pub split-part :
    (c : ℕ) (part rest : Text)
    → has_char c part ≡ false
    → split c (part ++ c ∷ rest) ≡ part ∷ split c rest
split-part c [] rest h = ground arith
split-part c (d ∷ part) rest h =
    let ih = split-part c part rest (ground arith) in
    let other : (c == d) ≡ false = ground arith in rw (other, ih) refl

pub split-last : (c : ℕ) (part : Text) → has_char c part ≡ false → split c part ≡ part ∷ []
split-last c [] h = refl
split-last c (d ∷ part) h =
    let ih = split-last c part (ground arith) in
    let other : (c == d) ≡ false = ground arith in rw (other, ih) refl

pub has_char-digits : (s : Text) → All IsDigit s → has_char 46 s ≡ false
has_char-digits [] h = refl
has_char-digits (c ∷ cs) h = ground (arith, has_char-digits cs h.1)

pub text_eq-append : (p s t : Text) → text_eq (p ++ s) (p ++ t) ≡ text_eq s t
text_eq-append [] s t = refl
text_eq-append (c ∷ p) s t = ground (arith, text_eq-append p s t)

pub ends_with_char-append :
    (c : ℕ) (p : Text) (d : ℕ) (ds : Text)
    → ends_with_char c (p ++ d ∷ ds) ≡ ends_with_char c (d ∷ ds)
ends_with_char-append c [] d ds = refl
ends_with_char-append c (a ∷ []) d ds = refl
ends_with_char-append c (a ∷ b ∷ p) d ds = ends_with_char-append c (b ∷ p) d ds

-- The order of texts, by code points.
abbrev pub text_ltb : Text → Text → Bool
text_ltb [] [] = false
text_ltb [] (d ∷ ds) = true
text_ltb (c ∷ cs) [] = false
text_ltb (c ∷ cs) (d ∷ ds) = if c == d then text_ltb cs ds else ltb c d
