-- ===== src/Core/Commands/Injection.antt =====
-- commands.py: a line feed between two parts of a command is refused; what the builders send.
use minecraft_server_manager.Prelude.{
  ℕ, true, false, ◌&&◌, ◌||◌, not, some, [], ◌∷◌, ◌++◌, ◌==◌, Text, Bool-cases, ◌≡◌, refl, ap, ◌∙◌,
  arith, ends_with_char, inl, inr,
}
use minecraft_server_manager.Prelude.Fallible.{failed}
use minecraft_server_manager.Prelude.Trim.{
  strip, remove_crlf, remove_char, is_empty, is_space, drop_while, visible, rstrip, rstrip-full,
  rstrip-visible,
}
use minecraft_server_manager.Core.Commands.{
  forbidden_character, is_forbidden, search_forbidden, candidate, check_candidate, sanitize_command,
}

remove_crlf-lf :
    (a b : Text)
    → ends_with_char 13 a ≡ false
    → remove_crlf (a ++ 10 ∷ b) ≡ remove_crlf a ++ remove_crlf (10 ∷ b)
unfolding remove_crlf
remove_crlf-lf [] b h = refl
remove_crlf-lf (c ∷ []) b h =
    let plain : ((c == 13) && (10 == 10)) ≡ false = ground arith in rw (plain, remove_crlf) refl
remove_crlf-lf (c ∷ d ∷ []) b h = elim (Bool-cases ((c == 13) && (d == 10))) [
  | inl pair ↦ rw (pair, remove_crlf) refl
  | inr plain ↦ rw (plain, remove_crlf) (ap (λ t. c ∷ t) (remove_crlf-lf (d ∷ []) b h))
]
remove_crlf-lf (c ∷ d ∷ e ∷ a) b h = elim (Bool-cases ((c == 13) && (d == 10))) [
  | inl pair ↦ rw (pair, remove_crlf) (remove_crlf-lf (e ∷ a) b h)
  | inr plain ↦ rw (plain, remove_crlf) (ap (λ t. c ∷ t) (remove_crlf-lf (d ∷ e ∷ a) b h))
]

remove_crlf-start : (b : Text) → remove_crlf (10 ∷ b) ≡ 10 ∷ remove_crlf b
unfolding remove_crlf
remove_crlf-start [] = refl
remove_crlf-start (c ∷ b) = refl

remove_char-append :
    (c : ℕ) (a b : Text) → remove_char c (a ++ b) ≡ remove_char c a ++ remove_char c b
remove_char-append c [] b = refl
remove_char-append c (d ∷ a) b = elim (Bool-cases (c == d)) [
  | inl same ↦ rw same (remove_char-append c a b)
  | inr other ↦ rw other (ap (λ t. d ∷ t) (remove_char-append c a b))
]

remove_crlf-visible : (a : Text) → visible (remove_crlf a) ≡ visible a
unfolding remove_crlf is_space
remove_crlf-visible [] = refl
remove_crlf-visible (c ∷ []) = refl
remove_crlf-visible (c ∷ d ∷ a) = elim (Bool-cases ((c == 13) && (d == 10))) [
  | inl pair ↦
      let blank : is_space c ≡ true = ground arith in
      let blank' : is_space d ≡ true = ground arith in
      rw (pair, remove_crlf, blank, blank') (remove_crlf-visible a)
  | inr plain ↦
      rw (plain, remove_crlf) (ap (λ v. not (is_space c) || v) (remove_crlf-visible (d ∷ a)))
]

remove_char-visible : (a : Text) → visible (remove_char 13 a) ≡ visible a
unfolding is_space
remove_char-visible [] = refl
remove_char-visible (c ∷ a) = elim (Bool-cases (13 == c)) [
  | inl same ↦
      let blank : is_space c ≡ true = ground arith in rw (same, blank) (remove_char-visible a)
  | inr other ↦ rw other (ap (λ v. not (is_space c) || v) (remove_char-visible a))
]

abbrev without_cr : Text → Text
without_cr a = remove_char 13 (remove_crlf a)

without_cr-visible : (a : Text) → visible (without_cr a) ≡ visible a
without_cr-visible a = remove_char-visible (remove_crlf a) ∙ remove_crlf-visible a

without_cr-lf :
    (a b : Text)
    → ends_with_char 13 a ≡ false
    → without_cr (a ++ 10 ∷ b) ≡ without_cr a ++ 10 ∷ without_cr b
without_cr-lf a b h =
    ap (remove_char 13) (remove_crlf-lf a b h)
    ∙ remove_char-append 13 (remove_crlf a) (remove_crlf (10 ∷ b))
    ∙ ap (λ t. remove_char 13 (remove_crlf a) ++ remove_char 13 t) (remove_crlf-start b)

drop_while-visible :
    (a t : Text) → visible a ≡ true → drop_while is_space (a ++ t) ≡ drop_while is_space a ++ t
drop_while-visible [] t h = cc
drop_while-visible (c ∷ a) t h = elim (Bool-cases (is_space c)) [
  | inl blank ↦ rw blank (drop_while-visible a t (rw blank at h))
  | inr other ↦ rw other refl
]

visible-cons : (c : ℕ) (b : Text) → visible b ≡ true → visible (c ∷ b) ≡ true
visible-cons c b h = ground arith

strip-between :
    (a b : Text)
    → visible a ≡ true
    → visible b ≡ true
    → strip (a ++ 10 ∷ b) ≡ drop_while is_space a ++ rstrip (10 ∷ b)
unfolding strip
strip-between a b ha hb =
    ap rstrip (drop_while-visible a (10 ∷ b) ha)
    ∙ rstrip-visible (drop_while is_space a) (10 ∷ b) (visible-cons 10 b hb)

rstrip-line_feed : (b : Text) → visible b ≡ true → rstrip (10 ∷ b) ≡ 10 ∷ rstrip b
rstrip-line_feed b h = rw (rstrip-full b h) refl

search_forbidden-line_feed : (a b : Text) → (bad : ℕ) × (search_forbidden (a ++ 10 ∷ b) ≡ some bad)
unfolding search_forbidden
search_forbidden-line_feed [] b = (10, refl)
search_forbidden-line_feed (c ∷ a) b = elim (Bool-cases (is_forbidden c)) [
  | inl bad ↦ (c, rw bad refl)
  | inr fine ↦ let (bad, e) = search_forbidden-line_feed a b in (bad, rw fine e)
]

append-cons_full : (a b : Text) → is_empty (a ++ 10 ∷ b) ≡ false
append-cons_full [] b = refl
append-cons_full (c ∷ a) b = refl

check_candidate-line_feed :
    (a b : Text) → (bad : ℕ) × (check_candidate (a ++ 10 ∷ b) ≡ failed (forbidden_character bad))
unfolding check_candidate
check_candidate-line_feed a b =
    let (bad, e) = search_forbidden-line_feed a b in (bad, rw (append-cons_full a b, e) refl)

-- Two texts that are not blank, with a line feed between them that does not follow a carriage
-- return, are refused as a forbidden character: the second never reaches the server.
pub line_feed_refused :
    (a b : Text)
    → visible a ≡ true
    → visible b ≡ true
    → ends_with_char 13 a ≡ false
    → (bad : ℕ) × (sanitize_command (a ++ 10 ∷ b) ≡ failed (forbidden_character bad))
unfolding sanitize_command candidate
line_feed_refused a b ha hb plain =
    let (bad, e) =
      check_candidate-line_feed (drop_while is_space (without_cr a)) (rstrip (without_cr b)) in
    let shape : candidate (a ++ 10 ∷ b)
        ≡ drop_while is_space (without_cr a) ++ 10 ∷ rstrip (without_cr b) =
      ap strip (without_cr-lf a b plain)
      ∙ strip-between (without_cr a) (without_cr b) (without_cr-visible a ∙ ha)
          (without_cr-visible b ∙ hb)
      ∙ ap (λ t. drop_while is_space (without_cr a) ++ t)
          (rstrip-line_feed (without_cr b) (without_cr-visible b ∙ hb)) in
    (bad, ap check_candidate shape ∙ e)
