-- ===== src/Core/Commands/Verbs.antt =====
-- commands.py: the verb of a command does not depend on a namespace before it.
use minecraft_server_manager.Prelude.{
  ℕ, Bool, true, false, ◌&&◌, not, [], ◌∷◌, ◌++◌, ◌==◌, all, Text, Bool-cases, ◌≡◌, refl, ap, sym,
  ◌∙◌, arith, inl, inr, has_char, starts_with, append_assoc,
}
use minecraft_server_manager.Prelude.Trim.{
  strip, is_space, drop_while, visible, rstrip, rstrip-visible,
}
use minecraft_server_manager.Core.Commands.{
  casefold, after_colon, first_word, slash_or_blank, command_verb,
}

has_char-append : (c : ℕ) (x y : Text) → has_char c (x ++ c ∷ y) ≡ true
has_char-append c [] y = ground arith
has_char-append c (d ∷ x) y = ground (arith, has_char-append c x y)

after_colon-plain : (y : Text) → has_char 58 y ≡ false → after_colon y ≡ y
after_colon-plain [] h = refl
after_colon-plain (c ∷ cs) h = ground arith

after_colon-append : (x y : Text) → after_colon (x ++ 58 ∷ y) ≡ after_colon y
after_colon-append [] y = elim (Bool-cases (has_char 58 y)) [
  | inl more ↦ rw more refl
  | inr plain ↦ rw plain (sym (after_colon-plain y plain))
]
after_colon-append (c ∷ x) y = rw (has_char-append 58 x y) (after_colon-append x y)

first_word-append :
    (x y : Text)
    → all (λ c. not (is_space c)) x ≡ true
    → first_word (x ++ 58 ∷ y) ≡ x ++ 58 ∷ first_word y
unfolding is_space
first_word-append [] y h = refl
first_word-append (c ∷ x) y h =
    let solid : is_space c ≡ false = ground arith in
    rw solid (ap (λ t. c ∷ t) (first_word-append x y (ground arith)))

casefold-append :
    (fold : ℕ → Text) (x y : Text) → casefold fold (x ++ y) ≡ casefold fold x ++ casefold fold y
casefold-append fold [] y = refl
casefold-append fold (c ∷ x) y =
    ap (λ t. fold c ++ t) (casefold-append fold x y)
    ∙ sym (append_assoc (fold c) (casefold fold x) (casefold fold y))

-- Neither a blank nor a slash at the start.
abbrev pub starts_solid : Text → Bool
starts_solid [] = false
starts_solid (c ∷ cs) = not (is_space c) && not (c == 47)

not-slash_or_blank : (c : ℕ) → (not (is_space c) && not (c == 47)) ≡ true → slash_or_blank c ≡ false
unfolding is_space
not-slash_or_blank c h = ground arith

solid-strip : (s : Text) → starts_solid s ≡ true → strip (drop_while slash_or_blank s) ≡ rstrip s
unfolding strip
solid-strip [] h = cc
solid-strip (c ∷ cs) h =
    let no_slash = not-slash_or_blank c h in
    let no_blank : is_space c ≡ false = ground arith in
    let kept : drop_while is_space (drop_while slash_or_blank (c ∷ cs)) ≡ c ∷ cs =
      rw (no_slash, no_blank) refl in
    ap (λ t. rstrip t) kept

solid-visible : (s : Text) → starts_solid s ≡ true → visible s ≡ true
solid-visible [] h = cc
solid-visible (c ∷ cs) h = ground arith

solid_start :
    (c : ℕ) → is_space c ≡ false → (c == 47) ≡ false → (not (is_space c) && not (c == 47)) ≡ true
solid_start c h k = rw (h, k) refl

solid-append :
    (x y : Text)
    → all (λ c. not (is_space c)) x ≡ true
    → starts_with (47 ∷ []) x ≡ false
    → starts_solid (x ++ 58 ∷ y) ≡ true
unfolding is_space
solid-append [] y h k = refl
solid-append (c ∷ x) y h k = solid_start c (ground arith) (ground arith)

-- A namespace without blanks and without a leading slash leaves the verb of a command as it was,
-- where the command starts with neither a blank nor a slash and casefold keeps the colon.
pub command_verb-namespace :
    (fold : ℕ → Text)
    → fold 58 ≡ 58 ∷ []
    → (namespace command : Text) → all (λ c. not (is_space c)) namespace ≡ true
    → starts_with (47 ∷ []) namespace ≡ false
    → starts_solid command ≡ true
    → command_verb fold (namespace ++ 58 ∷ command) ≡ command_verb fold command
unfolding command_verb
command_verb-namespace fold colon namespace command solid no_slash start =
    let text : strip (drop_while slash_or_blank (namespace ++ 58 ∷ command))
        ≡ namespace ++ 58 ∷ rstrip command =
      solid-strip (namespace ++ 58 ∷ command) (solid-append namespace command solid no_slash)
      ∙ ap (λ s. rstrip s) (sym (append_assoc namespace (58 ∷ []) command))
      ∙ rstrip-visible (namespace ++ 58 ∷ []) command (solid-visible command start)
      ∙ append_assoc namespace (58 ∷ []) (rstrip command) in
    ap (λ s. after_colon (casefold fold (first_word s))) text
    ∙ ap (λ s. after_colon (casefold fold s)) (first_word-append namespace (rstrip command) solid)
    ∙ ap after_colon (casefold-append fold namespace (58 ∷ first_word (rstrip command)))
    ∙ ap
        (λ s.
          after_colon
            (casefold fold namespace ++ (s ++ casefold fold (first_word (rstrip command)))))
        colon
    ∙ after_colon-append (casefold fold namespace) (casefold fold (first_word (rstrip command)))
    ∙ ap (λ s. after_colon (casefold fold (first_word s))) (sym (solid-strip command start))
