-- ===== src/Core/Commands/Safe.antt =====
-- commands.py: what sanitize_command lets through, and a line feed that it refuses.
use minecraft_server_manager.Prelude.{
  ℕ, ◌≤◌, Bool, true, false, ◌&&◌, not, none, [], ◌∷◌, length, ltb, leb, ◌==◌, ◌||◌, all, Text,
  Bool-cases, Option-cases, ◌≡◌, refl, ap, ◌∙◌, arith, inl, inr, starts_with, subst,
}
use minecraft_server_manager.Prelude.Fallible.{done}
use minecraft_server_manager.Prelude.Trim.{
  strip, remove_crlf, remove_char, is_empty, strip-all, strip-length, strip_idem,
}
use minecraft_server_manager.Core.Commands.{
  search_forbidden, remove_slash, or_empty, candidate, check_length, check_candidate,
  sanitize_command, max_command_length,
}

-- The tabulation, and every character from the space on but U+007F.
abbrev pub allowed : ℕ → Bool
allowed c = c == 9 || (leb 32 c && not (c == 127))

-- One line that may be written: no ASCII control character but the tabulation, not empty, not too
-- long, no blank around it.
abbrev pub IsOneLine : Text → Type 0
IsOneLine command =
    (all allowed command ≡ true)
    × (1 ≤ length command)
    × (length command ≤ max_command_length)
    × (strip command ≡ command)

search_forbidden-none : (text : Text) → search_forbidden text ≡ none → all allowed text ≡ true
unfolding search_forbidden
search_forbidden-none [] h = refl
search_forbidden-none (c ∷ cs) h = ground (arith, search_forbidden-none cs)

remove_slash-all : (text : Text) → all allowed text ≡ true → all allowed (remove_slash text) ≡ true
remove_slash-all [] h = refl
remove_slash-all (c ∷ cs) h = elim (Bool-cases (c == 47)) [
  | inl slash ↦ rw slash (ground arith)
  | inr other ↦ rw other h
]

remove_slash-length : (text : Text) → length (remove_slash text) ≤ length text
remove_slash-length [] = omega arith
remove_slash-length (c ∷ cs) = ground arith

or_empty-done :
    (text : Text) {command : Text}
    → or_empty text ≡ done command
    → (1 ≤ length command) × (text ≡ command)
unfolding or_empty
or_empty-done [] h = cc
or_empty-done (c ∷ cs) h = ground arith

check_length-IsOneLine :
    (text : Text) {command : Text}
    → all allowed text ≡ true
    → check_length text ≡ done command
    → IsOneLine command
unfolding check_length
check_length-IsOneLine text {command} clean h =
    elim (Bool-cases (ltb max_command_length (length text))) [
      | inl long ↦ let bad = rw long at h in cc
      | inr short ↦
          let kept = or_empty-done (strip (remove_slash text)) (rw short at h) in
          let shorter = strip-length (remove_slash text) in
          let shortest = remove_slash-length text in
          let size = ap length kept.1 in
          (
            subst (λ t. all allowed t ≡ true) kept.1
                (strip-all allowed (remove_slash text) (remove_slash-all text clean)),
            kept.0,
            ground arith,
            subst (λ t. strip t ≡ t) kept.1 (strip_idem (remove_slash text)),
          )
    ]

-- Whatever the text submitted, a command that is accepted has no control character of ASCII (U+0000 to
-- U+001F, and U+007F) but the tabulation, so neither a line feed nor a carriage return, has from 1 to
-- 32500 characters, and no blank around it. The control characters U+0080 to U+009F may be in it.
pub sanitize_command-IsOneLine :
    (raw : Text) {command : Text} → sanitize_command raw ≡ done command → IsOneLine command
unfolding sanitize_command check_candidate
sanitize_command-IsOneLine raw {command} h = elim (Bool-cases (is_empty (candidate raw))) [
  | inl nothing ↦ let bad = rw nothing at h in cc
  | inr something ↦ elim (Option-cases (search_forbidden (candidate raw))) [
    | inl fine ↦
        check_length-IsOneLine (candidate raw) (search_forbidden-none (candidate raw) fine)
          (rw (something, fine) at h)
    | inr (c, bad) ↦ let no_command = rw (something, bad) at h in cc
  ]
]

or_empty-text : (text : Text) → is_empty text ≡ false → or_empty text ≡ done text
unfolding or_empty
or_empty-text [] h = cc
or_empty-text (c ∷ cs) h = refl

allowed-search : (text : Text) → all allowed text ≡ true → search_forbidden text ≡ none
unfolding search_forbidden
allowed-search [] h = refl
allowed-search (c ∷ cs) h = ground (arith, allowed-search cs)

remove_crlf-allowed : (text : Text) → all allowed text ≡ true → remove_crlf text ≡ text
unfolding remove_crlf
remove_crlf-allowed [] h = refl
remove_crlf-allowed (c ∷ []) h = refl
remove_crlf-allowed (c ∷ d ∷ cs) h =
    let plain : ((c == 13) && (d == 10)) ≡ false = ground arith in
    rw (plain, remove_crlf) (ap (λ t. c ∷ t) (remove_crlf-allowed (d ∷ cs) (ground arith)))

remove_char-allowed : (text : Text) → all allowed text ≡ true → remove_char 13 text ≡ text
remove_char-allowed [] h = refl
remove_char-allowed (c ∷ cs) h =
    let plain : (13 == c) ≡ false = ground arith in
    rw plain (ap (λ t. c ∷ t) (remove_char-allowed cs (ground arith)))

candidate-IsOneLine : (command : Text) → IsOneLine command → candidate command ≡ command
unfolding candidate
candidate-IsOneLine command h =
    ap (λ t. strip (remove_char 13 t)) (remove_crlf-allowed command h.0)
    ∙ ap strip (remove_char-allowed command h.0)
    ∙ h.3

remove_slash-plain : (text : Text) → starts_with (47 ∷ []) text ≡ false → remove_slash text ≡ text
remove_slash-plain [] h = refl
remove_slash-plain (c ∷ cs) h = ground arith

not_empty : (text : Text) → 1 ≤ length text → is_empty text ≡ false
not_empty [] h = absurd (omega arith)
not_empty (c ∷ cs) h = refl

check_length-keeps :
    (command : Text)
    → IsOneLine command
    → starts_with (47 ∷ []) command ≡ false
    → check_length command ≡ done command
unfolding check_length
check_length-keeps command h plain =
    let short : ltb max_command_length (length command) ≡ false = ground arith in
    rw (short, remove_slash-plain command plain, h.3)
      (or_empty-text command (not_empty command h.1))

-- A command of that form that does not begin with a slash is accepted, and unchanged.
pub sanitize_command-keeps :
    (command : Text)
    → IsOneLine command
    → starts_with (47 ∷ []) command ≡ false
    → sanitize_command command ≡ done command
unfolding sanitize_command check_candidate
sanitize_command-keeps command h plain =
    let checked : check_candidate command ≡ done command =
      rw (not_empty command h.1, allowed-search command h.0) (check_length-keeps command h plain) in
    ap check_candidate (candidate-IsOneLine command h) ∙ checked
