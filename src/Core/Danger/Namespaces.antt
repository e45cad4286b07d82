-- ===== src/Core/Danger/Namespaces.antt =====
-- danger.py: which commands need a confirmation, and that a namespace does not evade it.
use minecraft_server_manager.Prelude.{
  ℕ, Bool, true, false, ◌||◌, not, [], ◌∷◌, ◌++◌, if◌then◌else◌, all, Text, ◌≡◌, refl, ap, sym, ◌∙◌,
  starts_with,
}
use minecraft_server_manager.Prelude.Trim.{is_space, is_empty}
use minecraft_server_manager.Core.Commands.{command_verb}
use minecraft_server_manager.Core.Commands.Verbs.{starts_solid, command_verb-namespace}
use minecraft_server_manager.Core.Danger.{
  sensitive_verbs, destructive_verbs, is_broad, level_of, is_safe, arguments, is_verb_of, classify,
  requires_confirmation,
}

level_of_unsafe :
    (e d s b : Bool) → not (is_safe (level_of e d s b)) ≡ (if e then false else d || s)
level_of_unsafe true d s b = refl
level_of_unsafe false true s b = refl
level_of_unsafe false false true true = refl
level_of_unsafe false false true false = refl
level_of_unsafe false false false b = refl

no_verb_listed :
    (verb : Text)
    → (if is_empty verb
        then false
        else is_verb_of destructive_verbs verb || is_verb_of sensitive_verbs verb)
      ≡ (is_verb_of destructive_verbs verb || is_verb_of sensitive_verbs verb)
unfolding destructive_verbs sensitive_verbs
no_verb_listed [] = refl
no_verb_listed (c ∷ cs) = refl

-- A command needs a confirmation exactly if its verb is one of the two lists'.
requires_confirmation-verb :
    (fold : ℕ → Text) (is_word : ℕ → Bool) (command : Text)
    → requires_confirmation fold is_word command ≡ (
        is_verb_of destructive_verbs (command_verb fold command)
        || is_verb_of sensitive_verbs (command_verb fold command))
unfolding requires_confirmation classify
requires_confirmation-verb fold is_word command =
    level_of_unsafe _ _ _ (is_broad is_word (arguments fold command (command_verb fold command)))
    ∙ no_verb_listed (command_verb fold command)

-- A namespace does not evade the confirmation: a command needs one exactly if the same command
-- behind a namespace does, where the namespace has no blank and no leading slash, the command
-- starts with neither, and casefold keeps the colon.
pub requires_confirmation_namespace :
    (fold : ℕ → Text) (is_word : ℕ → Bool)
    → fold 58 ≡ 58 ∷ []
    → (namespace command : Text) → all (λ c. not (is_space c)) namespace ≡ true
    → starts_with (47 ∷ []) namespace ≡ false
    → starts_solid command ≡ true
    → requires_confirmation fold is_word (namespace ++ 58 ∷ command)
      ≡ requires_confirmation fold is_word command
requires_confirmation_namespace fold is_word colon namespace command solid no_slash start =
    requires_confirmation-verb fold is_word (namespace ++ 58 ∷ command)
    ∙ ap (λ v. is_verb_of destructive_verbs v || is_verb_of sensitive_verbs v)
        (command_verb-namespace fold colon namespace command solid no_slash start)
    ∙ sym (requires_confirmation-verb fold is_word command)
