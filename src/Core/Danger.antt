-- ===== src/Core/Danger.antt =====
-- backend/msm/core/danger.py: how dangerous a console command is. `casefold` of a character and
-- the test of a word character, `\w`, are Python's and stand as parameters.
pub mod Namespaces
use minecraft_server_manager.Prelude.{
  ℕ, Bool, true, false, ◌&&◌, ◌||◌, not, List, [], ◌∷◌, ◌++◌, ◌==◌, if◌then◌else◌, any, map, drop,
  length, Text, codes, text_eq, starts_with,
}
use minecraft_server_manager.Prelude.Trim.{is_empty}
use minecraft_server_manager.Core.Commands.{casefold, command_verb}

pub data DangerLevel : Type 0 where
  safe : DangerLevel
  sensitive : DangerLevel
  destructive : DangerLevel

unfoldable pub sensitive_verbs : List Text
sensitive_verbs = map codes (
    "op" ∷ "deop" ∷ "ban" ∷ "ban-ip" ∷ "banip" ∷ "pardon" ∷ "pardon-ip" ∷ "whitelist" ∷ "save-all"
    ∷ "save-off" ∷ "save-on" ∷ "gamerule" ∷ "difficulty" ∷ "defaultgamemode" ∷ "setworldspawn"
    ∷ "setidletimeout" ∷ "reload" ∷ "datapack" ∷ "worldborder" ∷ "debug" ∷ "perf" ∷ "jfr"
    ∷ "publish" ∷ "forceload" ∷ [])

unfoldable pub destructive_verbs : List Text
destructive_verbs =
    map codes ("stop" ∷ "restart" ∷ "end" ∷ "shutdown" ∷ "kill" ∷ "deleteworld" ∷ [])

-- `\[|\b` after a letter.
abbrev ends_selector : (ℕ → Bool) → Text → Bool
ends_selector is_word [] = true
ends_selector is_word (c ∷ cs) = (c == 91) || not (is_word c)

abbrev selects_all : (ℕ → Bool) → Text → Bool
selects_all is_word (at ∷ c ∷ cs) =
    (at == 64) && ((c == 97) || (c == 101)) && ends_selector is_word cs
selects_all is_word text = false

-- `@[ae](\[|\b)`, searched for.
unfoldable pub is_broad : (ℕ → Bool) → Text → Bool
is_broad is_word [] = false
is_broad is_word (c ∷ cs) = selects_all is_word (c ∷ cs) || is_broad is_word cs

abbrev pub is_verb_of : List Text → Text → Bool
is_verb_of verbs verb = any (text_eq verb) verbs

-- What is searched for a selector: the command without its verb, where it starts with it.
abbrev pub arguments : (ℕ → Text) → Text → Text → Text
arguments fold command verb =
    if starts_with verb (casefold fold command) then drop (length verb) command else command

-- The early returns, over their conditions.
abbrev pub level_of : Bool → Bool → Bool → Bool → DangerLevel
level_of no_verb is_destructive_verb is_sensitive_verb broad =
    if no_verb
    then safe
    else if is_destructive_verb
    then destructive
    else if is_sensitive_verb
    then (if broad then destructive else sensitive)
    else safe

unfoldable pub classify : (ℕ → Text) → (ℕ → Bool) → Text → DangerLevel
classify fold is_word command =
    let verb = command_verb fold command in
    level_of (is_empty verb) (is_verb_of destructive_verbs verb) (is_verb_of sensitive_verbs verb)
      (is_broad is_word (arguments fold command verb))

abbrev pub is_safe : DangerLevel → Bool
is_safe safe = true
is_safe level = false

abbrev pub is_destructive : DangerLevel → Bool
is_destructive destructive = true
is_destructive level = false

unfoldable pub requires_confirmation : (ℕ → Text) → (ℕ → Bool) → Text → Bool
requires_confirmation fold is_word command = not (is_safe (classify fold is_word command))

unfoldable pub requires_strong_confirmation : (ℕ → Text) → (ℕ → Bool) → Text → Bool
requires_strong_confirmation fold is_word command = is_destructive (classify fold is_word command)
