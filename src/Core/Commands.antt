-- ===== src/Core/Commands.antt =====
-- backend/msm/core/commands.py: the console commands, cleaned and built. A text is its code points;
-- `casefold` of one character is a parameter, since it is Python's.
pub mod Safe
pub mod Injection
pub mod Builders
pub mod Verbs
mod Tests
use minecraft_server_manager.Prelude.{
  ℕ, zero, suc, ◌+◌, Bool, true, false, ◌&&◌, ◌||◌, not, Option, none, some, List, [], ◌∷◌, ◌++◌,
  length, ltb, leb, ◌==◌, if◌then◌else◌, any, all, Text, codes, decimal, is_digit, has_char,
}
use minecraft_server_manager.Prelude.Fallible.{Fallible, done, failed, ◌>>=◌, ◌>>◌}
use minecraft_server_manager.Prelude.Trim.{
  strip, remove_crlf, remove_char, is_empty, is_space, drop_while,
}

-- The reasons of an UnsafeCommandError and of a ValidationError.
pub data CommandError : Type 0 where
  empty_command : CommandError
  forbidden_character : ℕ → CommandError
  command_too_long : ℕ → CommandError
  only_a_slash : CommandError
  invalid_target : Text → CommandError
  invalid_resource : Text → CommandError
  quantity_out_of_range : ℕ → CommandError
  empty_message : CommandError

abbrev pub max_command_length : ℕ
max_command_length = 32500

-- `[\x00-\x08\x0a-\x1f\x7f]`
abbrev pub is_forbidden : ℕ → Bool
is_forbidden c = leb c 8 || (leb 10 c && leb c 31) || (c == 127)

-- The first forbidden character of a text.
unfoldable pub search_forbidden : Text → Option ℕ
search_forbidden [] = none
search_forbidden (c ∷ cs) =
    let rest = search_forbidden cs in if is_forbidden c then some c else rest

abbrev pub remove_slash : Text → Text
remove_slash [] = []
remove_slash (c ∷ cs) = if c == 47 then cs else c ∷ cs

unfoldable pub or_empty : Text → Fallible CommandError Text
or_empty [] = failed only_a_slash
or_empty (c ∷ cs) = done (c ∷ cs)

unfoldable pub candidate : Text → Text
candidate raw = strip (remove_char 13 (remove_crlf raw))

unfoldable pub check_length : Text → Fallible CommandError Text
check_length text =
    if ltb max_command_length (length text)
    then failed (command_too_long (length text))
    else or_empty (strip (remove_slash text))

unfoldable pub check_candidate : Text → Fallible CommandError Text
check_candidate text =
    if is_empty text then failed empty_command else elim (search_forbidden text) [
      | some bad ↦ failed (forbidden_character bad)
      | none ↦ check_length text
    ]

unfoldable pub sanitize_command : Text → Fallible CommandError Text
unfolding candidate check_candidate check_length or_empty
sanitize_command raw = check_candidate (candidate raw)

abbrev is_upper : ℕ → Bool
is_upper c = leb 65 c && leb c 90

abbrev is_lower : ℕ → Bool
is_lower c = leb 97 c && leb c 122

-- What `$` allows after the text: one line feed.
abbrev before_end : Text → Text
before_end [] = []
before_end (c ∷ []) = if c == 10 then [] else c ∷ []
before_end (c ∷ d ∷ cs) = c ∷ before_end (d ∷ cs)

-- `^[A-Za-z0-9_]{1,16}$`
unfoldable pub is_username : Text → Bool
is_username text =
    let name = before_end text in
    all (λ c. is_upper c || is_lower c || is_digit c || (c == 95)) name
    && leb 1 (length name)
    && leb (length name) 16

-- `[^\]\n\r]*\]` to the end of the text.
abbrev selector_tail : Text → Bool
selector_tail [] = false
selector_tail (c ∷ cs) =
    let rest = selector_tail cs in
    if c == 93 then is_empty cs else not (c == 10) && not (c == 13) && rest

abbrev selector_arguments : Text → Bool
selector_arguments [] = true
selector_arguments (c ∷ cs) = (c == 91) && selector_tail cs

-- `^@[aprse](\[[^\]\n\r]*\])?$`
unfoldable pub is_selector : Text → Bool
is_selector (at ∷ c ∷ cs) =
    (at == 64) && any (λ d. c == d) (codes "aprse") && selector_arguments (before_end cs)
is_selector text = false

-- `[a-z0-9_./-]+` to the end of the text.
abbrev resource_path : Text → Bool
resource_path path =
    not (is_empty path)
    && all (λ c. is_lower c || is_digit c || any (λ d. c == d) (codes "_./-")) path

abbrev resource_from : Bool → Text → Bool
resource_from started [] = started
resource_from started (c ∷ cs) =
    let rest = resource_from true cs in
    if c == 58
    then started && resource_path cs
    else (is_lower c || is_digit c || any (λ d. c == d) (codes "_.-")) && rest

-- `^[a-z0-9_.-]+(:[a-z0-9_./-]+)?$`
unfoldable pub is_resource : Text → Bool
is_resource text = resource_from false (before_end text)

unfoldable pub validate_target : Text → Bool → Fallible CommandError Text
validate_target target allow_selector =
    let value = strip target in
    if is_username value
    then done value
    else if allow_selector && is_selector value
    then done value
    else failed (invalid_target target)

-- `text.casefold()`
abbrev pub casefold : (ℕ → Text) → Text → Text
casefold fold [] = []
casefold fold (c ∷ cs) = fold c ++ casefold fold cs

unfoldable pub validate_resource : (ℕ → Text) → Text → Fallible CommandError Text
validate_resource fold resource =
    let value = casefold fold (strip resource) in
    if is_resource value then done value else failed (invalid_resource resource)

-- A quantity is a whole number of at least 0, from 1 to 6400 by default.
unfoldable pub validate_count : ℕ → ℕ → ℕ → Fallible CommandError ℕ
validate_count count minimum maximum =
    if leb minimum count && leb count maximum
    then done count
    else failed (quantity_out_of_range count)

abbrev words : Text → Text → Text
words a b = a ++ 32 ∷ b

unfoldable pub build_say : Text → Fallible CommandError Text
build_say message =
    let text = strip message in
    if is_empty text then failed empty_message else sanitize_command (words (codes "say") text)

unfoldable pub build_give : (ℕ → Text) → Text → Text → ℕ → Fallible CommandError Text
unfolding validate_count
build_give fold target item count = do
  who ← validate_target target true
  what ← validate_resource fold item
  n ← validate_count count 1 6400
  sanitize_command (words (codes "give") (words who (words what (decimal n))))

-- `<verb> <player> [reason]`, the shape of build_kick and build_ban.
abbrev with_reason : Text → Text → Text
with_reason base reason = if is_empty (strip reason) then base else words base (strip reason)

unfoldable pub build_kick : Text → Text → Fallible CommandError Text
build_kick target reason = do
  who ← validate_target target false
  sanitize_command (with_reason (words (codes "kick") who) reason)

unfoldable pub build_ban : Text → Text → Fallible CommandError Text
build_ban target reason = do
  who ← validate_target target false
  sanitize_command (with_reason (words (codes "ban") who) reason)

unfoldable pub build_pardon : Text → Fallible CommandError Text
build_pardon target = do
  who ← validate_target target false
  sanitize_command (words (codes "pardon") who)

unfoldable pub build_op : Text → Fallible CommandError Text
build_op target = do who ← validate_target target false; sanitize_command (words (codes "op") who)

unfoldable pub build_deop : Text → Fallible CommandError Text
build_deop target = do
  who ← validate_target target false
  sanitize_command (words (codes "deop") who)

unfoldable pub build_kill : Text → Fallible CommandError Text
build_kill target = do
  who ← validate_target target true
  sanitize_command (words (codes "kill") who)

unfoldable pub build_teleport : Text → Text → Fallible CommandError Text
build_teleport target destination = do
  who ← validate_target target true
  to ← validate_target destination true
  sanitize_command (words (codes "tp") (words who to))

-- The verb, without its namespace: the part after the last colon.
abbrev pub after_colon : Text → Text
after_colon [] = []
after_colon (c ∷ cs) =
    let rest = after_colon cs in if has_char 58 cs then rest else if c == 58 then cs else c ∷ cs

abbrev pub first_word : Text → Text
first_word [] = []
first_word (c ∷ cs) = let rest = first_word cs in if is_space c then [] else c ∷ rest

abbrev pub slash_or_blank : ℕ → Bool
slash_or_blank c = (c == 47) || (c == 32)

unfoldable pub command_verb : (ℕ → Text) → Text → Text
command_verb fold command =
    after_colon (casefold fold (first_word (strip (drop_while slash_or_blank command))))
