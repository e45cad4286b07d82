-- ===== src/Events/Actions.antt =====
-- backend/msm/events/actions.py: the actions that a step may name, with the validation of their
-- parameters and the commands that they send.
pub mod Sent
mod Tests
use minecraft_server_manager.Prelude.{
  ℕ, ◌+◌, ◌*◌, ◌/◌, ◌%◌, Bool, true, false, ◌&&◌, ◌||◌, not, Option, none, some, List, [], ◌∷◌,
  ◌++◌, map, length, keep, ltb, leb, ◌==◌, if◌then◌else◌, Text, codes, decimal,
}
use minecraft_server_manager.Prelude.Fallible.{Fallible, refuse_if, done, failed, ◌>>=◌, ◌>>◌}
use minecraft_server_manager.Prelude.Int.{ℤ, pos, negsuc}
use minecraft_server_manager.Prelude.Trim.{strip, is_empty, is_space}
use minecraft_server_manager.Prelude.Json.{Json, text, number, Fields, get, get_or, is_true, str}
use minecraft_server_manager.Core.Commands.{
  CommandError, sanitize_command, validate_target, validate_resource, validate_count, build_say,
  build_give, build_kill, build_teleport,
}
use minecraft_server_manager.Core.Danger.{DangerLevel, safe, destructive, classify}

abbrev pub max_delay_s : ℕ
max_delay_s = 6 * 3600

-- The validated parameters of each action. A coordinate is kept as `:g` prints it.
pub data Action : Type 0 where
  say_action : Text → Action
  title_action : Text → Text → Text → ℕ → ℕ → ℕ → Action
  actionbar_action : Text → Text → Action
  give_action : Text → ℕ → Text → Action
  teleport_to : Text → Text → Action
  teleport_at : Text → Text → Text → Text → Action
  kill_action : Text → Action
  delay_action : ℕ → Action
  command_action : Text → Action

pub data ActionKey : Type 0 where
  say title actionbar give teleport kill_key delay command : ActionKey

pub data ActionError : Type 0 where
  missing_value text_too_long not_a_number out_of_range invalid_destination : ActionError
  invalid_command : CommandError → ActionError

-- An error of the command builders is raised as it is.
abbrev pub lift : {A : Type 0} → Fallible CommandError A → Fallible ActionError A
lift (done a) = done a
lift (failed e) = failed (invalid_command e)

-- `json.dumps` of a text with `ensure_ascii=False`.
abbrev hex_digit : ℕ → ℕ
hex_digit n = if ltb n 10 then 48 + n else 87 + n

abbrev escape_control : ℕ → Text
escape_control c =
    if c == 8
    then codes "\\b"
    else if c == 9
    then codes "\\t"
    else if c == 10
    then codes "\\n"
    else if c == 12
    then codes "\\f"
    else if c == 13
    then codes "\\r"
    else codes "\\u00" ++ hex_digit (c / 16) ∷ hex_digit (c % 16) ∷ []

abbrev escape_char : ℕ → Text
escape_char c =
    if c == 34 || c == 92 then 92 ∷ c ∷ [] else if ltb c 32 then escape_control c else c ∷ []

abbrev escape : Text → Text
escape [] = []
escape (c ∷ cs) = escape_char c ++ escape cs

-- `_json_text`
unfoldable pub json_text : Text → Text
json_text message = codes "{\"text\": \"" ++ escape message ++ codes "\"}"

abbrev spaced : List Text → Text
spaced [] = []
spaced (word ∷ []) = word
spaced (word ∷ next ∷ rest) = word ++ 32 ∷ spaced (next ∷ rest)

-- `text.split()`
abbrev push_char : ℕ → List Text → List Text
push_char c [] = (c ∷ []) ∷ []
push_char c (word ∷ words) = (c ∷ word) ∷ words

abbrev split_spaces : Text → List Text
split_spaces [] = [] ∷ []
split_spaces (c ∷ cs) =
    let words = split_spaces cs in if is_space c then [] ∷ words else push_char c words

abbrev split_words : Text → List Text
split_words raw = keep (λ word. not (is_empty word)) (split_spaces raw)

-- `int` of a form's value and `float` of a word, `none` where they raise; what `str` prints of a
-- value that is no text; the characters' case and word tests.
pub record Forms : Type 0 where
  pub int_of : Json → Option ℤ
  pub to_float : Text → Option Text
  pub printed : Json → Text
  pub fold : ℕ → Text
  pub is_word : ℕ → Bool

module _ (f : Forms) where
  -- `str(params.get(name) or "")`
  abbrev text_of : Text → Fields → Text
  text_of name raw = let value = get name raw in if is_true value then str f.printed value else []

  -- `Action._text`
  unfoldable pub required_text : Text → ℕ → Fields → Fallible ActionError Text
  required_text name max_length raw = do
    refuse_if (is_empty (strip (text_of name raw))) missing_value
    refuse_if (ltb max_length (length (strip (text_of name raw)))) text_too_long
    done (strip (text_of name raw))

  abbrev in_range : ℕ → Option ℤ → Fallible ActionError ℕ
  in_range maximum none = failed not_a_number
  in_range maximum (some (negsuc n)) = failed out_of_range
  in_range maximum (some (pos n)) = if ltb maximum n then failed out_of_range else done n

  -- `_positive_int`
  unfoldable pub positive_int : Json → ℕ → Fallible ActionError ℕ
  positive_int value maximum = in_range maximum (f.int_of value)

  -- `commands.validate_target(str(params.get("target") or "@a"))`
  abbrev target_of : Fields → Fallible ActionError Text
  target_of raw =
      let value = get (codes "target") raw in
      lift (validate_target (if is_true value then str f.printed value else codes "@a") true)

  abbrev duration : Text → ℕ → Fields → Fallible ActionError ℕ
  duration name default raw = positive_int (get_or name (number (pos default)) raw) 600

  unfoldable pub validate_say : Fields → Fallible ActionError Action
  validate_say raw = do message ← required_text (codes "message") 512 raw; done (say_action message)

  unfoldable pub validate_title : Fields → Fallible ActionError Action
  validate_title raw = do
    heading ← required_text (codes "title") 256 raw
    target ← target_of raw
    fade_in ← duration (codes "fade_in") 10 raw
    stay ← duration (codes "stay") 70 raw
    fade_out ← duration (codes "fade_out") 20 raw
    done
        (title_action heading (strip (text_of (codes "subtitle") raw)) target fade_in stay fade_out)

  unfoldable pub validate_actionbar : Fields → Fallible ActionError Action
  validate_actionbar raw = do
    message ← required_text (codes "message") 256 raw
    target ← target_of raw
    done (actionbar_action message target)

  unfoldable pub validate_give : Fields → Fallible ActionError Action
  validate_give raw = do
    item ← lift (validate_resource f.fold (str f.printed (get_or (codes "item") (text []) raw)))
    number_of ← positive_int (get_or (codes "count") (number (pos 1)) raw) 10000
    count ← lift (validate_count number_of 1 6400)
    target ← target_of raw
    done (give_action item count target)

  -- Three words are coordinates, anything else a target.
  abbrev at_coordinates :
      Text → Option Text → Option Text → Option Text → Fallible ActionError Action
  at_coordinates target (some x) (some y) (some z) = done (teleport_at target x y z)
  at_coordinates target _ _ _ = failed invalid_destination

  abbrev to_player : Text → Text → Fallible ActionError Action
  to_player target raw = do
    destination ← lift (validate_target raw true)
    done (teleport_to target destination)

  abbrev destination_of : Text → Text → List Text → Fallible ActionError Action
  destination_of target raw (x ∷ y ∷ z ∷ []) =
      at_coordinates target (f.to_float x) (f.to_float y) (f.to_float z)
  destination_of target raw _ = to_player target raw

  unfoldable pub validate_teleport : Fields → Fallible ActionError Action
  validate_teleport raw = do
    target ← target_of raw
    destination_of target (strip (text_of (codes "destination") raw))
        (split_words (strip (text_of (codes "destination") raw)))

  unfoldable pub validate_kill : Fields → Fallible ActionError Action
  validate_kill raw = do target ← target_of raw; done (kill_action target)

  unfoldable pub validate_delay : Fields → Fallible ActionError Action
  validate_delay raw = do
    seconds ← positive_int (get_or (codes "seconds") (number (pos 10)) raw) max_delay_s
    done (delay_action seconds)

  unfoldable pub validate_command : Fields → Fallible ActionError Action
  validate_command raw = do
    line ← lift (sanitize_command (str f.printed (get_or (codes "command") (text []) raw)))
    done (command_action line)

  -- The built-in actions by their key (BUILTIN_ACTIONS), and `Action.validate`.
  unfoldable pub validate : ActionKey → Fields → Fallible ActionError Action
  unfolding validate_say validate_title validate_actionbar validate_give validate_teleport
      validate_kill validate_delay validate_command
  validate say raw = validate_say raw
  validate title raw = validate_title raw
  validate actionbar raw = validate_actionbar raw
  validate give raw = validate_give raw
  validate teleport raw = validate_teleport raw
  validate kill_key raw = validate_kill raw
  validate delay raw = validate_delay raw
  validate command raw = validate_command raw

  abbrev pub subtitle_commands : Text → Text → List (Fallible CommandError Text)
  subtitle_commands target subtitle =
      if is_empty subtitle
      then []
      else sanitize_command
          (spaced (codes "title" ∷ target ∷ codes "subtitle" ∷ json_text subtitle ∷ []))
        ∷ []

  -- The commands that `execute` builds, in the order in which it sends them.
  unfoldable pub build_commands : Action → List (Fallible CommandError Text)
  unfolding json_text
  build_commands (say_action message) = build_say message ∷ []
  build_commands (title_action heading subtitle target fade_in stay fade_out) =
      sanitize_command (
          spaced (
            codes "title"
            ∷ target
            ∷ codes "times"
            ∷ decimal fade_in
            ∷ decimal stay
            ∷ decimal fade_out
            ∷ []))
        ∷ subtitle_commands target subtitle
      ++ sanitize_command (spaced (codes "title" ∷ target ∷ codes "title" ∷ json_text heading ∷ []))
        ∷ []
  build_commands (actionbar_action message target) =
      sanitize_command
        (spaced (codes "title" ∷ target ∷ codes "actionbar" ∷ json_text message ∷ []))
      ∷ []
  build_commands (give_action item count target) = build_give f.fold target item count ∷ []
  build_commands (teleport_to target destination) = build_teleport target destination ∷ []
  build_commands (teleport_at target x y z) =
      (do
        who ← validate_target target true
        sanitize_command (spaced (codes "tp" ∷ who ∷ x ∷ y ∷ z ∷ [])))
      ∷ []
  build_commands (kill_action target) = build_kill target ∷ []
  build_commands (delay_action seconds) = []
  build_commands (command_action line) = done line ∷ []

  -- `registry.danger_of`
  unfoldable pub danger_of : Action → DangerLevel
  danger_of (kill_action target) = destructive
  danger_of (command_action line) = classify f.fold f.is_word line
  danger_of _ = safe

-- `execute`: each command is built, then sent; the first that fails ends the action.
unfoldable pub send_all :
    {E : Type 0}
    → (CommandError → E)
    → (Text → Fallible E Text)
    → List (Fallible CommandError Text)
    → Option E × List Text
send_all raise send [] = (none, [])
send_all raise send (failed e ∷ rest) = (some (raise e), [])
send_all raise send (done line ∷ rest) =
    let (error, sent) = send_all raise send rest in
    elim (send line) [ done echoed ↦ (error, echoed ∷ sent) | failed e ↦ (some e, []) ]
