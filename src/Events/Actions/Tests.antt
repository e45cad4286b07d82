-- ===== src/Events/Actions/Tests.antt =====
-- A title of two lines, and a free command.
use minecraft_server_manager.Prelude.{
  ◌≡◌, refl, true, Option, none, some, [], ◌∷◌, ◌++◌, All, Text, codes, decimal,
}
use minecraft_server_manager.Prelude.Fallible.{done, failed}
use minecraft_server_manager.Prelude.Int.{ℤ}
use minecraft_server_manager.Prelude.Trim.{strip, remove_crlf, is_space}
use minecraft_server_manager.Prelude.Json.{Json, text, number, Fields, blank, field}
use minecraft_server_manager.Core.Commands.{
  CommandError, forbidden_character, search_forbidden, sanitize_command, is_username, is_selector,
  validate_target,
}
use minecraft_server_manager.Core.Commands.Safe.{IsOneLine}
use minecraft_server_manager.Events.Actions.{
  Action, title_action, title, command, Forms, invalid_command, required_text, positive_int,
  json_text, validate_title, validate_command, validate, build_commands, send_all,
}
use minecraft_server_manager.Events.Actions.Sent.{send_all-IsOneLine}

abbrev whole_number : Json → Option ℤ
whole_number (number n) = some n
whole_number _ = none

abbrev forms : Forms
forms = record {
  int_of = whole_number;
  to_float = λ word. none;
  printed = λ value. [];
  fold = λ c. c ∷ [];
  is_word = λ c. true;
}

abbrev two_lines : Text
two_lines = codes "Hi" ++ 10 ∷ codes "all"

abbrev raw_title : Fields
raw_title = field (codes "title") (text two_lines) blank

abbrev two_line_title : Action
two_line_title = title_action two_lines [] (codes "@a") 10 70 20

title_validated : validate forms title raw_title ≡ done two_line_title
unfolding validate validate_title required_text positive_int validate_target is_username is_selector
    strip is_space
title_validated = refl

abbrev as_raised : CommandError → CommandError
as_raised e = e

send_all-IsOneLine_example :
    All IsOneLine (send_all as_raised (λ line. done line) (build_commands forms two_line_title)).1
send_all-IsOneLine_example =
    send_all-IsOneLine forms as_raised title raw_title two_line_title title_validated

-- The line break is sent as the two characters of its escape.
title_sent :
    (send_all as_raised (λ line. done line) (build_commands forms two_line_title)).1
    ≡ codes "title @a times 10 70 20" ∷ codes "title @a title {\"text\": \"Hi\\nall\"}" ∷ []
unfolding send_all build_commands json_text sanitize_command search_forbidden strip is_space
    remove_crlf decimal
title_sent = refl

-- A free command of two lines is refused.
command_refused :
    validate forms command (field (codes "command") (text two_lines) blank)
    ≡ failed (invalid_command (forbidden_character 10))
unfolding validate validate_command sanitize_command search_forbidden strip is_space remove_crlf
command_refused = refl
