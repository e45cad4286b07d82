-- ===== src/Core/Commands/Tests.antt =====
-- Console commands on concrete texts. `plain` folds the letters of ASCII.
use minecraft_server_manager.Prelude.{
  ℕ, ◌+◌, ◌≡◌, refl, ◌&&◌, [], ◌∷◌, ◌++◌, leb, if◌then◌else◌, Text, codes, arith,
}
use minecraft_server_manager.Prelude.Fallible.{done, failed}
use minecraft_server_manager.Prelude.Trim.{strip, remove_crlf, is_space}
use minecraft_server_manager.Core.Commands.{forbidden_character, search_forbidden, sanitize_command}
use minecraft_server_manager.Core.Commands.Safe.{
  IsOneLine, sanitize_command-IsOneLine, sanitize_command-keeps,
}
use minecraft_server_manager.Core.Commands.Injection.{line_feed_refused}

abbrev plain : ℕ → Text
plain c = if leb 65 c && leb c 90 then (c + 32) ∷ [] else c ∷ []

sanitized_stop : sanitize_command (codes " /stop ") ≡ done (codes "stop")
unfolding sanitize_command strip remove_crlf is_space search_forbidden
sanitized_stop = refl

sanitize_command-IsOneLine_example : IsOneLine (codes "stop")
sanitize_command-IsOneLine_example = sanitize_command-IsOneLine (codes " /stop ") sanitized_stop

stop-IsOneLine : IsOneLine (codes "stop")
unfolding strip is_space
stop-IsOneLine = (refl, omega arith, omega arith, refl)

sanitize_command-keeps_example : sanitize_command (codes "stop") ≡ done (codes "stop")
sanitize_command-keeps_example = sanitize_command-keeps (codes "stop") stop-IsOneLine refl

line_feed_refused_example :
    (bad : ℕ) × (sanitize_command (codes "say hi" ++ 10 ∷ codes "stop")
      ≡ failed (forbidden_character bad))
unfolding is_space
line_feed_refused_example = line_feed_refused (codes "say hi") (codes "stop") refl refl refl

-- A carriage return and the line feed after it are removed, and the two parts become one.
joined_command :
    sanitize_command (codes "say hi" ++ 13 ∷ 10 ∷ codes "stop") ≡ done (codes "say histop")
unfolding sanitize_command strip remove_crlf is_space search_forbidden
joined_command = refl
