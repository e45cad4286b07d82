-- ===== src/Events/Actions/Sent.antt =====
-- What the actions send (events/actions.py with core/commands.py).
use minecraft_server_manager.Prelude.{
  ◌≡◌, inl, inr, Bool-cases, true, Option, none, some, List, [], ◌∷◌, ◌++◌, All, Text, codes,
}
use minecraft_server_manager.Prelude.Fallible.{
  Fallible, done, failed, Ensures, holds, refused, Ensures-done, Ensures-step, Ensures-bind,
  Fallible-cases,
}
use minecraft_server_manager.Prelude.Trim.{strip, is_empty}
use minecraft_server_manager.Prelude.Json.{text, number, Fields, get_or, str}
use minecraft_server_manager.Prelude.Int.{pos}
use minecraft_server_manager.Core.Commands.{
  CommandError, sanitize_command, validate_target, validate_resource, validate_count,
}
use minecraft_server_manager.Core.Commands.Safe.{IsOneLine, sanitize_command-IsOneLine}
use minecraft_server_manager.Core.Commands.Builders.{
  GivesOneLine, sanitized, for_target, builders-GivesOneLine,
}
use minecraft_server_manager.Events.Actions.{
  Action, ActionKey, Forms, say_action, title_action, actionbar_action, give_action, teleport_to,
  teleport_at, kill_action, delay_action, command_action, say, title, actionbar, give, teleport,
  kill_key, delay, command, lift, required_text, positive_int, target_of, duration, text_of,
  at_coordinates, to_player, destination_of, split_words, max_delay_s, validate_say, validate_title,
  validate_actionbar, validate_give, validate_teleport, validate_kill, validate_delay,
  validate_command, validate, subtitle_commands, build_commands, send_all,
}

-- A free command is one line.
abbrev IsClean : Action → Type 0
IsClean (command_action line) = IsOneLine line
IsClean _ = Unit

All-append :
    (xs ys : List (Fallible CommandError Text))
    → All GivesOneLine xs
    → All GivesOneLine ys
    → All GivesOneLine (xs ++ ys)
All-append [] ys h k = k
All-append (x ∷ xs) ys h k = (h.0, All-append xs ys h.1 k)

module _ (f : Forms) where
  subtitle-GivesOneLine :
      (target subtitle : Text) → All GivesOneLine (subtitle_commands f target subtitle)
  subtitle-GivesOneLine target subtitle = elim (Bool-cases (is_empty subtitle)) [
    | inl nothing ↦ rw nothing tt
    | inr something ↦ rw something (sanitized _, tt)
  ]

  build_commands-GivesOneLine : (a : Action) → IsClean a → All GivesOneLine (build_commands f a)
  unfolding build_commands
  build_commands-GivesOneLine (say_action message) h =
      ((builders-GivesOneLine f.fold [] [] [] message 0).0, tt)
  build_commands-GivesOneLine (title_action heading subtitle target fade_in stay fade_out) h = (
    sanitized _,
    All-append (subtitle_commands f target subtitle) _ (subtitle-GivesOneLine target subtitle)
        (sanitized _, tt),
  )
  build_commands-GivesOneLine (actionbar_action message target) h = (sanitized _, tt)
  build_commands-GivesOneLine (give_action item count target) h =
      ((builders-GivesOneLine f.fold target [] item [] count).1, tt)
  build_commands-GivesOneLine (teleport_to target destination) h =
      ((builders-GivesOneLine f.fold target destination [] [] 0).8, tt)
  build_commands-GivesOneLine (teleport_at target x y z) h =
      (for_target (validate_target target true) _ (λ who. sanitized _), tt)
  build_commands-GivesOneLine (kill_action target) h =
      ((builders-GivesOneLine f.fold target [] [] [] 0).7, tt)
  build_commands-GivesOneLine (delay_action seconds) h = tt
  build_commands-GivesOneLine (command_action line) h = (h, tt)

  lift-Ensures : (raw : Text) → Ensures IsOneLine (lift (sanitize_command raw))
  lift-Ensures raw = elim (Fallible-cases (sanitize_command raw)) [
    | inl (line, ran) ↦ rw ran (holds (sanitize_command-IsOneLine raw ran))
    | inr (error, ran) ↦ rw ran refused
  ]

  say-IsClean : (raw : Fields) → Ensures IsClean (validate_say f raw)
  unfolding validate_say
  say-IsClean raw = Ensures-step (required_text f (codes "message") 512 raw) λ message _. holds tt

  title-IsClean : (raw : Fields) → Ensures IsClean (validate_title f raw)
  unfolding validate_title
  title-IsClean raw = Ensures-step (required_text f (codes "title") 256 raw) λ heading _.
      Ensures-step (target_of f raw) λ target _.
        Ensures-step (duration f (codes "fade_in") 10 raw) λ fade_in _.
          Ensures-step (duration f (codes "stay") 70 raw)
            λ stay _. Ensures-step (duration f (codes "fade_out") 20 raw) λ fade_out _. holds tt

  actionbar-IsClean : (raw : Fields) → Ensures IsClean (validate_actionbar f raw)
  unfolding validate_actionbar
  actionbar-IsClean raw =
      Ensures-step (required_text f (codes "message") 256 raw)
        λ message _. Ensures-step (target_of f raw) λ target _. holds tt

  give-IsClean : (raw : Fields) → Ensures IsClean (validate_give f raw)
  unfolding validate_give
  give-IsClean raw =
      Ensures-step
        (lift (validate_resource f.fold (str f.printed (get_or (codes "item") (text []) raw))))
        λ item _.
          Ensures-step (positive_int f (get_or (codes "count") (number (pos 1)) raw) 10000) λ n _.
            Ensures-step (lift (validate_count n 1 6400))
              λ count _. Ensures-step (target_of f raw) λ target _. holds tt

  at_coordinates-IsClean :
      (target : Text) (x y z : Option Text) → Ensures IsClean (at_coordinates f target x y z)
  at_coordinates-IsClean target (some x) (some y) (some z) = holds tt
  at_coordinates-IsClean target (some x) (some y) none = refused
  at_coordinates-IsClean target (some x) none z = refused
  at_coordinates-IsClean target none y z = refused

  to_player-IsClean : (target raw : Text) → Ensures IsClean (to_player f target raw)
  to_player-IsClean target raw = Ensures-step (lift (validate_target raw true)) λ to _. holds tt

  destination_of-IsClean :
      (target raw : Text) (words : List Text) → Ensures IsClean (destination_of f target raw words)
  destination_of-IsClean target raw [] = to_player-IsClean target raw
  destination_of-IsClean target raw (x ∷ []) = to_player-IsClean target raw
  destination_of-IsClean target raw (x ∷ y ∷ []) = to_player-IsClean target raw
  destination_of-IsClean target raw (x ∷ y ∷ z ∷ []) = at_coordinates-IsClean target _ _ _
  destination_of-IsClean target raw (x ∷ y ∷ z ∷ w ∷ words) = to_player-IsClean target raw

  teleport-IsClean : (raw : Fields) → Ensures IsClean (validate_teleport f raw)
  unfolding validate_teleport
  teleport-IsClean raw = Ensures-step (target_of f raw) λ target _.
      destination_of-IsClean target (strip (text_of f (codes "destination") raw))
        (split_words (strip (text_of f (codes "destination") raw)))

  kill-IsClean : (raw : Fields) → Ensures IsClean (validate_kill f raw)
  unfolding validate_kill
  kill-IsClean raw = Ensures-step (target_of f raw) λ target _. holds tt

  delay-IsClean : (raw : Fields) → Ensures IsClean (validate_delay f raw)
  unfolding validate_delay
  delay-IsClean raw =
      Ensures-step (positive_int f (get_or (codes "seconds") (number (pos 10)) raw) max_delay_s)
        λ seconds _. holds tt

  command-IsClean : (raw : Fields) → Ensures IsClean (validate_command f raw)
  unfolding validate_command
  command-IsClean raw =
      Ensures-bind (lift-Ensures (str f.printed (get_or (codes "command") (text []) raw)))
        λ line clean. holds clean

  validate-IsClean : (key : ActionKey) (raw : Fields) → Ensures IsClean (validate f key raw)
  unfolding validate
  validate-IsClean say raw = say-IsClean raw
  validate-IsClean title raw = title-IsClean raw
  validate-IsClean actionbar raw = actionbar-IsClean raw
  validate-IsClean give raw = give-IsClean raw
  validate-IsClean teleport raw = teleport-IsClean raw
  validate-IsClean kill_key raw = kill-IsClean raw
  validate-IsClean delay raw = delay-IsClean raw
  validate-IsClean command raw = command-IsClean raw

sent-IsOneLine :
    {E : Type 0} (raise : CommandError → E) (commands : List (Fallible CommandError Text))
    → All GivesOneLine commands
    → All IsOneLine (send_all raise (λ line. done line) commands).1
unfolding send_all
sent-IsOneLine raise [] h = tt
sent-IsOneLine raise (failed e ∷ rest) h = tt
sent-IsOneLine raise (done line ∷ rest) h = (h.0, sent-IsOneLine raise rest h.1)

-- Whatever the parameters of a step, each command that its action sends to the server once they are
-- validated is one line, of at most the length that a command may have and without a control
-- character of ASCII (U+0000 to U+001F, and U+007F) but the tabulation: neither a message, a title nor a free command of an event can
-- smuggle in a second command.
pub send_all-IsOneLine :
    {E : Type 0} (f : Forms) (raise : CommandError → E) (key : ActionKey) (raw : Fields)
    (a : Action)
    → validate f key raw ≡ done a
    → All IsOneLine (send_all raise (λ line. done line) (build_commands f a)).1
send_all-IsOneLine f raise key raw a h =
    sent-IsOneLine raise (build_commands f a)
      (build_commands-GivesOneLine f a (Ensures-done (validate-IsClean f key raw) h))
