-- ===== src/Core/Commands/Builders.antt =====
-- commands.py: what the builders return is one line, whatever their arguments.
use minecraft_server_manager.Prelude.{ℕ, Text, ◌≡◌, refl, Bool-cases, inl, inr}
use minecraft_server_manager.Prelude.Fallible.{Fallible, done, failed, ◌>>=◌}
use minecraft_server_manager.Prelude.Trim.{strip, is_empty}
use minecraft_server_manager.Core.Commands.{
  CommandError, sanitize_command, validate_target, validate_resource, validate_count, build_say,
  build_give, build_kick, build_ban, build_pardon, build_op, build_deop, build_kill, build_teleport,
}
use minecraft_server_manager.Core.Commands.Safe.{IsOneLine, sanitize_command-IsOneLine}

-- A result, if there is one, is one line.
abbrev pub GivesOneLine : Fallible CommandError Text → Type 0
GivesOneLine (done command) = IsOneLine command
GivesOneLine (failed e) = Unit

pub sanitized : (raw : Text) → GivesOneLine (sanitize_command raw)
sanitized raw = go (sanitize_command raw) (λ command h. sanitize_command-IsOneLine raw h)
  where
    go :
        (result : Fallible CommandError Text)
        → ((command : Text) → result ≡ done command → IsOneLine command)
        → GivesOneLine result
    go (done command) h = h command refl
    go (failed e) h = tt

pub for_target :
    {A : Type 0} (target : Fallible CommandError A) (next : A → Fallible CommandError Text)
    → ((a : A) → GivesOneLine (next a))
    → GivesOneLine (target >>= next)
for_target (done who) next h = h who
for_target (failed e) next h = tt

say-GivesOneLine : (message : Text) → GivesOneLine (build_say message)
unfolding build_say
say-GivesOneLine message = elim (Bool-cases (is_empty (strip message))) [
  | inl nothing ↦ rw nothing tt
  | inr something ↦ rw something (sanitized _)
]

-- Whatever target, item, quantity, message or reason a builder is given, what it returns is one
-- line.
pub builders-GivesOneLine :
    (fold : ℕ → Text) (target other item words : Text) (count : ℕ)
    → GivesOneLine (build_say words)
      × GivesOneLine (build_give fold target item count)
      × GivesOneLine (build_kick target words)
      × GivesOneLine (build_ban target words)
      × GivesOneLine (build_pardon target)
      × GivesOneLine (build_op target)
      × GivesOneLine (build_deop target)
      × GivesOneLine (build_kill target)
      × GivesOneLine (build_teleport target other)
unfolding build_give build_kick build_ban build_pardon build_op build_deop build_kill build_teleport
builders-GivesOneLine fold target other item words count = (
  say-GivesOneLine words,
  for_target (validate_target target _) _ (λ who.
      for_target (validate_resource fold item) _
        (λ what. for_target (validate_count count 1 6400) _ (λ n. sanitized _))),
  for_target (validate_target target _) _ (λ who. sanitized _),
  for_target (validate_target target _) _ (λ who. sanitized _),
  for_target (validate_target target _) _ (λ who. sanitized _),
  for_target (validate_target target _) _ (λ who. sanitized _),
  for_target (validate_target target _) _ (λ who. sanitized _),
  for_target (validate_target target _) _ (λ who. sanitized _),
  for_target (validate_target target _) _
      (λ who. for_target (validate_target other _) _ (λ to. sanitized _)),
)
