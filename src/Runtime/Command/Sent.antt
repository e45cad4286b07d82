-- ===== src/Runtime/Command/Sent.antt =====
-- server_runtime.py: what send_command writes on the standard input of a server.
use minecraft_server_manager.Prelude.{
  Bool, true, false, ◌&&◌, not, Option, none, some, List, [], ◌∷◌, ◌++◌, if◌then◌else◌, Text,
  Bool-cases, ◌≡◌, ◌⊎◌, refl, sym, subst, inl, inr,
}
use minecraft_server_manager.Prelude.Fallible.{Fallible, done, failed}
use minecraft_server_manager.Core.Commands.{CommandError, sanitize_command}
use minecraft_server_manager.Core.Commands.Safe.{IsOneLine, sanitize_command-IsOneLine}
use minecraft_server_manager.Runtime.Pipeline.{Pipeline}
use minecraft_server_manager.Runtime.ProcessHandle.{
  Act, wrote, Process, is_running, is_usable, write_line, act,
}
use minecraft_server_manager.Runtime.Command.{
  SendError, Console, echo, after_write, send_clean, send_sanitized, send_command,
}

abbrev pub acts_of : Option Process → List Act
acts_of none = []
acts_of (some p) = p.acts

-- The call returns a command of one line, which is the only thing written, and echoes it; or it
-- raises, and has neither written nor echoed anything.
abbrev pub IsSent : Option Text → Console → Fallible SendError Text × Console → Type 0
IsSent actor c (result, after) =
    ((clean : Text) × (result ≡ done clean)
      × IsOneLine clean
      × (acts_of after.process ≡ acts_of c.process ++ wrote clean ∷ [])
      × (after.pipeline ≡ echo clean actor c.pipeline))
    ⊎ ((e : SendError) × (result ≡ failed e)
        × (acts_of after.process ≡ acts_of c.process)
        × (after.pipeline ≡ c.pipeline))

-- write_line over its conditions: the process runs, its input is open, the write succeeds.
abbrev written_if : Bool → Bool → Bool → Text → Process → Bool × Process
written_if runs takes succeeds text p =
    if runs
    then (if takes
        then (if succeeds
            then (true, act (wrote text) p)
            else (false, record p { stdin_broken = true }))
        else (false, record p { stdin_broken = true }))
    else (false, p)

-- A write that succeeds adds the line; one that fails adds nothing.
write_line-acts :
    (succeeds : Bool) (text : Text) (p : Process)
    → (write_line succeeds text p ≡ (true, act (wrote text) p))
      ⊎ ((q : Process) × (write_line succeeds text p ≡ (false, q)) × (q.acts ≡ p.acts))
unfolding write_line
write_line-acts succeeds text p =
    go (is_running p) (is_usable p.stdin && not p.stdin_broken) succeeds
  where
    go :
        (r u s : Bool)
        → (written_if r u s text p ≡ (true, act (wrote text) p))
          ⊎ ((q : Process) × (written_if r u s text p ≡ (false, q)) × (q.acts ≡ p.acts))
    go true true true = inl refl
    go true true false = inr (_, refl, refl)
    go true false s = inr (_, refl, refl)
    go false u s = inr (p, refl, refl)

send_clean-IsSent :
    (succeeds : Bool) (clean : Text) (actor : Option Text) (process : Option Process)
    (pipeline : Pipeline)
    → IsOneLine clean
    → IsSent actor
        (record { process = process; pipeline = pipeline })
        (send_clean succeeds clean actor process pipeline)
send_clean-IsSent succeeds clean actor none pipeline h = inr (_, refl, refl, refl)
send_clean-IsSent succeeds clean actor (some p) pipeline h = elim (Bool-cases (is_running p)) [
  | inl runs ↦ rw runs (elim (write_line-acts succeeds clean p) [
    | inl written ↦
        subst
          (λ w.
            IsSent actor (record { process = some p; pipeline = pipeline })
              (after_write clean actor pipeline w))
          (sym written) (inl (clean, refl, h, refl, refl))
    | inr (q, lost, same) ↦
        subst
          (λ w.
            IsSent actor (record { process = some p; pipeline = pipeline })
              (after_write clean actor pipeline w))
          (sym lost) (inr (_, refl, same, refl))
  ])
  | inr stopped ↦ rw stopped (inr (_, refl, refl, refl))
]

-- Whatever the text, and whether or not the server runs and takes it: the call returns a command of
-- one line, which is the only thing written to the process, and echoes that command on the console;
-- or it raises, and has neither written nor echoed anything.
pub send_command-IsSent :
    (succeeds : Bool) (command : Text) (actor : Option Text) (c : Console)
    → IsSent actor c (send_command succeeds command actor c)
unfolding send_command
send_command-IsSent succeeds command actor c =
    go (sanitize_command command) (λ clean h. sanitize_command-IsOneLine command h)
  where
    go :
        (result : Fallible CommandError Text)
        → ((clean : Text) → result ≡ done clean → IsOneLine clean)
        → IsSent actor c (send_sanitized succeeds result actor c)
    go (failed e) h = inr (_, refl, refl, refl)
    go (done clean) h = send_clean-IsSent succeeds clean actor c.process c.pipeline (h clean refl)
