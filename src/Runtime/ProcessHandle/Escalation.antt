-- ===== src/Runtime/ProcessHandle/Escalation.antt =====
-- process_handle.py: the graduated stop as a ladder of which each rung is tried only if the process
-- has survived the one before.
use minecraft_server_manager.Prelude.{
  ℕ, Bool, true, false, ◌&&◌, not, Option, none, some, List, [], ◌∷◌, if◌then◌else◌, is_some, Text,
  Bool-cases, ◌≡◌, ◌⊎◌, refl, ap, subst, ◌∙◌, arith, inl, inr,
}
use minecraft_server_manager.Prelude.Trim.{is_empty}
use minecraft_server_manager.Runtime.ProcessHandle.{
  StopStage, command, signal, kill, Act, wrote, requested_stop, killed_tree, Process, StopOutcome,
  Answers, is_running, is_usable, stdin_available, act, write_line, wait_for_exit, outcome,
  stop_by_kill, after_signal_wait, stop_by_signal, after_command_wait, after_write, stop_running,
  stop,
}

-- A rung: its stage, what it does, and the exit that is seen in the wait after it.
pub record Rung : Type 0 where
  pub stage : StopStage
  pub doing : Act
  pub exit_seen : Option ℕ

-- A process that ends at any other stage than the command was forced.
abbrev pub is_forced : StopStage → Bool
is_forced command = false
is_forced stage = true

-- Climb until an exit is seen; the last rung ends the stop in any case.
abbrev pub climb_or :
    Rung → Option ℕ → Process → (Process → StopOutcome × Process) → StopOutcome × Process
climb_or r none p rest = rest p
climb_or r (some code) p rest = outcome r.stage (is_forced r.stage) (record p { exit = some code })

abbrev pub climb : Rung → List Rung → Process → StopOutcome × Process
climb r [] p = outcome r.stage (is_forced r.stage) (wait_for_exit r.exit_seen (act r.doing p)).1
climb r (s ∷ rs) p = climb_or r r.exit_seen (act r.doing p) (λ q. climb s rs q)

abbrev pub kill_rung : Answers → Rung
kill_rung a = record { stage = kill; doing = killed_tree; exit_seen = a.after_kill }

abbrev pub signal_rung : Answers → Rung
signal_rung a = record { stage = signal; doing = requested_stop; exit_seen = a.after_signal }

abbrev pub command_rung : Text → Answers → Rung
command_rung text a = record { stage = command; doing = wrote text; exit_seen = a.after_command }

-- The rungs after the command.
abbrev pub forced_climb : Answers → Process → StopOutcome × Process
forced_climb a p =
    if a.supports_graceful_signal
    then climb (signal_rung a) (kill_rung a ∷ []) p
    else climb (kill_rung a) [] p

abbrev pub full_climb : Text → Answers → Process → StopOutcome × Process
full_climb text a p =
    if a.supports_graceful_signal
    then climb (command_rung text a) (signal_rung a ∷ kill_rung a ∷ []) p
    else climb (command_rung text a) (kill_rung a ∷ []) p

-- Which ladder is climbed: the command is its first rung if there is one to write, the input takes
-- it and the write succeeds; a write that fails marks the input as broken.
abbrev pub ladder : Text → Answers → Process → StopOutcome × Process
ladder text a p =
    if not (is_empty text) && stdin_available p
    then (if a.write_succeeds
        then full_climb text a p
        else forced_climb a (record p { stdin_broken = true }))
    else forced_climb a p

after_signal_wait-climb :
    (a : Answers) (exit : Option ℕ) (p : Process)
    → after_signal_wait a (wait_for_exit exit p)
      ≡ climb_or
          (record { stage = signal; doing = requested_stop; exit_seen = exit })
          exit
          p
          (λ q. climb (kill_rung a) [] q)
unfolding stop_by_kill
after_signal_wait-climb a none p = refl
after_signal_wait-climb a (some code) p = refl

stop_by_signal-climb : (a : Answers) (p : Process) → stop_by_signal a p ≡ forced_climb a p
unfolding stop_by_signal stop_by_kill
stop_by_signal-climb a p = elim (Bool-cases a.supports_graceful_signal) [
  | inl yes_signal ↦ rw yes_signal (after_signal_wait-climb a a.after_signal (act requested_stop p))
  | inr no_signal ↦ rw no_signal refl
]

climb_or-cong :
    (r : Rung) (exit : Option ℕ) (p : Process) (f g : Process → StopOutcome × Process)
    → ((q : Process) → f q ≡ g q)
    → climb_or r exit p f ≡ climb_or r exit p g
climb_or-cong r none p f g h = h p
climb_or-cong r (some code) p f g h = refl

after_command_wait-climb :
    (text : Text) (a : Answers) (exit : Option ℕ) (p : Process)
    → after_command_wait a (wait_for_exit exit p)
      ≡ climb_or
          (record { stage = command; doing = wrote text; exit_seen = exit })
          exit
          p
          (λ q. forced_climb a q)
after_command_wait-climb text a none p = stop_by_signal-climb a p
after_command_wait-climb text a (some code) p = refl

full_climb-forced :
    (text : Text) (a : Answers) (p : Process)
    → climb_or (command_rung text a) a.after_command (act (wrote text) p) (λ q. forced_climb a q)
      ≡ full_climb text a p
full_climb-forced text a p = elim (Bool-cases a.supports_graceful_signal) [
  | inl yes_signal ↦ rw yes_signal refl
  | inr no_signal ↦ rw no_signal refl
]

write_line-available :
    (succeeds : Bool) (text : Text) (p : Process)
    → stdin_available p ≡ true
    → write_line succeeds text p
      ≡ (if succeeds then (true, act (wrote text) p) else (false, record p { stdin_broken = true }))
unfolding write_line stdin_available
write_line-available succeeds text p h =
    go (is_running p) (is_usable p.stdin) p.stdin_broken _ _ _ h
  where
    go :
        (r u b : Bool) (x y z : Bool × Process)
        → (if b then false else r && u) ≡ true
        → (if r then (if u && not b then x else y) else z) ≡ x
    go true true false x y z k = refl
    go true true true x y z k = cc
    go true false false x y z k = cc
    go true false true x y z k = cc
    go false u false x y z k = cc
    go false u true x y z k = cc

ladder_cases : (text : Text) (a : Answers) (p : Process) → stop_running text a p ≡ ladder text a p
unfolding stop_running
ladder_cases text a p = elim (Bool-cases (not (is_empty text) && stdin_available p)) [
  | inl usable_input ↦ rw usable_input (
      ap (after_write a) (write_line-available a.write_succeeds text p (right _ _ usable_input))
      ∙ written a.write_succeeds)
  | inr no_input ↦ rw no_input (stop_by_signal-climb a p)
]
  where
    right : (b c : Bool) → (b && c) ≡ true → c ≡ true
    right b c h = ground arith

    written :
        (succeeds : Bool)
        → after_write a (
            if succeeds
            then (true, act (wrote text) p)
            else (false, record p { stdin_broken = true }))
          ≡ (if succeeds
              then full_climb text a p
              else forced_climb a (record p { stdin_broken = true }))
    written true =
        after_command_wait-climb text a a.after_command (act (wrote text) p)
        ∙ full_climb-forced text a p
    written false = stop_by_signal-climb a (record p { stdin_broken = true })

-- Killed as the last resort, or seen to have ended.
abbrev pub IsOver : StopOutcome × Process → Type 0
IsOver (o, q) = (o.stage ≡ kill) ⊎ (is_some q.exit ≡ true)

climb_or-IsOver :
    (r : Rung) (exit : Option ℕ) (p : Process) (rest : Process → StopOutcome × Process)
    → ((q : Process) → IsOver (rest q))
    → IsOver (climb_or r exit p rest)
climb_or-IsOver r none p rest h = h p
climb_or-IsOver r (some code) p rest h = inr refl

kill-IsOver : (a : Answers) (p : Process) → IsOver (climb (kill_rung a) [] p)
kill-IsOver a p = inl refl

forced_climb-IsOver : (a : Answers) (p : Process) → IsOver (forced_climb a p)
forced_climb-IsOver a p = elim (Bool-cases a.supports_graceful_signal) [
  | inl with_signal ↦
      rw with_signal (climb_or-IsOver (signal_rung a) a.after_signal _ _ (λ q. kill-IsOver a q))
  | inr without ↦ rw without (kill-IsOver a p)
]

full_climb-IsOver : (text : Text) (a : Answers) (p : Process) → IsOver (full_climb text a p)
full_climb-IsOver text a p =
    subst (λ r. IsOver r) (full_climb-forced text a p)
      (climb_or-IsOver (command_rung text a) a.after_command _ _ (λ q. forced_climb-IsOver a q))

ladder-IsOver : (text : Text) (a : Answers) (p : Process) → IsOver (ladder text a p)
ladder-IsOver text a p = elim (Bool-cases (not (is_empty text) && stdin_available p)) [
  | inl usable_input ↦ rw usable_input (elim (Bool-cases a.write_succeeds) [
    | inl written ↦ rw written (full_climb-IsOver text a p)
    | inr lost ↦ rw lost (forced_climb-IsOver a _)
  ])
  | inr no_input ↦ rw no_input (forced_climb-IsOver a p)
]

-- The stop of a running process climbs the ladder: the command on the console, then the signal to
-- the group, then the end of the tree, each only if no exit was seen after the one before, and those
-- that are not available left out. The outcome names the rung that was reached: the end of the tree,
-- or one after which the exit was seen.
pub stop-ladder :
    (text : Text) (a : Answers) (p : Process)
    → is_running p ≡ true
    → (stop text a (some p) ≡ ((ladder text a p).0, some (ladder text a p).1))
      × IsOver (ladder text a p)
unfolding stop
stop-ladder text a p h =
    let running : stop text a (some p)
        ≡ ((stop_running text a p).0, some (stop_running text a p).1) =
      rw h refl in
    (running ∙ ap (λ r. (r.0, some r.1)) (ladder_cases text a p), ladder-IsOver text a p)
