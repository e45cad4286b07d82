-- ===== src/Backup/Hot.antt =====
-- backend/msm/backup/hot.py: a world's writes are suspended while a block of code copies it. What
-- the server answers is an argument; `same_letter` compares two characters without regard to case.
pub mod Restored
use minecraft_server_manager.Prelude.{
  ℕ, zero, suc, ◌+◌, ◌-◌, Bool, true, false, ◌&&◌, ◌||◌, List, [], ◌∷◌, ◌++◌, if◌then◌else◌, any,
  Text, codes,
}

-- How the wait for a confirmation ends if no line confirms: the delay, the end of the subscription,
-- or an exception, such as a cancellation, that leaves the wait.
pub data Ending : Type 0 where
  timed_out : Ending
  subscription_ended : Ending
  interrupted : Ending

-- What the server does with a command: whether send_command returns, the lines that are published
-- until the wait is over, and how it is over.
pub record Answer : Type 0 where
  pub delivered : Bool
  pub lines : List Text
  pub ending : Ending

pub data Waited : Type 0 where
  confirmed : Waited
  unconfirmed : Waited
  raised : Waited

-- The commands handed to send_command, in order, those that failed included, and the number of open
-- subscriptions.
pub record World : Type 0 where
  pub attempts : List Text
  pub subscriptions : ℕ

unfoldable pub save_off : Text
save_off = codes "save-off"

unfoldable pub save_all_flush : Text
save_all_flush = codes "save-all flush"

unfoldable pub save_on : Text
save_on = codes "save-on"

-- SAVE_OFF_RE and SAVED_RE: the alternatives, anchored at the start.
abbrev pub save_off_texts : List Text
save_off_texts =
    codes "Automatic saving is now disabled" ∷ codes "Turned off world auto-saving" ∷ []

abbrev pub saved_texts : List Text
saved_texts = codes "Saved the game" ∷ codes "Saved the world" ∷ []

abbrev pub starts_like : (ℕ → ℕ → Bool) → Text → Text → Bool
starts_like same_letter [] text = true
starts_like same_letter (c ∷ cs) [] = false
starts_like same_letter (c ∷ cs) (d ∷ ds) = same_letter c d && starts_like same_letter cs ds

abbrev pub confirms : (ℕ → ℕ → Bool) → List Text → Text → Bool
confirms same_letter alternatives line = any (λ a. starts_like same_letter a line) alternatives

abbrev pub after_wait : Ending → Waited
after_wait timed_out = unconfirmed
after_wait subscription_ended = unconfirmed
after_wait interrupted = raised

abbrev pub attempt : Text → World → World
attempt command w = record w { attempts = w.attempts ++ command ∷ [] }

abbrev pub subscribe : World → World
subscribe w = record w { subscriptions = w.subscriptions + 1 }

abbrev pub unsubscribe : World → World
unsubscribe w = record w { subscriptions = w.subscriptions - 1 }

-- The subscription is opened before the command is sent, and closed however the call ends.
unfoldable pub command_and_wait :
    (ℕ → ℕ → Bool) → Answer → Text → List Text → World → Waited × World
command_and_wait same_letter a command alternatives w =
    let tried = attempt command (subscribe w) in
    let outcome =
      if a.delivered
      then (if any (confirms same_letter alternatives) a.lines
          then confirmed
          else after_wait a.ending)
      else raised in
    (outcome, unsubscribe tried)

-- An exception of send_command is logged, not raised.
unfoldable pub restore : World → World
restore w = attempt save_on w

-- How `async with frozen_world(...)` ends.
pub data Outcome : Type 0 where
  completed : Outcome
  not_safe : Outcome
  failed : Outcome

-- The block under `async with`: whether it raises, and what it does to the world.
abbrev pub Block : Type 0
Block = World → Bool × World

abbrev pub outcome_of : Bool → Outcome
outcome_of true = failed
outcome_of false = completed

-- What follows the wait for the confirmation of `save-all flush`.
abbrev pub after_flush : Block → Waited × World → Outcome × World
after_flush block (confirmed, w) = let (raises, w') = block w in (outcome_of raises, w')
after_flush block (unconfirmed, w) = (not_safe, w)
after_flush block (raised, w) = (failed, w)

-- After the confirmation of `save-off`: the body of the `try`.
unfoldable pub flush_and_copy : (ℕ → ℕ → Bool) → Answer → Block → World → Outcome × World
flush_and_copy same_letter flush block w =
    after_flush block (command_and_wait same_letter flush save_all_flush saved_texts w)

-- What follows the wait for the confirmation of `save-off`; `restore` is the `finally`.
unfoldable pub after_save_off : (ℕ → ℕ → Bool) → Answer → Block → Waited × World → Outcome × World
after_save_off same_letter flush block (confirmed, w) =
    let (outcome, w2) = flush_and_copy same_letter flush block w in (outcome, restore w2)
after_save_off same_letter flush block (unconfirmed, w) = (not_safe, restore w)
after_save_off same_letter flush block (raised, w) = (failed, w)

unfoldable pub frozen_world : (ℕ → ℕ → Bool) → Answer → Answer → Block → World → Outcome × World
unfolding after_save_off
frozen_world same_letter off flush block w =
    after_save_off same_letter flush block
      (command_and_wait same_letter off save_off save_off_texts w)
