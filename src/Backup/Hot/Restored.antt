-- ===== src/Backup/Hot/Restored.antt =====
-- hot.py: the writes are switched on again, and the copy runs only on a world that stands still.
use minecraft_server_manager.Prelude.{
  ℕ, Bool, true, false, some, List, if◌then◌else◌, any, last?, last?-snoc, Text, ◌≡◌, ◌≢◌, ◌↔◌, ◌⊎◌,
  refl, ap, sym, ◌∙◌, arith, inl, inr,
}
use minecraft_server_manager.Backup.Hot.{
  Ending, Answer, Waited, confirmed, unconfirmed, raised, World, save_off, save_on, save_all_flush,
  save_off_texts, saved_texts, confirms, command_and_wait, restore, Block, flush_and_copy,
  after_save_off, after_flush, frozen_world, outcome_of, after_wait, timed_out, subscription_ended,
  interrupted,
}

some_injective : {x y : Text} → some x ≡ some y → x ≡ y
some_injective e = cc

save_off-save_on : save_off ≢ save_on
unfolding save_off save_on
save_off-save_on = ground arith

-- The call of `save-off`, and that of `save-all flush` where the first was confirmed.
abbrev pub off_wait : (ℕ → ℕ → Bool) → Answer → World → Waited × World
off_wait same_letter off w = command_and_wait same_letter off save_off save_off_texts w

abbrev pub flush_wait : (ℕ → ℕ → Bool) → Answer → World → Waited × World
flush_wait same_letter flush w = command_and_wait same_letter flush save_all_flush saved_texts w

restore-last : (w : World) → last? (restore w).attempts ≡ some save_on
unfolding restore
restore-last w = last?-snoc w.attempts save_on

off_wait-last :
    (same_letter : ℕ → ℕ → Bool) (off : Answer) (w : World)
    → last? (off_wait same_letter off w).1.attempts ≡ some save_off
unfolding command_and_wait
off_wait-last same_letter off w = last?-snoc w.attempts save_off

-- Whatever the server answers and the block does, raising included, the last command sent is
-- save-on exactly if the wait for the confirmation of save-off did not raise.
pub frozen_world-save_on_iff :
    (same_letter : ℕ → ℕ → Bool) (off flush : Answer) (block : Block) (w : World)
    → (last? (frozen_world same_letter off flush block w).1.attempts ≡ some save_on)
      ↔ ((off_wait same_letter off w).0 ≢ raised)
unfolding frozen_world
frozen_world-save_on_iff same_letter off flush block w =
    go (off_wait same_letter off w) (off_wait-last same_letter off w)
  where
    go :
        (first : Waited × World)
        → last? first.1.attempts ≡ some save_off
        → (last? (after_save_off same_letter flush block first).1.attempts ≡ some save_on)
          ↔ (first.0 ≢ raised)
    go (confirmed, w1) h = (λ k e. cc, λ k. restore-last _)
    go (unconfirmed, w1) h = (λ k e. cc, λ k. restore-last w1)
    go (raised, w1) h =
        (λ k. absurd (save_off-save_on (some_injective (sym h ∙ k))), λ k. absurd (k refl))

flush_and_copy_unconfirmed :
    (same_letter : ℕ → ℕ → Bool) (flush : Answer) (block other : Block) (w : World)
    → (flush_wait same_letter flush w).0 ≢ confirmed
    → flush_and_copy same_letter flush block w ≡ flush_and_copy same_letter flush other w
unfolding flush_and_copy
flush_and_copy_unconfirmed same_letter flush block other w h = go (flush_wait same_letter flush w) h
  where
    go :
        (second : Waited × World)
        → second.0 ≢ confirmed
        → after_flush block second ≡ after_flush other second
    go (confirmed, w1) k = absurd (k refl)
    go (unconfirmed, w1) k = refl
    go (raised, w1) k = refl

-- The block runs, and gives the result, where `save-off` and then `save-all flush` are confirmed;
-- it starts in the world that these two calls leave, and save-on follows it.
pub frozen_world_copies :
    (same_letter : ℕ → ℕ → Bool) (off flush : Answer) (block : Block) (w w1 w2 : World)
    → off_wait same_letter off w ≡ (confirmed, w1)
    → flush_wait same_letter flush w1 ≡ (confirmed, w2)
    → frozen_world same_letter off flush block w ≡ (outcome_of (block w2).0, restore (block w2).1)
unfolding frozen_world flush_and_copy
frozen_world_copies same_letter off flush block w w1 w2 e f =
    ap (after_save_off same_letter flush block) e
    ∙ ap (λ second. ((after_flush block second).0, restore (after_flush block second).1)) f

-- The block has no part in the result where either confirmation is missing: every other block
-- gives the same outcome, commands and subscriptions.
pub frozen_world_unsafe :
    (same_letter : ℕ → ℕ → Bool) (off flush : Answer) (block other : Block) (w : World)
    → ((off_wait same_letter off w).0 ≢ confirmed)
      ⊎ ((flush_wait same_letter flush (off_wait same_letter off w).1).0 ≢ confirmed)
    → frozen_world same_letter off flush block w ≡ frozen_world same_letter off flush other w
unfolding frozen_world
frozen_world_unsafe same_letter off flush block other w h = go (off_wait same_letter off w) h
  where
    go :
        (first : Waited × World)
        → (first.0 ≢ confirmed) ⊎ ((flush_wait same_letter flush first.1).0 ≢ confirmed)
        → after_save_off same_letter flush block first
          ≡ after_save_off same_letter flush other first
    go (confirmed, w1) (inl k) = absurd (k refl)
    go (confirmed, w1) (inr k) =
        ap (λ r. (r.0, restore r.1)) (flush_and_copy_unconfirmed same_letter flush block other w1 k)
    go (unconfirmed, w1) k = refl
    go (raised, w1) k = refl

-- A delivered save-off is confirmed exactly if one of the published lines begins as announced, and
-- every call leaves the number of open subscriptions as it was.
pub command_and_wait_iff :
    (same_letter : ℕ → ℕ → Bool) (a : Answer) (command : Text) (alternatives : List Text)
    (w : World)
    → (((command_and_wait same_letter a command alternatives w).0 ≡ confirmed)
        ↔ ((a.delivered ≡ true) × (any (confirms same_letter alternatives) a.lines ≡ true)))
      × ((command_and_wait same_letter a command alternatives w).1.subscriptions ≡ w.subscriptions)
unfolding command_and_wait
command_and_wait_iff same_letter a command alternatives w =
    (decide a.delivered (any (confirms same_letter alternatives) a.lines) a.ending, omega arith)
  where
    decide :
        (d c : Bool) (e : Ending)
        → ((if d then (if c then confirmed else after_wait e) else raised) ≡ confirmed)
          ↔ ((d ≡ true) × (c ≡ true))
    decide true true e = (λ h. (refl, refl), λ h. refl)
    decide true false timed_out = (λ h. cc, λ h. cc)
    decide true false subscription_ended = (λ h. cc, λ h. cc)
    decide true false interrupted = (λ h. cc, λ h. cc)
    decide false c e = (λ h. cc, λ h. cc)
