-- ===== src/Backup/Tests.antt =====
-- A hot backup on concrete answers; `plain_same` compares characters as they are.
use minecraft_server_manager.Prelude.{
  ℕ, ◌≡◌, ◌≢◌, ◌↔◌, refl, Bool, true, false, some, [], ◌∷◌, ◌==◌, last?, any, codes,
}
use minecraft_server_manager.Backup.Hot.{
  Answer, timed_out, interrupted, confirmed, raised, World, Block, completed, save_on, save_off,
  save_all_flush, save_off_texts, confirms, command_and_wait, restore, frozen_world,
}
use minecraft_server_manager.Backup.Hot.Restored.{
  off_wait, flush_wait, frozen_world-save_on_iff, frozen_world_copies, command_and_wait_iff,
}

abbrev plain_same : ℕ → ℕ → Bool
plain_same a b = a == b

abbrev said_off : Answer
said_off = record {
  delivered = true;
  lines = codes "<Steve> Saved the game" ∷ codes "Automatic saving is now disabled" ∷ [];
  ending = timed_out;
}

abbrev said_saved : Answer
said_saved = record { delivered = true; lines = codes "Saved the game" ∷ []; ending = timed_out }

abbrev said_nothing : Answer
said_nothing = record { delivered = true; lines = []; ending = timed_out }

abbrev cancelled : Answer
cancelled = record { delivered = true; lines = []; ending = interrupted }

abbrev copy_fails : Block
copy_fails w = (true, w)

abbrev copy_works : Block
copy_works w = (false, w)

abbrev quiet_world : World
quiet_world = record { attempts = []; subscriptions = 0 }

frozen_world-save_on_iff_example :
    (last? (frozen_world plain_same said_off said_saved copy_fails quiet_world).1.attempts
      ≡ some save_on)
    ↔ ((off_wait plain_same said_off quiet_world).0 ≢ raised)
frozen_world-save_on_iff_example =
    frozen_world-save_on_iff plain_same said_off said_saved copy_fails quiet_world

-- A cancellation during the wait for the confirmation leaves the writes switched off.
cancelled_commands :
    (frozen_world plain_same cancelled said_saved copy_works quiet_world).1.attempts ≡ save_off ∷ []
unfolding frozen_world command_and_wait
cancelled_commands = refl

abbrev world_off : World
world_off = record { attempts = save_off ∷ []; subscriptions = 0 }

abbrev world_flushed : World
world_flushed = record { attempts = save_off ∷ save_all_flush ∷ []; subscriptions = 0 }

off_confirmed : off_wait plain_same said_off quiet_world ≡ (confirmed, world_off)
unfolding command_and_wait
off_confirmed = refl

flush_confirmed : flush_wait plain_same said_saved world_off ≡ (confirmed, world_flushed)
unfolding command_and_wait
flush_confirmed = refl

frozen_world_copies_example :
    frozen_world plain_same said_off said_saved copy_works quiet_world
    ≡ (completed, restore world_flushed)
frozen_world_copies_example =
    frozen_world_copies plain_same said_off said_saved copy_works quiet_world world_off
      world_flushed off_confirmed flush_confirmed

not_flushed :
    (flush_wait plain_same said_nothing (off_wait plain_same said_off quiet_world).1).0 ≢ confirmed
unfolding command_and_wait
not_flushed = λ e. cc

command_and_wait_iff_example :
    (((command_and_wait plain_same said_off save_off save_off_texts quiet_world).0 ≡ confirmed) ↔ (
      (said_off.delivered ≡ true)
      × (any (confirms plain_same save_off_texts) said_off.lines ≡ true)))
    × ((command_and_wait plain_same said_off save_off save_off_texts quiet_world).1.subscriptions
        ≡ 0)
command_and_wait_iff_example =
    command_and_wait_iff plain_same said_off save_off save_off_texts quiet_world
