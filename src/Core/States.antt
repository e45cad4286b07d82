-- ===== src/Core/States.antt =====
-- backend/msm/core/states.py: the life cycle of a Minecraft server as a state machine.
pub mod Reach
use minecraft_server_manager.Prelude.{Bool, true, false, ◌||◌, List, [], ◌∷◌}

pub data ServerState : Type 0 where
  offline starting online stopping crashed unknown : ServerState

-- `is` on members of an enum.
unfoldable pub same_state : ServerState → ServerState → Bool
same_state offline offline = true
same_state starting starting = true
same_state online online = true
same_state stopping stopping = true
same_state crashed crashed = true
same_state unknown unknown = true
same_state _ _ = false

-- `_RUNNING_STATES` and the property `is_running`.
unfoldable pub is_running : ServerState → Bool
is_running starting = true
is_running online = true
is_running stopping = true
is_running unknown = true
is_running offline = false
is_running crashed = false

unfoldable pub is_transitional : ServerState → Bool
is_transitional starting = true
is_transitional stopping = true
is_transitional _ = false

unfoldable pub accepts_commands : ServerState → Bool
accepts_commands online = true
accepts_commands starting = true
accepts_commands _ = false

-- `ALLOWED_TRANSITIONS`
unfoldable pub allowed_transitions : ServerState → List ServerState
allowed_transitions offline = starting ∷ unknown ∷ []
allowed_transitions starting = online ∷ stopping ∷ crashed ∷ offline ∷ unknown ∷ []
allowed_transitions online = stopping ∷ crashed ∷ offline ∷ unknown ∷ []
allowed_transitions stopping = offline ∷ crashed ∷ unknown ∷ []
allowed_transitions crashed = starting ∷ offline ∷ []
allowed_transitions unknown = offline ∷ starting ∷ online ∷ stopping ∷ crashed ∷ []

unfoldable pub state_in : ServerState → List ServerState → Bool
unfolding same_state
state_in s [] = false
state_in s (t ∷ ts) = same_state s t || state_in s ts

unfoldable pub can_transition : ServerState → ServerState → Bool
unfolding same_state allowed_transitions state_in
can_transition current target =
    same_state current target || state_in target (allowed_transitions current)
