-- ===== src/Core/States/Reach.antt =====
-- Paths of legal transitions between the states of core/states.py.
use minecraft_server_manager.Prelude.{◌≡◌, refl, ◌⊎◌, inl, inr, true, false, arith}
use minecraft_server_manager.Core.States.{
  ServerState, offline, starting, online, stopping, crashed, unknown, same_state, is_running,
  can_transition,
}

-- A chain of transitions to a different state, each accepted by `can_transition`.
pub data Reach (s : ServerState) : ServerState → Type 0 where
  here : Reach s s
  next : {t u : ServerState} → Reach s t → can_transition t u ≡ true → Reach s u

pub same_state_eq : (s t : ServerState) → same_state s t ≡ true → s ≡ t
unfolding same_state
same_state_eq offline t h = ground arith
same_state_eq starting t h = ground arith
same_state_eq online t h = ground arith
same_state_eq stopping t h = ground arith
same_state_eq crashed t h = ground arith
same_state_eq unknown t h = ground arith

pub same_state_refl : (s : ServerState) → same_state s s ≡ true
unfolding same_state
same_state_refl offline = refl
same_state_refl starting = refl
same_state_refl online = refl
same_state_refl stopping = refl
same_state_refl crashed = refl
same_state_refl unknown = refl

-- From a state in which no process exists (OFFLINE or CRASHED) the only legal changes to a state in
-- which one does are STARTING and, from OFFLINE, UNKNOWN: a server is never announced online without
-- a start or a re-adoption.
pub running_only_by_start :
    (s t : ServerState)
    → is_running s ≡ false
    → is_running t ≡ true
    → can_transition s t ≡ true
    → (t ≡ starting) ⊎ ((s ≡ offline) × (t ≡ unknown))
unfolding is_running can_transition
running_only_by_start offline starting h k c = inl refl
running_only_by_start offline unknown h k c = inr (refl, refl)
running_only_by_start crashed starting h k c = inl refl
running_only_by_start s t h k c = ground arith

Reach-offline : (s : ServerState) → Reach s offline
unfolding can_transition
Reach-offline offline = here
Reach-offline starting = next here refl
Reach-offline online = next here refl
Reach-offline stopping = next here refl
Reach-offline crashed = next here refl
Reach-offline unknown = next here refl

Reach-from_offline : (t : ServerState) → Reach offline t
unfolding can_transition
Reach-from_offline offline = here
Reach-from_offline starting = next here refl
Reach-from_offline online = next {t = starting} (next here refl) refl
Reach-from_offline stopping = next {t = starting} (next here refl) refl
Reach-from_offline crashed = next {t = starting} (next here refl) refl
Reach-from_offline unknown = next here refl

Reach-trans : {s t u : ServerState} → Reach s t → Reach t u → Reach s u
Reach-trans p here = p
Reach-trans p (next q c) = next (Reach-trans p q) c

-- No state is a dead end: every state can be reached from every state by legal transitions.
pub every_state_reachable : (s t : ServerState) → Reach s t
every_state_reachable s t = Reach-trans (Reach-offline s) (Reach-from_offline t)
