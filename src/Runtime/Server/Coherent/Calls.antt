-- ===== src/Runtime/Server/Coherent/Calls.antt =====
-- The methods of the runtime keep it coherent, and make only legal changes of state.
use minecraft_server_manager.Prelude.{
  ℕ, ◌≡◌, subst, inl, inr, Bool-cases, Bool, true, false, Option, none, some, Text, is_some, arith,
}
use minecraft_server_manager.Core.States.{starting, stopping, is_running}
use minecraft_server_manager.Runtime.Server.Model.{
  start_requested, stop_requested_by, forced_stop_by, checking_orphan, Runtime,
}
use minecraft_server_manager.Runtime.Server.Console.{is_alive_handle}
use minecraft_server_manager.Runtime.Server.Start.{start, start_checked}
use minecraft_server_manager.Runtime.Server.Stop.{stop, kill}
use minecraft_server_manager.Runtime.Server.Steps.{is_unlocked}
use minecraft_server_manager.Runtime.Server.Coherent.{
  IsCoherent, Good, Holding, set_state-then, to_stopping, to_starting,
}

pub start-Good :
    (actor : Option Text) (r : Runtime)
    → IsCoherent r
    → is_unlocked r.phase ≡ true
    → Good (start actor r)
unfolding start
start-Good actor r h u = ground arith

pub start_checked-Good :
    (actor : Option Text) (found : Option ℕ) (r : Runtime)
    → IsCoherent r
    → r.phase ≡ checking_orphan actor
    → Good (start_checked actor found r)
unfolding start_checked is_running
start_checked-Good actor (some pid) r h u = ground arith
start_checked-Good actor none r h u =
    let held : Holding (checking_orphan actor) r.state (is_some r.adopted)
        (is_alive_handle r.handle) =
      subst (λ p. Holding p r.state (is_some r.adopted) (is_alive_handle r.handle)) u h.holding in
    set_state-then starting (start_requested actor) _
      (record r { restart_task = false; stop_requested = false; last_error = none })
      (to_starting r.state held.0)
      λ r' now same. elim (Bool-cases r.config.has_pre_start) [
        | inl hook ↦ ground arith
        | inr bare ↦ ground arith
      ]

pub stop-Good :
    (graceful : Bool) (actor : Option Text) (r : Runtime)
    → IsCoherent r
    → is_unlocked r.phase ≡ true
    → Good (stop graceful actor r)
unfolding stop is_running
stop-Good graceful actor r h u = elim (Bool-cases (is_some r.adopted)) [
  | inl adopted ↦ rw adopted (
      set_state-then stopping (stop_requested_by actor) _ (record r { restart_task = false })
        (to_stopping r.state (h.adopted_runs adopted))
        λ r' now same. elim (Bool-cases graceful) [
          | inl g ↦ rw g (ground arith)
          | inr g ↦ rw g (ground arith)
        ])
  | inr none' ↦ elim (Bool-cases (is_alive_handle r.handle)) [
    | inl alive ↦
        rw (none', alive)
          (set_state-then stopping (stop_requested_by actor) _
            (record r { restart_task = false; stop_requested = true })
            (to_stopping r.state (h.own_runs alive)) λ r' now same. ground arith)
    | inr dead ↦ rw (none', dead) (ground arith)
  ]
]

pub kill-Good :
    (actor : Option Text) (r : Runtime)
    → IsCoherent r
    → is_unlocked r.phase ≡ true
    → Good (kill actor r)
unfolding kill is_running
kill-Good actor r h u = elim (Bool-cases (is_some r.adopted)) [
  | inl adopted ↦ rw adopted (
      set_state-then stopping (forced_stop_by actor) _ (record r { restart_task = false })
        (to_stopping r.state (h.adopted_runs adopted)) λ r' now same. ground arith)
  | inr own ↦ elim (Bool-cases (is_alive_handle r.handle)) [
    | inl alive ↦
        rw (own, alive)
          (set_state-then stopping (forced_stop_by actor) _
            (record r { restart_task = false; stop_requested = true })
            (to_stopping r.state (h.own_runs alive)) λ r' now same. ground arith)
    | inr dead ↦ rw (own, dead) (ground arith)
  ]
]
