-- ===== src/Runtime/Server/Coherent/Tasks.antt =====
-- What the tasks of the runtime do keeps it coherent.
use minecraft_server_manager.Prelude.{
  ℕ, ◌+◌, ◌≡◌, refl, sym, subst, ap, inl, inr, Bool-cases, true, false, not, Option, none, some, [],
  arith, if◌then◌else◌, ◌&&◌,
}
use minecraft_server_manager.Prelude.Int.{ℤ, is_zero}
use minecraft_server_manager.Core.States.{
  offline, starting, online, crashed, is_running, same_state,
}
use minecraft_server_manager.Core.LogLine.{info, warn, error}
use minecraft_server_manager.Runtime.Server.Model.{
  start_assumed, server_stopped, stopped_alone, readopted_gone, readopted_stopped, players,
  crashed_with, AdoptedProcess, stopping_adopted, no_supervision, waiting, draining, Runtime, crash,
}
use minecraft_server_manager.Runtime.RingBuffer
use minecraft_server_manager.Runtime.Server.Players.{no_players}
use minecraft_server_manager.Core.Restart.{RestartDecision, is_stable, evaluate}
use minecraft_server_manager.Runtime.Server.Console.{
  Action, Done, continue, modify, publish, ok, emit, is_alive_handle,
}
use minecraft_server_manager.Runtime.Server.Stop.{
  escalate, finish_adopted_stop, watch_process, settle_crash, settle_stop, follow, after_exit,
  watch_adopted, watch_readiness, process_ended, settle, release_adopted,
}
use minecraft_server_manager.Runtime.Server.Steps.{is_unlocked}
use minecraft_server_manager.Runtime.Server.Coherent.{
  IsCoherent, Good, SameProcess, set_state-legal, set_state-then, to_offline, to_crashed, to_online,
  SameState, is_supervised,
}

pub finish_adopted_stop-Good :
    (r : Runtime)
    → IsCoherent r
    → is_alive_handle r.handle ≡ false
    → is_unlocked r.phase ≡ false
    → Good (finish_adopted_stop r)
unfolding finish_adopted_stop release_adopted is_running
finish_adopted_stop-Good r h dead locked =
    set_state-then offline server_stopped _ (record (release_adopted r) { liveness_task = false })
      (to_offline r.state) λ r' now same. ground arith

watch_process-Good :
    (a : Option AdoptedProcess) (r : Runtime)
    → IsCoherent r
    → r.adopted ≡ a
    → Good (watch_process a r)
unfolding watch_process release_adopted is_running
watch_process-Good none r h e = ground arith
watch_process-Good (some a) r h e = elim (Bool-cases a.alive) [
  | inl alive ↦ rw alive (ground arith)
  | inr dead ↦ rw dead (
      set_state-then offline readopted_gone _ (release_adopted (emit readopted_stopped info r))
        (to_offline r.state) λ r' now same. ground arith)
]

pub watch_adopted-Good : (r : Runtime) → IsCoherent r → Good (watch_adopted r)
unfolding watch_adopted
watch_adopted-Good r h = watch_process-Good r.adopted r h refl

pub watch_readiness-Good : (r : Runtime) → IsCoherent r → Good (watch_readiness r)
unfolding watch_readiness is_running
watch_readiness-Good r h =
    elim (Bool-cases (same_state r.state starting && is_alive_handle r.handle)) [
      | inl waited ↦ rw waited (
          set_state-then online start_assumed _ (emit start_assumed warn r)
            (to_online r.state (ground arith)) λ r' now same. ground arith)
      | inr over ↦ rw over (ground arith)
    ]

pub process_ended-IsCoherent :
    (r : Runtime) → IsCoherent r → r.supervision ≡ waiting → IsCoherent (process_ended r)
unfolding process_ended is_running
process_ended-IsCoherent r h w = ground arith

pub escalate-IsCoherent :
    (r : Runtime) → IsCoherent r → r.phase ≡ stopping_adopted false → IsCoherent (escalate r)
unfolding escalate is_running
escalate-IsCoherent r h w = ground arith

-- The state after the exit of a supervised process.
abbrev Settled : Action Done → Runtime → Type 0
Settled m r =
    (r' : Runtime) × (m r ≡ (ok tt, r')) × (is_running r'.state ≡ false) × SameProcess r r'

settle_crash-Settled :
    (code : ℤ) (r : Runtime) → is_running r.state ≡ true → Settled (settle_crash code) r
unfolding settle_crash is_running
settle_crash-Settled code r h =
    let (r', e, now, same) =
      set_state-legal crashed (crashed_with code)
        (emit (crashed_with code) error
          (record r { consecutive_crashes = r.consecutive_crashes + 1 }))
        (to_crashed r.state h) in
    (
      publish (crash code r'.consecutive_crashes (RingBuffer.tail r'.pipeline.buffer 30)) r',
      ap
          (λ x. continue x (
            modify λ r.
              publish (crash code r.consecutive_crashes (RingBuffer.tail r.pipeline.buffer 30)) r))
          e,
      rw now refl,
      record {
        handle = same.handle;
        adopted = same.adopted;
        supervision = same.supervision;
        phase = same.phase;
      },
    )

settle_stop-Settled : (r : Runtime) → Settled settle_stop r
unfolding settle_stop is_running
settle_stop-Settled r =
    let reason = if r.stop_requested then server_stopped else stopped_alone in
    let (r', e, now, same) =
      set_state-legal offline reason (emit reason info r) (to_offline r.state) in
    (
      r',
      e,
      rw now refl,
      record {
        handle = same.handle;
        adopted = same.adopted;
        supervision = same.supervision;
        phase = same.phase;
      },
    )

follow-SameState : (d : RestartDecision) (r : Runtime) → SameState r (follow d r)
unfolding emit
follow-SameState d r = elim (Bool-cases d.should_restart) [
  | inl restart ↦ rw restart (ground arith)
  | inr none' ↦ elim (Bool-cases r.stop_requested) [
    | inl asked ↦ rw (none', asked) (ground arith)
    | inr alone ↦ rw (none', alone) (ground arith)
  ]
]

-- Nothing runs and nothing is supervised any more.
over-IsCoherent :
    (r r' : Runtime)
    → IsCoherent r
    → is_alive_handle r.handle ≡ false
    → is_supervised r.supervision ≡ true
    → SameProcess r r'
    → is_running r'.state ≡ false
    → (r'' : Runtime) → SameState r' r''
    → IsCoherent (record r'' { supervision = no_supervision })
over-IsCoherent r r' h dead w same rest r'' same' = ground arith

after_exit-IsCoherent :
    (code : ℤ) (r r' : Runtime)
    → IsCoherent r
    → is_alive_handle r.handle ≡ false
    → is_supervised r.supervision ≡ true
    → SameProcess r r'
    → is_running r'.state ≡ false
    → IsCoherent (after_exit code r')
unfolding after_exit
after_exit-IsCoherent code r r' h dead w same rest =
    let r'' = publish (players []) (record r' { players = no_players }) in
    let d =
      evaluate r'.config.restart_policy r'.stop_requested (some code) r'.consecutive_crashes in
    let same'' : SameProcess r r'' = record {
      handle = same.handle;
      adopted = same.adopted;
      supervision = same.supervision;
      phase = same.phase;
    } in
    over-IsCoherent r r'' h dead w same'' rest (follow d r'') (follow-SameState d r'')

uncount :
    (n : ℕ) (r r' : Runtime)
    → SameProcess (record r { consecutive_crashes = n }) r'
    → SameProcess r r'
uncount n r r' same = record {
  handle = same.handle;
  adopted = same.adopted;
  supervision = same.supervision;
  phase = same.phase;
}

-- A process that has ended settles into a state that is not running, nothing left to supervise.
pub settle-Good :
    (up : ℕ) (code : ℤ) (r : Runtime)
    → IsCoherent r
    → r.supervision ≡ draining up
    → is_alive_handle r.handle ≡ false
    → Good (settle up code r)
unfolding settle is_running
settle-Good up code r h w dead =
    let n = if is_stable r.config.restart_policy up then 0 else r.consecutive_crashes in
    let r0 = record r { consecutive_crashes = n } in
    elim (Bool-cases (not r.stop_requested && not (is_zero code))) [
      | inl crashed' ↦
          let (r', e, rest, same) =
            settle_crash-Settled code r0 ((h.supervised (ap is_supervised w)).0) in
          rw crashed' (
            subst (λ x. Good (continue x (modify (after_exit code)))) (sym e)
              (
                after_exit-IsCoherent code r r' h dead (ap is_supervised w) (uncount n r r' same)
                    rest,
                tt,
              ))
      | inr stopped ↦
          let (r', e, rest, same) = settle_stop-Settled r0 in
          rw stopped (
            subst (λ x. Good (continue x (modify (after_exit code)))) (sym e)
              (
                after_exit-IsCoherent code r r' h dead (ap is_supervised w) (uncount n r r' same)
                    rest,
                tt,
              ))
    ]
