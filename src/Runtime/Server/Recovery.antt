-- ===== src/Runtime/Server/Recovery.antt =====
-- What server_runtime.py makes of the exit of a supervised process.
use minecraft_server_manager.Prelude.{
  ℕ, ◌+◌, ◌≡◌, refl, sym, ap, ◌∙◌, subst, inl, inr, Bool-cases, Bool, true, false, not, ◌&&◌, ◌||◌,
  some, [], arith, if◌then◌else◌,
}
use minecraft_server_manager.Prelude.Int.{ℤ, is_zero}
use minecraft_server_manager.Core.States.{ServerState, offline, crashed, is_running}
use minecraft_server_manager.Core.LogLine.{info, error}
use minecraft_server_manager.Core.Restart.{RestartDecision, evaluate, is_stable}
use minecraft_server_manager.Runtime.RingBuffer
use minecraft_server_manager.Runtime.Server.Model.{
  Message, Runtime, crash, players, crashed_with, server_stopped, stopped_alone,
}
use minecraft_server_manager.Runtime.Server.Players.{no_players}
use minecraft_server_manager.Runtime.Server.Console.{
  continue, modify, publish, ok, emit, set_state, publish_status,
}
use minecraft_server_manager.Runtime.Server.Stop.{
  settle_crash, settle_stop, settle, after_exit, follow,
}
use minecraft_server_manager.Runtime.Server.Coherent.{set_state-legal, to_offline, to_crashed}

-- The fields that the decision about a restart reads or writes.
record Keeps (r r' : Runtime) : Type 0 where
  pub config : r'.config ≡ r.config
  pub stop_requested : r'.stop_requested ≡ r.stop_requested
  pub crashes : r'.consecutive_crashes ≡ r.consecutive_crashes
  pub restart_task : r'.restart_task ≡ r.restart_task

set_state-Keeps :
    (target : ServerState) (reason : Message) (r : Runtime) → Keeps r (set_state target reason r).1
unfolding set_state publish_status
set_state-Keeps target reason r = ground arith

-- The state, the count of crashes and the pending restart once the exit of a process has been shown,
-- as a crash or as a stop.
record IsSettled (as_crash : Bool) (r r' : Runtime) : Type 0 where
  pub state : r'.state ≡ (if as_crash then crashed else offline)
  pub config : r'.config ≡ r.config
  pub stop_requested : r'.stop_requested ≡ r.stop_requested
  pub crashes :
      r'.consecutive_crashes
      ≡ (if as_crash then r.consecutive_crashes + 1 else r.consecutive_crashes)
  pub restart_task : r'.restart_task ≡ r.restart_task

settle_crash-IsSettled :
    (code : ℤ) (r : Runtime)
    → is_running r.state ≡ true
    → (r' : Runtime) × (settle_crash code r ≡ (ok tt, r')) × IsSettled true r r'
unfolding settle_crash emit
settle_crash-IsSettled code r h =
    let r1 =
      emit (crashed_with code) error
        (record r { consecutive_crashes = r.consecutive_crashes + 1 }) in
    let (r', e, now, same) =
      set_state-legal crashed (crashed_with code) r1 (to_crashed r.state h) in
    let kept : Keeps r1 r' =
      subst (λ x. Keeps r1 x.1) e (set_state-Keeps crashed (crashed_with code) r1) in
    (
      publish (crash code r'.consecutive_crashes (RingBuffer.tail r'.pipeline.buffer 30)) r',
      ap
          (λ x. continue x (
            modify λ r.
              publish (crash code r.consecutive_crashes (RingBuffer.tail r.pipeline.buffer 30)) r))
          e,
      record {
        state = now;
        config = kept.config;
        stop_requested = kept.stop_requested;
        crashes = kept.crashes;
        restart_task = kept.restart_task;
      },
    )

settle_stop-IsSettled :
    (r : Runtime) → (r' : Runtime) × (settle_stop r ≡ (ok tt, r')) × IsSettled false r r'
unfolding settle_stop emit
settle_stop-IsSettled r =
    let reason = if r.stop_requested then server_stopped else stopped_alone in
    let r1 = emit reason info r in
    let (r', e, now, same) = set_state-legal offline reason r1 (to_offline r.state) in
    let kept : Keeps r1 r' = subst (λ x. Keeps r1 x.1) e (set_state-Keeps offline reason r1) in
    (
      r',
      e,
      record {
        state = now;
        config = kept.config;
        stop_requested = kept.stop_requested;
        crashes = kept.crashes;
        restart_task = kept.restart_task;
      },
    )

follow-restart :
    (d : RestartDecision) (r : Runtime)
    → ((follow d r).restart_task ≡ (d.should_restart || r.restart_task))
      × ((follow d r).state ≡ r.state)
      × ((follow d r).consecutive_crashes ≡ r.consecutive_crashes)
unfolding emit
follow-restart d r = elim (Bool-cases d.should_restart) [
  | inl restart ↦ rw restart (refl, refl, refl)
  | inr none' ↦ elim (Bool-cases r.stop_requested) [
    | inl asked ↦ rw (none', asked) (refl, refl, refl)
    | inr alone ↦ rw (none', alone) (refl, refl, refl)
  ]
]

-- What the exit leads to, from the runtime as it was.
abbrev pub Outcome : Bool → ℕ → ℤ → Runtime → Runtime → Type 0
Outcome as_crash crashes code r r' =
    let decision = evaluate r.config.restart_policy r.stop_requested (some code) crashes in
    (r'.state ≡ (if as_crash then crashed else offline))
    × (r'.consecutive_crashes ≡ crashes)
    × (r'.restart_task ≡ (decision.should_restart || r.restart_task))

after_exit-Outcome :
    (as_crash : Bool) (code : ℤ) (r r' : Runtime)
    → IsSettled as_crash r r'
    → Outcome as_crash
        (if as_crash then r.consecutive_crashes + 1 else r.consecutive_crashes)
        code
        r
        (after_exit code r')
unfolding after_exit
after_exit-Outcome as_crash code r r' h =
    let r'' = publish (players []) (record r' { players = no_players }) in
    let d =
      evaluate r'.config.restart_policy r'.stop_requested (some code) r'.consecutive_crashes in
    let (restart, state, crashes) = follow-restart d r'' in
    (
      state ∙ h.state,
      crashes ∙ h.crashes,
      restart ∙ rw (h.config, h.stop_requested, h.crashes, h.restart_task) refl,
    )

-- `_supervise`, from the end of a supervised process that was shown as running: an unrequested exit
-- with a code other than 0 leaves the server CRASHED and counts one crash more, any other exit leaves
-- it OFFLINE; the count starts again from 0 if the server had run long enough to be stable; and a
-- restart is planned exactly if the policy says so for this count (or one was pending already).
pub settle-Outcome :
    (up : ℕ) (code : ℤ) (r : Runtime)
    → is_running r.state ≡ true
    → let as_crash = not r.stop_requested && not (is_zero code) in
      let count = if is_stable r.config.restart_policy up then 0 else r.consecutive_crashes in
      Outcome as_crash (if as_crash then count + 1 else count) code r (settle up code r).1
unfolding settle
settle-Outcome up code r h =
    let n = if is_stable r.config.restart_policy up then 0 else r.consecutive_crashes in
    let r0 = record r { consecutive_crashes = n } in
    elim (Bool-cases (not r.stop_requested && not (is_zero code))) [
      | inl as_crash ↦
          let (r', e, settled) = settle_crash-IsSettled code r0 h in
          rw as_crash (
            subst (λ x. Outcome true (n + 1) code r (continue x (modify (after_exit code))).1)
              (sym e) (after_exit-Outcome true code r0 r' settled))
      | inr as_stop ↦
          let (r', e, settled) = settle_stop-IsSettled r0 in
          rw as_stop (
            subst (λ x. Outcome false n code r (continue x (modify (after_exit code))).1) (sym e)
              (after_exit-Outcome false code r0 r' settled))
    ]
