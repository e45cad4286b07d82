-- ===== src/Runtime/Server/Coherent/Launches.antt =====
-- The preparation, the launch and the adoption keep the runtime coherent.
use minecraft_server_manager.Prelude.{
  ℕ, ◌||◌, ◌≡◌, refl, sym, subst, inl, inr, Bool-cases, Bool, true, false, not, Option, none, some,
  List, [], ◌∷◌, Text, is_some, arith, ◌&&◌,
}
use minecraft_server_manager.Core.States.{
  ServerState, offline, unknown, is_running, same_state, can_transition,
}
use minecraft_server_manager.Runtime.Server.Model.{
  start_error, launch_command, note, pre_start_failed, ErrorReport, readopted, detached,
  start_failed, unlocked, preparing, spawning, no_supervision, waiting, Runtime,
}
use minecraft_server_manager.Runtime.Server.Console.{
  Done, ◌>>◌, emit, publish_status, is_alive_handle,
}
use minecraft_server_manager.Runtime.Server.Start.{
  report_all, warn_all, Eula, settled, refused, handle_eula, suggest, no_spec, refused_spawn,
  spawned, fail, prepared, Launch, launch, adopt, fail_start,
}
use minecraft_server_manager.Runtime.Server.Stop.{detach}
use minecraft_server_manager.Runtime.Server.Steps.{is_unlocked}
use minecraft_server_manager.Runtime.Server.Coherent.{
  IsCoherent, Good, set_state-legal, set_state-then, to_offline, to_unknown, SameState,
  is_launching, is_supervised,
}
use minecraft_server_manager.Core.LogLine.{info, warn, error}

report_all-SameState : (ms : List Text) (r : Runtime) → SameState r (report_all ms r)
unfolding emit
report_all-SameState [] r = ground arith
report_all-SameState (m ∷ ms) r =
    let ih = report_all-SameState ms (emit (note m) info r) in ground arith

warn_all-SameState : (ms : List Text) (r : Runtime) → SameState r (warn_all ms r)
unfolding emit
warn_all-SameState [] r = ground arith
warn_all-SameState (m ∷ ms) r =
    let ih = warn_all-SameState ms (emit (note m) warn r) in ground arith

eula-SameState : (e : Eula) (r : Runtime) → SameState r (handle_eula e r)
unfolding emit
eula-SameState settled r = ground arith
eula-SameState (refused rewritten) r = elim (Bool-cases r.config.auto_accept_eula) [
  | inl auto ↦ elim (Bool-cases rewritten) [
    | inl done ↦ rw (auto, done) (ground arith)
    | inr kept ↦ rw (auto, kept) (ground arith)
  ]
  | inr asked ↦ rw asked (ground arith)
]

suggest-SameState : (t : Text) (r : Runtime) → SameState r (suggest t r)
unfolding emit
suggest-SameState [] r = ground arith
suggest-SameState (c ∷ cs) r = ground arith

-- The runtime still waits for the launch, with no process.
IsLaunching : Runtime → Type 0
IsLaunching r =
    (is_launching r.state ≡ true)
    × (is_some r.adopted ≡ false)
    × (is_alive_handle r.handle ≡ false)
    × (is_supervised r.supervision ≡ false)

launching :
    (actor : Option Text) (r : Runtime) → IsCoherent r → r.phase ≡ spawning actor → IsLaunching r
unfolding IsLaunching
launching actor r h e = ground arith

-- What the preparation says is only said.
prepared-IsCoherent :
    (actor : Option Text) (r r' : Runtime)
    → IsCoherent r
    → r.phase ≡ preparing actor
    → SameState r r'
    → IsCoherent (record r' { phase = spawning actor })
unfolding is_running
prepared-IsCoherent actor r r' h e same = ground arith

pub prepared-Good :
    (actor : Option Text) (said : Option (List Text)) (r : Runtime)
    → IsCoherent r
    → r.phase ≡ preparing actor
    → Good (prepared actor said r)
unfolding prepared emit
prepared-Good actor none r h e =
    (prepared-IsCoherent actor r (emit pre_start_failed warn r) h e (ground arith), tt)
prepared-Good actor (some ms) r h e =
    (prepared-IsCoherent actor r (report_all ms r) h e (report_all-SameState ms r), tt)

-- A launch that fails ends offline, with the lock given back.
fail_start-Good :
    (e : ErrorReport) (r r' : Runtime)
    → IsLaunching r
    → SameState r r'
    → Good {A = Done} ((fail_start e >> fail (start_error e)) r')
unfolding fail_start IsLaunching is_running emit
fail_start-Good e r r' h same =
    let said = emit (start_failed e.cause) error (record r' { last_error = some e }) in
    let same' = suggest-SameState e.remediation said in
    set_state-then offline (start_failed e.cause) _ (suggest e.remediation said) (to_offline _)
      λ r'' now same''. ground arith

-- A launched process, the only one, is supervised.
spawned-IsCoherent :
    (pid : ℕ) (stdin : Bool) (r r' r'' : Runtime)
    → IsLaunching r
    → SameState r r'
    → r''.state ≡ r'.state
    → r''.handle ≡ some (record { pid = pid; exit = none; stdin_available = stdin })
    → r''.adopted ≡ none
    → r''.supervision ≡ waiting
    → r''.phase ≡ unlocked
    → IsCoherent r''
unfolding IsLaunching is_running
spawned-IsCoherent pid stdin r r' r'' h same s p a w u = ground arith

pub launch-Good :
    (actor : Option Text) (l : Launch) (r : Runtime)
    → IsCoherent r
    → r.phase ≡ spawning actor
    → Good (launch l r)
unfolding launch emit publish_status
launch-Good actor (no_spec e) r h w = fail_start-Good e r r (launching actor r h w) (ground arith)
launch-Good actor (refused_spawn eula e) r h w =
    let same = eula-SameState eula r in
    fail_start-Good e r (emit launch_command info (handle_eula eula r)) (launching actor r h w)
      (ground arith)
launch-Good actor (spawned eula pid stdin warnings) r h w =
    let same = eula-SameState eula r in
    let same' = warn_all-SameState warnings (emit launch_command info (handle_eula eula r)) in
    let same'' : SameState r (warn_all warnings (emit launch_command info (handle_eula eula r))) =
      ground arith in
    (
      spawned-IsCoherent pid stdin r
          (warn_all warnings (emit launch_command info (handle_eula eula r))) _
          (launching actor r h w) same'' refl refl refl refl refl,
      tt,
    )

from_offline :
    (s : ServerState)
    → same_state s offline ≡ true
    → (can_transition s unknown ≡ true) × (is_running s ≡ false)
unfolding same_state can_transition is_running
from_offline s h = ground arith

pub adopt-Good :
    (pid : ℕ) (alive : Bool) (started : Option ℕ) (logs : Bool) (r : Runtime)
    → IsCoherent r
    → is_unlocked r.phase ≡ true
    → same_state r.state offline ≡ true
    → Good (adopt pid alive started logs r)
unfolding adopt is_running emit
adopt-Good pid false started logs r h u off = (h, tt)
adopt-Good pid true started logs r h u off =
    let (legal, still) = from_offline r.state off in
    set_state-then unknown readopted _
      (emit readopted warn (record r {
        adopted = some (record { pid = pid; alive = true });
        started_at = elim started [ none ↦ some r.clock | some t ↦ some t ];
      }))
      legal
      λ r' now same. elim (Bool-cases logs) [
        | inl kept ↦ rw kept (ground arith)
        | inr bare ↦ rw bare (ground arith)
      ]

pub detach-Good : (r : Runtime) → IsCoherent r → Good (detach r)
unfolding detach is_running
detach-Good r h =
    elim (Bool-cases
      ((is_alive_handle r.handle || is_some r.adopted) && not (same_state r.state unknown))) [
        | inl alive ↦
            let runs : is_running r.state ≡ true = elim (Bool-cases (is_some r.adopted)) [
              | inl adopted ↦ h.adopted_runs adopted
              | inr own ↦ h.own_runs (ground arith)
            ] in
            let (r', e, now, same) =
              set_state-legal unknown detached
                (record r {
                  restart_task = false;
                  readiness_task = false;
                  supervision = no_supervision;
                  liveness_task = false;
                  tailer = false;
                })
                (to_unknown r.state runs) in
            rw alive (subst (λ x. Good x) (sym e) (ground arith))
        | inr over ↦ rw over (ground arith)
      ]
