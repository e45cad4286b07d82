-- ===== src/Runtime/Server/Coherent/Run.antt =====
-- Every input keeps the runtime coherent, and so does every sequence of inputs.
use minecraft_server_manager.Prelude.{
  ℕ, ◌∙◌, Option-cases, codes, ◌≡◌, refl, sym, subst, ap, inl, inr, Bool-cases, Bool, true, false,
  Option, none, some, List, [], ◌∷◌, Text, is_some, arith, if◌then◌else◌,
}
use minecraft_server_manager.Prelude.Int.{ℤ}
use minecraft_server_manager.Core.States.{
  ServerState, starting, online, stopping, is_running, same_state, can_transition,
}
use minecraft_server_manager.Runtime.Pipeline.{Parsed}
use minecraft_server_manager.Runtime.Server.Model.{
  Message, start_complete, AdoptedProcess, Handle, Phase, unlocked, checking_orphan, preparing,
  spawning, stopping_adopted, Supervision, no_supervision, waiting, draining, Runtime,
}
use minecraft_server_manager.Runtime.Server.Console.{
  Result, continue, Action, Done, ok, err, ingest, emit, set_state, is_alive_handle,
}
use minecraft_server_manager.Runtime.Server.Events.{
  MinecraftEvent, or_empty, suggest, server_ready, server_stopping, player_join, player_leave,
  player_uuid, player_list, fatal, handle_event,
}
use minecraft_server_manager.Runtime.Server.Start.{start, Launch, adopt}
use minecraft_server_manager.Runtime.Server.Stop.{stop, kill}
use minecraft_server_manager.Runtime.Server.Steps.{
  Input, call_start, call_stop, call_kill, call_adopt, call_detach, orphan_searched,
  preparation_over, launch_over, adopted_signal_expired, adopted_stop_over, output, process_reaped,
  reader_drained, readiness_expired, adopted_polled, restart_due, process_exits, adopted_dies,
  time_passes, when_unlocked, at_orphan, at_preparation, at_launch, at_signal, at_stop_over, reap,
  drained, exit_of, end_process, end_adopted, ignore, is_fresh, handle_events, perform, is_unlocked,
}
use minecraft_server_manager.Runtime.Server.Coherent.{
  IsCoherent, Good, Holding, set_state-legal, SameState, is_launching,
}
use minecraft_server_manager.Runtime.Server.Coherent.Calls.{
  start-Good, start_checked-Good, stop-Good, kill-Good,
}
use minecraft_server_manager.Runtime.Server.Coherent.Tasks.{
  finish_adopted_stop-Good, watch_adopted-Good, watch_readiness-Good, process_ended-IsCoherent,
  escalate-IsCoherent, settle-Good,
}
use minecraft_server_manager.Runtime.Server.Coherent.Launches.{
  prepared-Good, launch-Good, adopt-Good, detach-Good,
}

ingest-IsCoherent : (parsed : Parsed) (r : Runtime) → IsCoherent r → IsCoherent (ingest parsed r)
unfolding ingest is_running
ingest-IsCoherent parsed r h = ground arith

suggest-SameState : (t : Option Text) (r : Runtime) → SameState r (suggest t r)
unfolding emit
suggest-SameState none r = ground arith
suggest-SameState (some []) r = ground arith
suggest-SameState (some (c ∷ cs)) r = ground arith

SameState-IsCoherent : (r r' : Runtime) → IsCoherent r → SameState r r' → IsCoherent r'
unfolding is_running
SameState-IsCoherent r r' h same = ground arith

-- A change between two states of a server that is launched.
launched-Good :
    (target : ServerState) (reason : Message) (r r0 : Runtime)
    → IsCoherent r
    → SameState r r0
    → is_running r.state ≡ true
    → is_launching target ≡ true
    → can_transition r0.state target ≡ true
    → Good (set_state target reason r0)
unfolding is_running
launched-Good target reason r r0 h same0 was now legal =
    let (r', e, there, same) = set_state-legal target reason r0 legal in
    subst (λ x. Good x) (sym e) (ground arith)

SameState-Good : (r r' : Runtime) → IsCoherent r → SameState r r' → Good {A = Done} (ok tt, r')
SameState-Good r r' h same = (SameState-IsCoherent r r' h same, tt)

-- Where the first state is the given one, the second one may follow.
online_stopping :
    (s : ServerState)
    → same_state s online ≡ true
    → (can_transition s stopping ≡ true) × (is_running s ≡ true)
unfolding same_state can_transition is_running
online_stopping s h = ground arith

starting_online :
    (s : ServerState)
    → same_state s starting ≡ true
    → (can_transition s online ≡ true) × (is_running s ≡ true)
unfolding same_state can_transition is_running
starting_online s h = ground arith

handle_event-Good : (e : MinecraftEvent) (r : Runtime) → IsCoherent r → Good (handle_event e r)
unfolding handle_event
handle_event-Good server_ready r h = elim (Bool-cases (same_state r.state starting)) [
  | inl yet ↦ rw yet (
      launched-Good online start_complete r (record r { readiness_task = false }) h (ground arith)
        (starting_online r.state yet).1 refl (starting_online r.state yet).0)
  | inr past ↦ rw past (h, tt)
]
handle_event-Good server_stopping r h = elim (Bool-cases (same_state r.state online)) [
  | inl yet ↦ rw yet (
      launched-Good stopping Message.stopping r r h (ground arith) (online_stopping r.state yet).1
        refl (online_stopping r.state yet).0)
  | inr past ↦ rw past (h, tt)
]
handle_event-Good (player_join none) r h = (h, tt)
handle_event-Good (player_join (some [])) r h = (h, tt)
handle_event-Good (player_join (some (c ∷ cs))) r h = SameState-Good r _ h (ground arith)
handle_event-Good (player_leave none) r h = (h, tt)
handle_event-Good (player_leave (some [])) r h = (h, tt)
handle_event-Good (player_leave (some (c ∷ cs))) r h = SameState-Good r _ h (ground arith)
handle_event-Good (player_uuid none u) r h = (h, tt)
handle_event-Good (player_uuid (some []) u) r h = (h, tt)
handle_event-Good (player_uuid (some (c ∷ cs)) none) r h = (h, tt)
handle_event-Good (player_uuid (some (c ∷ cs)) (some [])) r h = (h, tt)
handle_event-Good (player_uuid (some (c ∷ cs)) (some (d ∷ ds))) r h =
    SameState-Good r _ h (ground arith)
handle_event-Good (player_list names) r h = SameState-Good r _ h (ground arith)
handle_event-Good (fatal cause remediation) r h =
    let r0 = record r {
      last_error = some (record {
        code = codes "SERVER_FATAL";
        cause = or_empty cause;
        remediation = or_empty remediation;
      });
    } in
    let same = suggest-SameState remediation r0 in
    SameState-Good r (suggest remediation r0) h (ground arith)

continue-Good :
    {A B : Type 0}
    → (x : Result A × Runtime) (k : Action B) → Good x
    → ((r : Runtime) → IsCoherent r → Good (k r))
    → Good (continue x k)
continue-Good (ok a, r) k h rest = rest r h.0
continue-Good (err e, r) k h rest = h

handle_events-Good :
    (es : List MinecraftEvent) (r : Runtime) → IsCoherent r → Good (handle_events es r)
unfolding handle_events
handle_events-Good [] r h = (h, tt)
handle_events-Good (e ∷ es) r h =
    continue-Good (handle_event e r) (handle_events es) (handle_event-Good e r h)
      λ r' h'. handle_events-Good es r' h'

if-Good :
    {A : Type 0}
    → (b : Bool) (x y : Result A × Runtime) → (b ≡ true → Good x)
    → (b ≡ false → Good y)
    → Good (if b then x else y)
if-Good true x y h k = h refl
if-Good false x y h k = k refl

when_unlocked-Good :
    (m : Action Done) (r : Runtime)
    → IsCoherent r
    → (is_unlocked r.phase ≡ true → Good (m r))
    → Good (when_unlocked m r)
when_unlocked-Good m r h good = if-Good (is_unlocked r.phase) _ _ good λ held. (h, tt)

at_orphan-Good :
    (found : Option ℕ) (p : Phase) (r : Runtime)
    → IsCoherent r
    → r.phase ≡ p
    → Good (at_orphan found p r)
at_orphan-Good found (checking_orphan actor) r h e = start_checked-Good actor found r h e
at_orphan-Good found unlocked r h e = (h, tt)
at_orphan-Good found (preparing actor) r h e = (h, tt)
at_orphan-Good found (spawning actor) r h e = (h, tt)
at_orphan-Good found (stopping_adopted force) r h e = (h, tt)

at_preparation-Good :
    (said : Option (List Text)) (p : Phase) (r : Runtime)
    → IsCoherent r
    → r.phase ≡ p
    → Good (at_preparation said p r)
at_preparation-Good said (preparing actor) r h e = prepared-Good actor said r h e
at_preparation-Good said unlocked r h e = (h, tt)
at_preparation-Good said (checking_orphan actor) r h e = (h, tt)
at_preparation-Good said (spawning actor) r h e = (h, tt)
at_preparation-Good said (stopping_adopted force) r h e = (h, tt)

at_launch-Good :
    (l : Launch) (p : Phase) (r : Runtime) → IsCoherent r → r.phase ≡ p → Good (at_launch l p r)
at_launch-Good l (spawning actor) r h e = launch-Good actor l r h e
at_launch-Good l unlocked r h e = (h, tt)
at_launch-Good l (checking_orphan actor) r h e = (h, tt)
at_launch-Good l (preparing actor) r h e = (h, tt)
at_launch-Good l (stopping_adopted force) r h e = (h, tt)

at_signal-Good : (p : Phase) (r : Runtime) → IsCoherent r → r.phase ≡ p → Good (at_signal p r)
at_signal-Good (stopping_adopted false) r h e = (escalate-IsCoherent r h e, tt)
at_signal-Good (stopping_adopted true) r h e = (h, tt)
at_signal-Good unlocked r h e = (h, tt)
at_signal-Good (checking_orphan actor) r h e = (h, tt)
at_signal-Good (preparing actor) r h e = (h, tt)
at_signal-Good (spawning actor) r h e = (h, tt)

at_stop_over-Good : (p : Phase) (r : Runtime) → IsCoherent r → r.phase ≡ p → Good (at_stop_over p r)
at_stop_over-Good (stopping_adopted force) r h e =
    finish_adopted_stop-Good r h
      (subst (λ p. Holding p r.state (is_some r.adopted) (is_alive_handle r.handle)) e h.holding)
      (ap is_unlocked e)
at_stop_over-Good unlocked r h e = (h, tt)
at_stop_over-Good (checking_orphan actor) r h e = (h, tt)
at_stop_over-Good (preparing actor) r h e = (h, tt)
at_stop_over-Good (spawning actor) r h e = (h, tt)

reap-IsCoherent :
    (s : Supervision) (exit : Option ℤ) (r : Runtime)
    → IsCoherent r
    → r.supervision ≡ s
    → IsCoherent (reap s exit r)
reap-IsCoherent waiting (some code) r h e = process_ended-IsCoherent r h e
reap-IsCoherent waiting none r h e = h
reap-IsCoherent no_supervision exit r h e = h
reap-IsCoherent (draining up) exit r h e = h

exited_dead :
    (handle : Option Handle) (code : ℤ)
    → exit_of handle ≡ some code
    → is_alive_handle handle ≡ false
unfolding is_alive_handle
exited_dead none code e = refl
exited_dead (some p) code e = rw e refl

ended_dead : (code : ℤ) (handle : Option Handle) → is_alive_handle (end_process code handle) ≡ false
unfolding is_alive_handle
ended_dead code none = refl
ended_dead code (some p) = elim (Option-cases p.exit) [
  | inl e ↦ rw e refl
  | inr (old, e) ↦ rw e (exited_dead (some p) old e)
]

end_adopted-same : (a : Option AdoptedProcess) → is_some (end_adopted a) ≡ is_some a
end_adopted-same none = refl
end_adopted-same (some a) = refl

dead-Holding :
    (p : Phase) (s : ServerState) (a alive alive' : Bool)
    → Holding p s a alive
    → alive' ≡ false
    → Holding p s a alive'
dead-Holding unlocked s a alive alive' h d = tt
dead-Holding (checking_orphan actor) s a alive alive' h d = (h.0, h.1, d)
dead-Holding (preparing actor) s a alive alive' h d = (h.0, h.1, d)
dead-Holding (spawning actor) s a alive alive' h d = (h.0, h.1, d)
dead-Holding (stopping_adopted force) s a alive alive' h d = d

process_exits-IsCoherent :
    (handle : Option Handle) (r : Runtime)
    → IsCoherent r
    → is_alive_handle handle ≡ false
    → IsCoherent (record r { handle = handle })
process_exits-IsCoherent handle r h d = record {
  own_runs = λ alive. ground arith;
  adopted_runs = h.adopted_runs;
  exclusive = λ a. d;
  supervised = h.supervised;
  holding =
      dead-Holding r.phase r.state (is_some r.adopted) (is_alive_handle r.handle) _ h.holding d;
}

adopted_dies-IsCoherent :
    (a : Option AdoptedProcess) (r : Runtime)
    → IsCoherent r
    → is_some a ≡ is_some r.adopted
    → IsCoherent (record r { adopted = a })
adopted_dies-IsCoherent a r h d = record {
  own_runs = h.own_runs;
  adopted_runs = λ e. h.adopted_runs (sym d ∙ e);
  exclusive = λ e. h.exclusive (sym d ∙ e);
  supervised = λ w. let (running, own, free) = h.supervised w in (running, d ∙ own, free);
  holding = subst (λ b. Holding r.phase r.state b (is_alive_handle r.handle)) (sym d) h.holding;
}

ignore-Good : {A : Type 0} → (x : Result A × Runtime) → Good x → Good (ignore x)
ignore-Good (ok a, r) h = h
ignore-Good (err e, r) h = h

drained-Good :
    (s : Supervision) (exit : Option ℤ) (r : Runtime)
    → IsCoherent r
    → r.supervision ≡ s
    → exit_of r.handle ≡ exit
    → Good (drained s exit r)
drained-Good (draining up) (some code) r h e x =
    settle-Good up code r h e (exited_dead r.handle code x)
drained-Good (draining up) none r h e x = (h, tt)
drained-Good no_supervision exit r h e x = (h, tt)
drained-Good waiting exit r h e x = (h, tt)

pub perform-Good : (i : Input) (r : Runtime) → IsCoherent r → Good (perform i r)
unfolding perform
perform-Good (call_start actor) r h =
    when_unlocked-Good (start actor) r h λ free. start-Good actor r h free
perform-Good (call_stop graceful actor) r h =
    when_unlocked-Good (stop graceful actor) r h λ free. stop-Good graceful actor r h free
perform-Good (call_kill actor) r h =
    when_unlocked-Good (kill actor) r h λ free. kill-Good actor r h free
perform-Good (call_adopt pid alive started logs) r h =
    if-Good (is_fresh r) _ _
      (λ fresh.
        ignore-Good (adopt pid alive started logs r)
          (adopt-Good pid alive started logs r h (ground arith) (ground arith)))
      λ used. (h, tt)
perform-Good call_detach r h = detach-Good r h
perform-Good (orphan_searched found) r h = at_orphan-Good found r.phase r h refl
perform-Good (preparation_over said) r h = at_preparation-Good said r.phase r h refl
perform-Good (launch_over l) r h = at_launch-Good l r.phase r h refl
perform-Good adopted_signal_expired r h = at_signal-Good r.phase r h refl
perform-Good adopted_stop_over r h = at_stop_over-Good r.phase r h refl
perform-Good (output parsed events) r h =
    handle_events-Good events (ingest parsed r) (ingest-IsCoherent parsed r h)
perform-Good process_reaped r h = (reap-IsCoherent r.supervision (exit_of r.handle) r h refl, tt)
perform-Good reader_drained r h = drained-Good r.supervision (exit_of r.handle) r h refl refl
perform-Good readiness_expired r h =
    if-Good r.readiness_task _ _ (λ on. watch_readiness-Good r h) λ off. (h, tt)
perform-Good adopted_polled r h =
    if-Good r.liveness_task _ _ (λ on. watch_adopted-Good r h) λ off. (h, tt)
perform-Good restart_due r h = SameState-Good r _ h (ground arith)
perform-Good (process_exits code) r h =
    (process_exits-IsCoherent _ r h (ended_dead code r.handle), tt)
perform-Good adopted_dies r h = (adopted_dies-IsCoherent _ r h (end_adopted-same r.adopted), tt)
perform-Good (time_passes n) r h = SameState-Good r _ h (ground arith)

-- What a sequence of inputs makes of a runtime, whatever the exceptions on the way.
unfoldable pub run : List Input → Runtime → Runtime
run [] r = r
run (i ∷ is) r = run is (perform i r).1

-- After any sequence of inputs a coherent runtime is coherent, and the next input does not make it
-- raise the exception for an illegal change of state.
pub run-Good :
    (is : List Input) (i : Input) (r : Runtime) → IsCoherent r → Good (perform i (run is r))
unfolding run
run-Good [] i r h = perform-Good i r h
run-Good (j ∷ is) i r h = run-Good is i (perform j r).1 (perform-Good j r h).0
