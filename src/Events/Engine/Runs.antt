-- ===== src/Events/Engine/Runs.antt =====
-- engine.py: how a run ends, and what it does compared with running the steps one after the other.
use minecraft_server_manager.Prelude.{
  ℕ, ◌+◌, Bool, true, false, none, some, List, [], ◌∷◌, length, last?, last?-snoc, All, ◌≡◌, ◌≢◌,
  refl, ap, sym, ◌∙◌,
}
use minecraft_server_manager.Events.Engine.{
  Step, running, run_failed, cancelled, RunProgress, Executed, returned, raised, interrupted, Ended,
  finished, Environment, Run, report, progress_of, cancel_at, unless_cancelled, finish, after_step,
  run_from, new_run, run,
}

module _ {E R W : Type 0} where
  -- The last report is not that of a run in progress.
  abbrev pub IsReported : Ended E × Run E R W → Type 0
  IsReported result = (p : RunProgress E) × (last? result.1.reports ≡ some p) × (p.status ≢ running)

  cancel_at-IsReported : (index total : ℕ) (r : Run E R W) → IsReported (cancel_at index total r)
  unfolding cancel_at
  cancel_at-IsReported index total r =
      (progress_of cancelled index total none, last?-snoc r.reports _, λ h. cc)

  unless_cancelled-IsReported :
      (index total : ℕ) (after : Bool × Run E R W) (rest : Run E R W → Ended E × Run E R W)
      → ((r : Run E R W) → (after.1 ≡ r) → IsReported (rest r))
      → IsReported (unless_cancelled index total after rest)
  unless_cancelled-IsReported index total (true, r) rest h = cancel_at-IsReported index total r
  unless_cancelled-IsReported index total (false, r) rest h = h r refl

  finish-IsReported :
      (progress : RunProgress E) (after : Bool × Run E R W)
      → progress.status ≢ running
      → last? after.1.reports ≡ some progress
      → IsReported (finish progress after)
  finish-IsReported progress (true, r) h l = (progress, l, h)
  finish-IsReported progress (false, r) h l = (progress, l, h)

module _ {E P R W : Type 0} where
  abbrev pub AreRegistered : Environment E P R W → List (Step P) → Type 0
  AreRegistered env steps = All (λ s. env.is_registered s.action ≡ true) steps

  report-last :
      (env : Environment E P R W) (progress : RunProgress E) (r : Run E R W)
      → last? (report env progress r).1.reports ≡ some progress
  unfolding report
  report-last env progress r = last?-snoc r.reports progress

  after_step-IsReported :
      (env : Environment E P R W) (index total : ℕ) (executed : Executed E R × W) (r : Run E R W)
      (rest : Run E R W → Ended E × Run E R W)
      → ((r' : Run E R W) → IsReported (rest r'))
      → IsReported (after_step env index total executed r rest)
  after_step-IsReported env index total (returned result, w) r rest h =
      unless_cancelled-IsReported index total _ rest (λ r' e. h r')
  after_step-IsReported env index total (raised e, w) r rest h =
      let progress = progress_of run_failed index total (some e) in
      let before = record r { world = w } in
      unless_cancelled-IsReported index total (report env progress before)
        (λ r'. (finished progress, r'))
        (λ r' same. (
          progress,
          ap (λ q. last? q.reports) (sym same) ∙ report-last env progress before,
          λ k. cc,
        ))
  after_step-IsReported env index total (interrupted, w) r rest h =
      cancel_at-IsReported index total _

  run_from-IsReported :
      (env : Environment E P R W) (index total : ℕ) (steps : List (Step P)) (r : Run E R W)
      → AreRegistered env steps
      → IsReported (run_from env index total steps r)
  unfolding run_from
  run_from-IsReported env index total [] r h =
      finish-IsReported _ (report env _ r) (λ k. cc) (report-last env _ r)
  run_from-IsReported env index total (step ∷ steps) r h = rw h.0 (
      after_step-IsReported env index total (env.execute step r.world) r _
        (λ r'. run_from-IsReported env (index + 1) total steps r' h.1))

  -- Whatever the steps do and whenever a cancellation arrives, a run whose actions are all
  -- registered ends with a report that says that it is completed, failed or cancelled: no run stays
  -- in progress.
  pub run-IsReported :
      (env : Environment E P R W) (steps : List (Step P)) (w : W)
      → AreRegistered env steps
      → IsReported (run env steps w)
  unfolding run
  run-IsReported env steps w h =
      unless_cancelled-IsReported 0 (length steps)
        (report env (progress_of running 0 (length steps) none) (new_run w))
        (λ r. run_from env 1 (length steps) steps r)
        (λ r e. run_from-IsReported env 1 (length steps) steps r h)
