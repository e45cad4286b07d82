-- ===== src/Events/Engine/InOrder.antt =====
-- engine.py: a run that is not cancelled does what the steps do one after the other.
use minecraft_server_manager.Prelude.{
  ℕ, suc, ◌+◌, false, Option, none, some, List, [], ◌∷◌, ◌++◌, length, ◌≡◌, ◌≢◌, refl, ap, sym, ◌∙◌,
  arith, append_assoc, append-nil,
}
use minecraft_server_manager.Events.Engine.{
  Step, running, completed, run_failed, RunProgress, Executed, returned, raised, interrupted, Ended,
  finished, Environment, Run, report, progress_of, unless_cancelled, finish, after_step, run_from,
  new_run, run,
}
use minecraft_server_manager.Events.Engine.Runs.{AreRegistered}

module _ {E : Type 0} where
  abbrev pub last_report : ℕ → ℕ → Option E → RunProgress E
  last_report index total none = progress_of completed total total none
  last_report index total (some e) = progress_of run_failed index total (some e)

module _ {E R : Type 0} where
  -- The reports of steps that returned, from a number on, and the last one.
  abbrev pub step_reports : ℕ → ℕ → List R → List (RunProgress E)
  step_reports index total [] = []
  step_reports index total (r ∷ rs) =
      progress_of running index total none ∷ step_reports (index + 1) total rs

module _ {E R W : Type 0} where
  -- The steps one after the other, up to the first that raises: the results, the error, the world.
  abbrev pub chain : R → List R × Option E × W → List R × Option E × W
  chain result (results, error, w) = (result ∷ results, error, w)

  abbrev pub chain_after : Executed E R × W → (W → List R × Option E × W) → List R × Option E × W
  chain_after (returned result, w) rest = chain result (rest w)
  chain_after (raised e, w) rest = ([], some e, w)
  chain_after (interrupted, w) rest = ([], none, w)

  -- The run that these results belong to, of a run that stood before the step of number `index`.
  abbrev pub ended_run : ℕ → ℕ → Run E R W → List R × Option E × W → Ended E × Run E R W
  ended_run index total r (results, error, w) =
      let final = last_report (index + length results) total error in
      (
        finished final,
        record {
          reports = r.reports ++ (step_reports index total results ++ final ∷ []);
          results = r.results ++ results;
          world = w;
        },
      )

  ended_run-chain :
      (index total : ℕ) (r : Run E R W) (result : R) (w0 : W) (rest : List R × Option E × W)
      → ended_run
          (index + 1)
          total
          (record {
            reports = r.reports ++ progress_of running index total none ∷ [];
            results = r.results ++ result ∷ [];
            world = w0;
          })
          rest
        ≡ ended_run index total r (chain result rest)
  ended_run-chain index total r result w0 (results, error, w) =
      let number : index + 1 + length results ≡ index + suc (length results) = omega arith in
      rw
        (
          append_assoc r.reports (progress_of running index total none ∷ []) _,
          append_assoc r.results (result ∷ []) results,
          number,
        )
        refl

module _ {E P R W : Type 0} where
  unfoldable pub in_order : Environment E P R W → List (Step P) → W → List R × Option E × W
  in_order env [] w = ([], none, w)
  in_order env (step ∷ steps) w = chain_after (env.execute step w) (λ w'. in_order env steps w')

  report-calm :
      (env : Environment E P R W) (progress : RunProgress E) (r : Run E R W)
      → ((n : ℕ) → env.cancels n ≡ false)
      → report env progress r ≡ (false, record r { reports = r.reports ++ progress ∷ [] })
  unfolding report
  report-calm env progress r calm =
      ap (λ b. (b, record r { reports = r.reports ++ progress ∷ [] })) (calm (length r.reports))

  after_step-in_order :
      (env : Environment E P R W) (index total : ℕ) (executed : Executed E R × W) (r : Run E R W)
      (next : Run E R W → Ended E × Run E R W) (rest : W → List R × Option E × W)
      → ((n : ℕ) → env.cancels n ≡ false)
      → executed.0 ≢ interrupted
      → ((r' : Run E R W) → next r' ≡ ended_run (index + 1) total r' (rest r'.world))
      → after_step env index total executed r next
        ≡ ended_run index total r (chain_after executed rest)
  after_step-in_order env index total (returned result, w) r next rest calm whole h =
      let before = record r { results = r.results ++ result ∷ []; world = w } in
      ap (λ a. unless_cancelled index total a next)
        (report-calm env (progress_of running index total none) before calm)
      ∙ h (record before { reports = r.reports ++ progress_of running index total none ∷ [] })
      ∙ ended_run-chain index total r result w (rest w)
  after_step-in_order env index total (raised e, w) r next rest calm whole h =
      let progress = progress_of run_failed index total (some e) in
      let number : index ≡ index + 0 = omega arith in
      ap (λ a. unless_cancelled index total a (λ r'. (finished progress, r')))
        (report-calm env progress (record r { world = w }) calm)
      ∙ ap
          (λ l. (
            finished progress,
            record { reports = r.reports ++ progress ∷ []; results = l; world = w },
          ))
          (sym (append-nil r.results))
      ∙ ap
          (λ n. (
            finished (progress_of run_failed n total (some e)),
            record {
              reports = r.reports ++ progress_of run_failed n total (some e) ∷ [];
              results = r.results ++ [];
              world = w;
            },
          ))
          number
  after_step-in_order env index total (interrupted, w) r next rest calm whole h =
      absurd (whole refl)

  run_from-in_order :
      (env : Environment E P R W) (index total : ℕ) (steps : List (Step P)) (r : Run E R W)
      → AreRegistered env steps
      → ((n : ℕ) → env.cancels n ≡ false)
      → ((s : Step P) (w : W) → (env.execute s w).0 ≢ interrupted)
      → run_from env index total steps r ≡ ended_run index total r (in_order env steps r.world)
  unfolding run_from in_order
  run_from-in_order env index total [] r h calm whole =
      let progress = progress_of completed total total none in
      ap (finish progress) (report-calm env progress r calm)
      ∙ ap
          (λ l. (
            finished progress,
            record { reports = r.reports ++ progress ∷ []; results = l; world = r.world },
          ))
          (sym (append-nil r.results))
  run_from-in_order env index total (step ∷ steps) r h calm whole = rw h.0 (
      after_step-in_order env index total (env.execute step r.world) r
        (λ r'. run_from env (index + 1) total steps r') (in_order env steps) calm
        (whole step r.world)
        (λ r'. run_from-in_order env (index + 1) total steps r' h.1 calm whole))

  -- A run that no cancellation reaches, of registered actions, does to the world what the steps do
  -- one after the other up to the first that raises, keeps their results, and reports its start,
  -- each step that returned, in order, and then its end: completed, or failed at the next step.
  pub run-in_order :
      (env : Environment E P R W) (steps : List (Step P)) (w : W)
      → AreRegistered env steps
      → ((n : ℕ) → env.cancels n ≡ false)
      → ((s : Step P) (w' : W) → (env.execute s w').0 ≢ interrupted)
      → run env steps w
        ≡ ended_run 1
            (length steps)
            (record {
              reports = progress_of running 0 (length steps) none ∷ [];
              results = [];
              world = w;
            })
            (in_order env steps w)
  unfolding run
  run-in_order env steps w h calm whole =
      let total = length steps in
      let start = progress_of running 0 total none in
      ap (λ a. unless_cancelled 0 total a (λ r. run_from env 1 total steps r))
        (report-calm env start (new_run w) calm)
      ∙ run_from-in_order env 1 total steps
          (record { reports = start ∷ []; results = []; world = w }) h calm whole
