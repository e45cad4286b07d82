-- ===== src/Events/Engine.antt =====
-- backend/msm/events/engine.py: the steps of an event, validated and run in order. The registry's
-- actions, what they do to the server and when a cancellation arrives are parameters.
pub mod Parsed
pub mod Runs
pub mod InOrder
use minecraft_server_manager.Prelude.{
  ℕ, zero, suc, ◌+◌, Bool, true, false, Option, none, some, List, [], ◌∷◌, ◌++◌, length, ltb,
  if◌then◌else◌, Text,
}
use minecraft_server_manager.Prelude.Fallible.{Fallible, done, failed, ◌>>=◌}

-- A validated step, its parameters in the form that the action made of them.
pub record Step (P : Type 0) : Type 0 where
  pub action : Text
  pub params : P

-- An element of the list that the interface sends: not an object, or an object with the text of its
-- action and its parameters, `none` where they are neither a dict nor missing.
pub data RawStep (P : Type 0) : Type 0 where
  not_an_object : RawStep P
  raw_step : Text → Option P → RawStep P

pub data StepError (E : Type 0) : Type 0 where
  empty_event : StepError E
  event_too_long : ℕ → StepError E
  step_invalid : ℕ → StepError E
  unknown_action : Text → StepError E
  refused : ℕ → E → StepError E

abbrev pub max_steps : ℕ
max_steps = 100

-- The registry: the validation of the parameters of each action that is registered.
abbrev pub Registry : Type 0 → Type 0 → Type 0
Registry E P = Text → Option (P → Fallible E P)

abbrev pub numbered : {E P : Type 0} → ℕ → Text → Fallible E P → Fallible (StepError E) (Step P)
numbered index key (done params) = done (record { action = key; params = params })
numbered index key (failed e) = failed (refused index e)

abbrev pub with_params :
    {E P : Type 0} → ℕ → Text → (P → Fallible E P) → Option P → Fallible (StepError E) (Step P)
with_params index key validate none = failed (step_invalid index)
with_params index key validate (some params) = numbered index key (validate params)

-- The action is looked up before the parameters are read.
abbrev pub with_action :
    {E P : Type 0}
    → ℕ
    → Text
    → Option (P → Fallible E P)
    → Option P
    → Fallible (StepError E) (Step P)
with_action index key none params = failed (unknown_action key)
with_action index key (some validate) params = with_params index key validate params

unfoldable pub parse_step :
    {E P : Type 0} → Registry E P → ℕ → RawStep P → Fallible (StepError E) (Step P)
parse_step registry index not_an_object = failed (step_invalid index)
parse_step registry index (raw_step key params) = with_action index key (registry key) params

unfoldable pub parse_from :
    {E P : Type 0} → Registry E P → ℕ → List (RawStep P) → Fallible (StepError E) (List (Step P))
parse_from registry index [] = done []
parse_from registry index (raw ∷ raws) = do
  step ← parse_step registry index raw
  steps ← parse_from registry (index + 1) raws
  done (step ∷ steps)

-- `none` is a value that is not a list.
unfoldable pub parse_steps :
    {E P : Type 0}
    → Registry E P
    → Option (List (RawStep P))
    → Fallible (StepError E) (List (Step P))
unfolding parse_from
parse_steps registry none = failed empty_event
parse_steps registry (some []) = failed empty_event
parse_steps registry (some (raw ∷ raws)) =
    if ltb max_steps (length (raw ∷ raws))
    then failed (event_too_long (length (raw ∷ raws)))
    else parse_from registry 1 (raw ∷ raws)

pub data RunStatus : Type 0 where
  running : RunStatus
  completed : RunStatus
  run_failed : RunStatus
  cancelled : RunStatus

pub record RunProgress (E : Type 0) : Type 0 where
  pub status : RunStatus
  pub current_step : ℕ
  pub total_steps : ℕ
  pub error : Option E

-- How an action ends: it returns its result, raises an error, or is cancelled while it waits.
pub data Executed (E R : Type 0) : Type 0 where
  returned : R → Executed E R
  raised : E → Executed E R
  interrupted : Executed E R

-- What run returns or raises.
pub data Ended (E : Type 0) : Type 0 where
  finished : RunProgress E → Ended E
  cancelled_error : Ended E
  action_unknown : Text → Ended E

-- The environment of a run: which actions are registered, what a step does, and whether a
-- cancellation arrives while the n-th report is made.
pub record Environment (E P R W : Type 0) : Type 0 where
  pub is_registered : Text → Bool
  pub execute : Step P → W → Executed E R × W
  pub cancels : ℕ → Bool

pub record Run (E R W : Type 0) : Type 0 where
  pub reports : List (RunProgress E)
  pub results : List R
  pub world : W

abbrev pub progress_of : {E : Type 0} → RunStatus → ℕ → ℕ → Option E → RunProgress E
progress_of status index total error = record {
  status = status;
  current_step = index;
  total_steps = total;
  error = error;
}

module _ {E R W : Type 0} where
  -- The handler of CancelledError: its report is shielded as well.
  unfoldable pub cancel_at : ℕ → ℕ → Run E R W → Ended E × Run E R W
  cancel_at index total r = (
    cancelled_error,
    record r { reports = r.reports ++ progress_of cancelled index total none ∷ [] },
  )

  -- What follows a report under the `try`: the handler, or the rest of the run.
  abbrev pub unless_cancelled :
      ℕ → ℕ → Bool × Run E R W → (Run E R W → Ended E × Run E R W) → Ended E × Run E R W
  unless_cancelled index total (true, r) rest = cancel_at index total r
  unless_cancelled index total (false, r) rest = rest r

  -- After the loop no handler is left.
  abbrev pub finish : RunProgress E → Bool × Run E R W → Ended E × Run E R W
  finish progress (true, r) = (cancelled_error, r)
  finish progress (false, r) = (finished progress, r)

  abbrev pub new_run : W → Run E R W
  new_run w = record { reports = []; results = []; world = w }

module _ {E P R W : Type 0} where
  -- A report is made even if a cancellation arrives meanwhile: the callback shields its writing.
  unfoldable pub report : Environment E P R W → RunProgress E → Run E R W → Bool × Run E R W
  report env progress r =
      (env.cancels (length r.reports), record r { reports = r.reports ++ progress ∷ [] })

  abbrev pub after_step :
      Environment E P R W
      → ℕ
      → ℕ
      → Executed E R × W
      → Run E R W
      → (Run E R W → Ended E × Run E R W)
      → Ended E × Run E R W
  after_step env index total (returned result, w) r rest =
      unless_cancelled index total
        (report env (progress_of running index total none)
          (record r { results = r.results ++ result ∷ []; world = w }))
        rest
  after_step env index total (raised e, w) r rest =
      let progress = progress_of run_failed index total (some e) in
      unless_cancelled index total (report env progress (record r { world = w }))
        (λ r'. (finished progress, r'))
  after_step env index total (interrupted, w) r rest =
      cancel_at index total (record r { world = w })

  -- The loop from the step of number `index` on.
  unfoldable pub run_from :
      Environment E P R W → ℕ → ℕ → List (Step P) → Run E R W → Ended E × Run E R W
  run_from env index total [] r =
      let progress = progress_of completed total total none in
      finish progress (report env progress r)
  run_from env index total (step ∷ steps) r =
      if env.is_registered step.action
      then after_step env index total (env.execute step r.world) r
          (λ r'. run_from env (index + 1) total steps r')
      else (action_unknown step.action, r)

  unfoldable pub run : Environment E P R W → List (Step P) → W → Ended E × Run E R W
  unfolding run_from report cancel_at
  run env steps w =
      let total = length steps in
      unless_cancelled 0 total (report env (progress_of running 0 total none) (new_run w))
        (λ r. run_from env 1 total steps r)
