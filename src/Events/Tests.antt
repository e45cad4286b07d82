-- ===== src/Events/Tests.antt =====
-- Events of concrete steps: an action "wait" that counts its runs, and an action "fail".
use minecraft_server_manager.Prelude.{
  ℕ, suc, ◌≤◌, length, ◌≡◌, ◌≢◌, refl, Bool, true, false, none, some, List, [], ◌∷◌, is_some,
  if◌then◌else◌, text_eq, codes,
}
use minecraft_server_manager.Prelude.Fallible.{Fallible, done}
use minecraft_server_manager.Events.Engine.{
  Step, RawStep, raw_step, max_steps, Registry, parse_steps, parse_step, running, Executed,
  returned, raised, interrupted, Environment, progress_of, run,
}
use minecraft_server_manager.Events.Engine.Parsed.{AreParsed, parse_steps-AreParsed}
use minecraft_server_manager.Events.Engine.Runs.{IsReported, run-IsReported}
use minecraft_server_manager.Events.Engine.InOrder.{in_order, ended_run, run-in_order}

abbrev accept : ℕ → Fallible ℕ ℕ
accept n = done n

abbrev two_actions : Registry ℕ ℕ
two_actions key =
    if text_eq key (codes "wait")
    then some accept
    else if text_eq key (codes "fail")
    then some accept
    else none

abbrev raw_steps : List (RawStep ℕ)
raw_steps = raw_step (codes "wait") (some 5) ∷ raw_step (codes "fail") (some 7) ∷ []

abbrev wait_step : Step ℕ
wait_step = record { action = codes "wait"; params = 5 }

abbrev fail_step : Step ℕ
fail_step = record { action = codes "fail"; params = 7 }

abbrev two_steps : List (Step ℕ)
two_steps = wait_step ∷ fail_step ∷ []

two_steps_parsed : parse_steps two_actions (some raw_steps) ≡ done two_steps
unfolding parse_steps parse_step
two_steps_parsed = refl

-- The world counts the steps that were tried.
abbrev try_step : Bool → ℕ → ℕ → Executed ℕ ℕ × ℕ
try_step true n w = (returned n, suc w)
try_step false n w = (raised n, suc w)

abbrev do_step : Step ℕ → ℕ → Executed ℕ ℕ × ℕ
do_step s w = try_step (text_eq s.action (codes "wait")) s.params w

abbrev calm_server : Environment ℕ ℕ ℕ ℕ
calm_server = record {
  is_registered = λ key. is_some (two_actions key);
  execute = do_step;
  cancels = λ n. false;
}

-- A cancellation at every report.
abbrev stopped_server : Environment ℕ ℕ ℕ ℕ
stopped_server = record calm_server { cancels = λ n. true }

run-IsReported_example : IsReported (run stopped_server two_steps 0)
run-IsReported_example = run-IsReported stopped_server two_steps 0 (refl, (refl, tt))

not_interrupted : (s : Step ℕ) (w : ℕ) → (do_step s w).0 ≢ interrupted
not_interrupted s w = go (text_eq s.action (codes "wait"))
  where
    go : (b : Bool) → (try_step b s.params w).0 ≢ interrupted
    go true = λ e. cc
    go false = λ e. cc

run-in_order_example :
    run calm_server two_steps 0
    ≡ ended_run 1 2
        (record { reports = progress_of running 0 2 none ∷ []; results = []; world = 0 })
        (in_order calm_server two_steps 0)
run-in_order_example =
    run-in_order calm_server two_steps 0 (refl, (refl, tt)) (λ n. refl) not_interrupted

second_step_fails : in_order calm_server two_steps 0 ≡ (5 ∷ [], some 7, 2)
unfolding in_order
second_step_fails = refl

parse_steps-AreParsed_example :
    AreParsed two_actions raw_steps two_steps
    × (1 ≤ length two_steps)
    × (length two_steps ≤ max_steps)
parse_steps-AreParsed_example = parse_steps-AreParsed two_actions raw_steps two_steps_parsed
