-- ===== src/Events/Engine/Parsed.antt =====
-- engine.py: what holds of the steps of an event that was accepted.
use minecraft_server_manager.Prelude.{
  ℕ, suc, ◌+◌, ◌≤◌, true, Option, none, some, List, [], ◌∷◌, length, ltb, is_some, All, Text,
  Bool-cases, ◌≡◌, refl, ap, sym, ◌∙◌, subst, arith, inl, inr,
}
use minecraft_server_manager.Prelude.Fallible.{Fallible, done, failed, >>=-done, done_injective}
use minecraft_server_manager.Events.Engine.{
  Step, RawStep, not_an_object, raw_step, max_steps, Registry, numbered, with_action, parse_step,
  parse_from, parse_steps,
}

module _ {E P : Type 0} where
  -- A step comes from an object of the list: it has its action, which is registered, and the
  -- parameters that the action's validation made of those of the object.
  abbrev pub IsParsed : Registry E P → RawStep P → Step P → Type 0
  IsParsed registry raw s =
      (validate : P → Fallible E P) × (given : P) × (raw ≡ raw_step s.action (some given))
      × (registry s.action ≡ some validate)
      × (validate given ≡ done s.params)

  abbrev pub AreParsed : Registry E P → List (RawStep P) → List (Step P) → Type 0
  AreParsed registry [] [] = Unit
  AreParsed registry (raw ∷ raws) (s ∷ ss) = IsParsed registry raw s × AreParsed registry raws ss
  AreParsed registry raws steps = ⊥

  numbered-done :
      (index : ℕ) (key : Text) (result : Fallible E P) {s : Step P}
      → numbered index key result ≡ done s
      → (s.action ≡ key) × (result ≡ done s.params)
  numbered-done index key (done params) h =
      let e = done_injective h in (ap (λ s. s.action) (sym e), ap (λ s. done s.params) e)
  numbered-done index key (failed e) h = cc

  with_action-IsParsed :
      (registry : Registry E P) (index : ℕ) (key : Text) (params : Option P)
      (action : Option (P → Fallible E P))
      → registry key ≡ action
      → (s : Step P) → with_action index key action params ≡ done s
      → IsParsed registry (raw_step key params) s
  with_action-IsParsed registry index key params none known s h = absurd (let bad = h in cc)
  with_action-IsParsed registry index key none (some validate) known s h =
      absurd (let bad = h in cc)
  with_action-IsParsed registry index key (some given) (some validate) known s h =
      let (same, valid) = numbered-done index key (validate given) h in
      (
        validate,
        given,
        ap (λ k. raw_step k (some given)) (sym same),
        ap registry same ∙ known,
        valid,
      )

  parse_step-IsParsed :
      (registry : Registry E P) (index : ℕ) (raw : RawStep P) (s : Step P)
      → parse_step registry index raw ≡ done s
      → IsParsed registry raw s
  unfolding parse_step
  parse_step-IsParsed registry index not_an_object s h = absurd (let bad = h in cc)
  parse_step-IsParsed registry index (raw_step key params) s h =
      with_action-IsParsed registry index key params (registry key) refl s h

  parse_from-AreParsed :
      (registry : Registry E P) (index : ℕ) (raws : List (RawStep P)) {steps : List (Step P)}
      → parse_from registry index raws ≡ done steps
      → AreParsed registry raws steps × (length steps ≡ length raws)
  unfolding parse_from
  parse_from-AreParsed registry index [] h =
      subst (λ l. AreParsed registry [] l × (length l ≡ 0)) (done_injective h) (tt, refl)
  parse_from-AreParsed registry index (raw ∷ raws) h =
      let (s, a, h1) = >>=-done (parse_step registry index raw) _ h in
      let (ss, b, h2) = >>=-done (parse_from registry (index + 1) raws) _ h1 in
      let (rest, size) = parse_from-AreParsed registry (index + 1) raws b in
      subst (λ l. AreParsed registry (raw ∷ raws) l × (length l ≡ suc (length raws)))
        (done_injective h2) ((parse_step-IsParsed registry index raw s a, rest), ap suc size)

  -- An event that is accepted has from 1 to 100 steps, one for each element of the list, in order,
  -- each of a registered action whose validation gave its parameters.
  pub parse_steps-AreParsed :
      (registry : Registry E P) (raws : List (RawStep P)) {steps : List (Step P)}
      → parse_steps registry (some raws) ≡ done steps
      → AreParsed registry raws steps × (1 ≤ length steps) × (length steps ≤ max_steps)
  unfolding parse_steps
  parse_steps-AreParsed registry [] h = cc
  parse_steps-AreParsed registry (raw ∷ raws) h =
      elim (Bool-cases (ltb max_steps (length (raw ∷ raws)))) [
        | inl long ↦ let bad = rw long at h in cc
        | inr short ↦
            let (parsed, size) = parse_from-AreParsed registry 1 (raw ∷ raws) (rw short at h) in
            (parsed, omega arith, ground arith)
      ]

  pub AreParsed-registered :
      (registry : Registry E P) (raws : List (RawStep P)) (steps : List (Step P))
      → AreParsed registry raws steps
      → All (λ s. is_some (registry s.action) ≡ true) steps
  AreParsed-registered registry [] [] h = tt
  AreParsed-registered registry [] (s ∷ steps) h = absurd h
  AreParsed-registered registry (raw ∷ raws) [] h = absurd h
  AreParsed-registered registry (raw ∷ raws) (s ∷ steps) h =
      let (validate, given, same, known, valid) = h.0 in
      (ap is_some known, AreParsed-registered registry raws steps h.1)
