-- ===== src/Scenario/Running/Released.antt =====
-- What the hook after a scenario closes (scenario/node/src/scenario_steps.ts).
use fabric_gateway.Base.{
  ℕ, ◌<◌, ◌≡◌, refl, ap, subst, String, Option, none, some, List, [], ◌∷◌, inl, inr, arith,
}
use fabric_gateway.Js.Object.{Object, get}
use fabric_gateway.Effect.{Result, ok, err, continue_with}
use fabric_gateway.Effect.Whole.{for_each}
use fabric_gateway.Errors.{Thrown, History}
use fabric_gateway.Scenario.Context.Released.{HasClosed}
use fabric_gateway.Scenario.World.{CustomWorld, close}
use fabric_gateway.Scenario.World.Named.{AreNamed, AreFree, AreDistinct, AreNamed-put, AreFree-put}
use fabric_gateway.Scenario.World.Released.{close-HaveClosed, values-get}
use fabric_gateway.Scenario.Steps.{ScenarioStep, Surroundings, Suite, perform}
use fabric_gateway.Scenario.Running.{run_steps, enter, after_scenario}
use fabric_gateway.Scenario.Running.Adding.{
  gateway_name, gateway_names, with_name, MayAdd, perform-MayAdd,
}

-- Each context has a name, and the names of the steps to come are free.
abbrev Ready : List String → CustomWorld → Type 0
Ready names w = AreNamed w.gateways w.contexts_made × AreFree w.gateways names

-- Like `Ready`, for the fields.
abbrev ReadyAt : List String → Object ℕ → ℕ → Type 0
ReadyAt names gateways made = AreNamed gateways made × AreFree gateways names

ready_same :
    (names : List String) (gateways g : Object ℕ) (made n : ℕ)
    → g ≡ gateways
    → n ≡ made
    → ReadyAt names gateways made
    → ReadyAt names g n
ready_same names gateways g made n e f r = rw e (rw f r)

Ready-after :
    (name : Option String) (names : List String) (w : CustomWorld) (s : CustomWorld × History)
    → MayAdd name w s
    → Ready (with_name name names) w
    → AreDistinct (with_name name names)
    → Ready names s.0
Ready-after none names w s (e, f) r d = ready_same names _ _ _ _ e f r
Ready-after (some name) names w s (inl (e, f)) (named, (free, others)) d =
    ready_same names _ _ _ _ e f (named, others)
Ready-after (some name) names w s (inr (e, f)) (named, (free, others)) (other, d) =
    ready_same names _ _ _ _ e f (
      AreNamed-put name w.gateways w.contexts_made named free,
      AreFree-put name w.gateways w.contexts_made names others other,
    )

distinct_rest :
    (name : Option String) (names : List String)
    → AreDistinct (with_name name names)
    → AreDistinct names
distinct_rest none names d = d
distinct_rest (some name) names (other, d) = d

module _ (x : Surroundings) where
  named_after :
      (steps : List ScenarioStep) (y : Result Thrown (Unit {0}) × Suite)
      → AreNamed y.1.1.0.gateways y.1.1.0.contexts_made
      → ((s : Suite)
          → y ≡ (ok tt, s)
          → (let w = (for_each (perform x) steps s).1.1.0 in AreNamed w.gateways w.contexts_made))
      → let w = (continue_with (λ _. for_each (perform x) steps) y).1.1.0 in
        AreNamed w.gateways w.contexts_made
  named_after steps (ok tt, s) named k = k s refl
  named_after steps (err e, s) named k = named

  run_steps-AreNamed :
      (steps : List ScenarioStep) (s : Suite)
      → Ready (gateway_names steps) s.1.0
      → AreDistinct (gateway_names steps)
      → let w = (for_each (perform x) steps s).1.1.0 in AreNamed w.gateways w.contexts_made
  run_steps-AreNamed [] s r d = r.0
  run_steps-AreNamed (p ∷ steps) s r d =
      let next : Ready (gateway_names steps) (perform x p s).1.1.0 =
        Ready-after (gateway_name p) (gateway_names steps) s.1.0 (perform x p s).1.1
          (perform-MayAdd x s p) r d in
      named_after steps (perform x p s) next.0 λ t e.
        run_steps-AreNamed steps t
          (subst (λ (y : Result Thrown (Unit {0}) × Suite). Ready (gateway_names steps) y.1.1.0) e
            next)
          (distinct_rest (gateway_name p) (gateway_names steps) d)

  free_at_first : (names : List String) → AreFree [] names
  unfolding get
  free_at_first [] = tt
  free_at_first (name ∷ names) = (refl, free_at_first names)

  -- Where the steps of a scenario make no two gateways of one name, and the hook after it returns, the
  -- gRPC client and the HSM session of each context that the scenario has made are closed, if it has
  -- them, however the scenario ended.
  pub scenario-HasClosed :
      (steps : List ScenarioStep) (s s' : Suite) (n : ℕ)
      → AreDistinct (gateway_names steps)
      → after_scenario (run_steps x steps (enter s)).1 ≡ (ok tt, s')
      → n < (run_steps x steps (enter s)).1.1.0.contexts_made
      → HasClosed ((run_steps x steps (enter s)).1.1.0.contexts n) s'.1.0.closed
  unfolding run_steps
  scenario-HasClosed steps s s' n d r p =
      let end = (for_each (perform x) steps (enter s)).1 in
      let (name, e) =
        run_steps-AreNamed steps (enter s)
          (λ m q. absurd (omega arith), free_at_first (gateway_names steps)) d n p in
      let closed : close end.1 ≡ (ok tt, s'.1) =
        ap (λ (y : Result Thrown (Unit {0}) × Suite). (y.0, y.1.1)) r in
      close-HaveClosed end.1.0 s'.1.0 end.1.1 s'.1.1 closed n (values-get name n end.1.0.gateways e)
