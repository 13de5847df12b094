-- ===== src/Scenario/Running.antt =====
-- The hooks of scenario/node/src/scenario_steps.ts, and what Cucumber makes of them and of the steps:
-- one object of class `Fabric` for all scenarios and one world for each; the first step that fails ends
-- its scenario, whose hook runs all the same.
pub mod Adding
pub mod Released
use fabric_gateway.Base.{List, [], ◌∷◌}
use fabric_gateway.Effect.Whole.{for_each}
use fabric_gateway.Errors.{History}
use fabric_gateway.Scenario.Fabric.{Fabric, new_fabric, docker_down}
use fabric_gateway.Scenario.HsmUsers.{HsmState}
use fabric_gateway.Scenario.World.{new_world}
use fabric_gateway.Scenario.World
use fabric_gateway.Scenario.Steps.{
  ScenarioStep, Surroundings, Suite, SuiteStep, on_fabric, on_world, perform,
}

-- `BeforeAll`
abbrev pub before_all : Fabric
before_all = new_fabric

-- `After`
abbrev pub after_scenario : SuiteStep (Unit {0})
after_scenario = on_world World.close

-- The new world of a scenario.
abbrev pub enter : Suite → Suite
enter (f, (w, h)) = (f, (new_world w.hsm, h))

module _ (x : Surroundings) where
  -- `AfterAll`
  abbrev pub after_all : SuiteStep (Unit {0})
  after_all = on_fabric (docker_down x.host)

  unfoldable pub run_steps : List ScenarioStep → SuiteStep (Unit {0})
  run_steps steps = for_each (perform x) steps

  -- Where a scenario is left, whether it passed or not.
  abbrev pub scenario : List ScenarioStep → Suite → Suite
  scenario steps s = (after_scenario (run_steps steps (enter s)).1).1

  abbrev pub scenarios : List (List ScenarioStep) → Suite → Suite
  scenarios [] s = s
  scenarios (steps ∷ others) s = scenarios others (scenario steps s)

  abbrev pub suite : List (List ScenarioStep) → HsmState → History → Suite
  suite all hsm h = (after_all (scenarios all ((before_all, []), (new_world hsm, h)))).1
