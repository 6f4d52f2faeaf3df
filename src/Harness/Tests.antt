-- ===== src/Harness/Tests.antt =====
-- The harness at two components, of which the second may fail to start.
use claw_hermes_ai_go.Base.{
  ◌≡◌, refl, ◌⊎◌, true, false, Option, none, some, List, [], ◌∷◌, ◌++◌, map, String, All,
}
use mathlib.Core.List.{Perm}
use mathlib.Core.List.Perm
use claw_hermes_ai_go.SkillGateway.Types.{GoError}
use claw_hermes_ai_go.Harness.Components.{Component}
use claw_hermes_ai_go.Harness.{
  Harness, Did, starts, stops, HarnessError, start, stop_started_components, run,
}
use claw_hermes_ai_go.Harness.Cycle.{StartsWell, run_cycles}
use claw_hermes_ai_go.Harness.Rollback.{RollsBack, start_outcomes}

abbrev down : GoError
down = record { message = "down"; is_deadline_exceeded = false }

abbrev component : String → Option GoError → Component
component name answer = record { name = name; start = answer; stop = none; health_check = none }

abbrev two : Harness
two = record {
  components = ("db", component "db" none) ∷ ("web", component "web" (some down)) ∷ [];
  started = false;
}

abbrev order : List String
order = "db" ∷ "web" ∷ []

abbrev other_order : List String
other_order = "web" ∷ "db" ∷ []

-- A rollback in another order does not stop what has started.
stop_started_components_missed : stop_started_components other_order "web" ≡ []
unfolding stop_started_components
stop_started_components_missed = refl

start_outcomes_example :
    ((start two order other_order ≡ (record two { started = true }, map starts order, none))
      × All (StartsWell two.components) order)
    ⊎ RollsBack two order other_order (start two order other_order)
start_outcomes_example =
    start_outcomes two order other_order refl (Perm.refl order) (Perm.swap "db" "web" [])

run_cycles_example :
    ((e : HarnessError) × (did : List Did) × (run two order order other_order down
        ≡ (two, did, some e, none)))
    ⊎ ((undid : List Did) × Perm undid (map stops order)
        × (run two order order other_order down
            ≡ (two, map starts order ++ undid, none, some down)))
run_cycles_example = run_cycles two order order other_order down refl (Perm.swap "db" "web" [])
