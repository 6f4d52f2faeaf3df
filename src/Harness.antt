-- ===== src/Harness.antt =====
-- internal/harness: the life cycle of the program's components. harness.go stands here, component.go in
-- Harness/Components. Each method holds the mutex for its whole body. Go leaves open in which order
-- `range` meets the entries of a map, anew for each loop: the orders are arguments, lists of the
-- registered names. What the components are asked to do is recorded, with their answers as arguments.
pub mod Components
pub mod Cycle
pub mod Rollback
mod Tests
use claw_hermes_ai_go.Base.{
  Bool, true, false, Option, none, some, List, [], ◌∷◌, ◌++◌, map, String, str_append, str_eq,
  if◌then◌else◌,
}
use claw_hermes_ai_go.Base.Dict.{Dict, lookup, insert, has}
use claw_hermes_ai_go.SkillGateway.Types.{GoError}
use claw_hermes_ai_go.Harness.Components.{Component}

pub record Harness : Type 0 where
  pub components : Dict Component
  pub started : Bool

abbrev pub new : Harness
new = record { components = []; started = false }

-- A call of a component's method.
pub data Did : Type 0 where
  starts : String → Did
  stops : String → Did

pub data HarnessError : Type 0 where
  register_after_start : HarnessError
  already_registered : String → HarnessError
  already_started : HarnessError
  start_failed : String → GoError → HarnessError

pub register : Harness → Component → Harness × Option HarnessError
register h comp =
    if h.started
    then (h, some register_after_start)
    else if has comp.name h.components
    then (h, some (already_registered comp.name))
    else (record h { components = insert comp.name comp h.components }, none)

-- `stopStartedComponents`: the loop breaks at the failed name.
pub stop_started_components : List String → String → List Did
stop_started_components [] failed_name = []
stop_started_components (name ∷ rest) failed_name =
    let later = stops name ∷ stop_started_components rest failed_name in
    if str_eq name failed_name then [] else later

pub start_of : Option Component → Option GoError
start_of none = none
start_of (some comp) = comp.start

-- The loop of `Start`; the rollback ranges over the names in an order of its own.
pub start_loop : Dict Component → List String → List String → List Did × Option HarnessError
unfolding start_of
start_loop components rollback_order [] = ([], none)
start_loop components rollback_order (name ∷ rest) =
    let (did, failed) = start_loop components rollback_order rest in
    elim (start_of (lookup name components)) [
      | some e ↦
          (starts name ∷ stop_started_components rollback_order name, some (start_failed name e))
      | none ↦ (starts name ∷ did, failed)
    ]

pub mark_started :
    Harness → List Did × Option HarnessError → Harness × List Did × Option HarnessError
mark_started h (did, some e) = (h, did, some e)
mark_started h (did, none) = (record h { started = true }, did, none)

pub start : Harness → List String → List String → Harness × List Did × Option HarnessError
unfolding mark_started
start h order rollback_order =
    if h.started
    then (h, [], some already_started)
    else mark_started h (start_loop h.components rollback_order order)

-- The loop of `Stop`, from the last name of the order to the first; an error is logged only.
pub stop_backwards : List String → List Did
stop_backwards [] = []
stop_backwards (name ∷ rest) = stop_backwards rest ++ stops name ∷ []

pub stop : Harness → List String → Harness × List Did
unfolding stop_backwards
stop h order = if h.started then (record h { started = false }, stop_backwards order) else (h, [])

pub health_check : Dict Component → Dict (Option GoError)
health_check [] = []
health_check ((name, comp) ∷ rest) = (name, comp.health_check) ∷ health_check rest

pub get_component : Harness → String → Option Component
get_component h name = lookup name h.components

-- `Run`, whose components start, run until the context is done, and stop.
pub run :
    Harness
    → List String
    → List String
    → List String
    → GoError
    → Harness × List Did × Option HarnessError × Option GoError
unfolding start stop
run h order rollback_order stop_order done =
    let (h', did, failed) = start h order rollback_order in
    elim failed [
      | some e ↦ (h', did, some e, none)
      | none ↦ let (h'', undid) = stop h' stop_order in (h'', did ++ undid, none, some done)
    ]
