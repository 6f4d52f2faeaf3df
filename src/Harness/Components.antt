-- ===== src/Harness/Components.antt =====
-- internal/harness/component.go: components that are made of functions, and the container of the
-- dependencies. A function of a component is its answer at the call; a dependency is of any type, and
-- `cast` stands for the type assertion.
use claw_hermes_ai_go.Base.{Option, none, some, List, [], ◌∷◌, String, str_append}
use claw_hermes_ai_go.Base.Dict.{Dict, lookup, insert}
use claw_hermes_ai_go.SkillGateway.Types.{GoError}

-- What the methods of a component answer; `none` is no error.
pub record Component : Type 0 where
  pub name : String
  pub start : Option GoError
  pub stop : Option GoError
  pub health_check : Option GoError

pub new_base_component : String → Component
new_base_component name = record { name = name; start = none; stop = none; health_check = none }

-- The functions that are set, by their answers.
pub record SimpleComponent : Type 0 where
  pub name : String
  pub start_func : Option (Option GoError)
  pub stop_func : Option (Option GoError)
  pub health_check_func : Option (Option GoError)

pub with_start_func : Option GoError → SimpleComponent → SimpleComponent
with_start_func fn c = record c { start_func = some fn }

pub with_stop_func : Option GoError → SimpleComponent → SimpleComponent
with_stop_func fn c = record c { stop_func = some fn }

pub with_health_check_func : Option GoError → SimpleComponent → SimpleComponent
with_health_check_func fn c = record c { health_check_func = some fn }

apply_all : List (SimpleComponent → SimpleComponent) → SimpleComponent → SimpleComponent
apply_all [] c = c
apply_all (opt ∷ opts) c = apply_all opts (opt c)

pub new_simple_component : String → List (SimpleComponent → SimpleComponent) → SimpleComponent
unfolding apply_all
new_simple_component name opts =
    apply_all opts
      (record { name = name; start_func = none; stop_func = none; health_check_func = none })

-- A function that is not set does nothing.
or_nothing : Option (Option GoError) → Option GoError
or_nothing none = none
or_nothing (some answer) = answer

pub simple : SimpleComponent → Component
unfolding or_nothing
simple c = record {
  name = c.name;
  start = or_nothing c.start_func;
  stop = or_nothing c.stop_func;
  health_check = or_nothing c.health_check_func;
}

pub record ComponentBuilder {ℓ} (D : Type ℓ) : Type ℓ where
  pub name : String
  pub deps : Dict D
  pub start_fn : Option (Dict D → Option GoError)
  pub stop_fn : Option (Option GoError)
  pub health_fn : Option (Option GoError)

abbrev pub DependencyContainer {ℓ} : Type ℓ → Type ℓ
DependencyContainer D = Dict D

-- A value, or the text of a panic.
pub data Must {ℓ} (A : Type ℓ) : Type ℓ where
  value : A → Must A
  panics : String → Must A

module _ {ℓ} {D : Type ℓ} where
  pub new_component_builder : String → ComponentBuilder D
  new_component_builder name = record {
    name = name;
    deps = [];
    start_fn = none;
    stop_fn = none;
    health_fn = none;
  }

  pub with_dependency : String → D → ComponentBuilder D → ComponentBuilder D
  with_dependency name dep b = record b { deps = insert name dep b.deps }

  pub with_start : (Dict D → Option GoError) → ComponentBuilder D → ComponentBuilder D
  with_start fn b = record b { start_fn = some fn }

  pub with_stop : Option GoError → ComponentBuilder D → ComponentBuilder D
  with_stop fn b = record b { stop_fn = some fn }

  pub with_health_check : Option GoError → ComponentBuilder D → ComponentBuilder D
  with_health_check fn b = record b { health_fn = some fn }

  start_with : Dict D → Option (Dict D → Option GoError) → Option GoError
  start_with deps none = none
  start_with deps (some fn) = fn deps

  -- The built component reads the builder when it starts.
  pub build : ComponentBuilder D → SimpleComponent
  unfolding start_with or_nothing
  build b = record {
    name = b.name;
    start_func = some (start_with b.deps b.start_fn);
    stop_func = some (or_nothing b.stop_fn);
    health_check_func = some (or_nothing b.health_fn);
  }

  pub register_dependency : DependencyContainer D → String → D → DependencyContainer D
  register_dependency c name dep = insert name dep c

  pub get : DependencyContainer D → String → Option D
  get c name = lookup name c

  pub must_get : DependencyContainer D → String → Must D
  unfolding get
  must_get c name = elim (get c name) [
    | some dep ↦ value dep
    | none ↦ panics (str_append "dependency not found: " name)
  ]

  pub get_typed {κ} : {A : Type κ} → (D → Option A) → DependencyContainer D → String → Option A
  unfolding get
  get_typed cast c name = elim (get c name) [ some dep ↦ cast dep | none ↦ none ]

  pub must_get_typed {κ} : {A : Type κ} → (D → Option A) → DependencyContainer D → String → Must A
  unfolding get_typed
  must_get_typed cast c name = elim (get_typed cast c name) [
    | some dep ↦ value dep
    | none ↦ panics (str_append "typed dependency not found: " name)
  ]
