-- ===== src/Agent/Graph.antt =====
-- internal/agent/graph/graph.go: a directed graph of stateful nodes, its validation and its run. The
-- state type is a parameter, as in the source. A node returns a state and perhaps an error, or
-- panics; the order of a map's entries stands for the order in which Go ranges over it. The text of
-- an error is kept only as far as it carries data; the stack trace of a panic is dropped.
pub mod Compiled
pub mod Hops
pub mod Paths
mod Tests
use claw_hermes_ai_go.Base.{
  ℕ, zero, suc, ◌+◌, Bool, true, false, Option, none, some, List, [], ◌∷◌, String, str_eq,
  if◌then◌else◌,
}
use claw_hermes_ai_go.Base.Int.{ℤ, not_positive, rounds}
use claw_hermes_ai_go.Base.Dict.{Dict, lookup, insert, has}

-- `END`
abbrev pub end_node : String
end_node = "__end__"

-- `Err` is the type of the errors of nodes and contexts.
pub data NodeOutcome {ℓ} (S Err : Type ℓ) : Type ℓ where
  returns : S → Option Err → NodeOutcome S Err
  panics : String → NodeOutcome S Err

pub data GraphError {ℓ} (Err : Type ℓ) : Type ℓ where
  entry_not_set : GraphError Err
  entry_not_registered : String → GraphError Err
  target_not_registered : String → String → GraphError Err
  context_done : Err → GraphError Err
  node_not_found : String → GraphError Err
  node_failed : Err → GraphError Err
  node_panicked : String → String → GraphError Err
  no_outgoing_edge : String → GraphError Err
  max_steps_reached : ℕ → GraphError Err

pub record StateGraph {ℓ} (S Err : Type ℓ) : Type ℓ where
  pub nodes : Dict (S → NodeOutcome S Err)
  pub edges : Dict String
  pub cond_edges : Dict (S → String)
  pub entry : String

pub record RunConfig : Type 0 where
  pub max_steps : ℤ

unfoldable pub max_steps_of : RunConfig → ℕ
max_steps_of cfg = if not_positive cfg.max_steps then 10 else rounds cfg.max_steps

-- How a round of the loop ends.
pub data Turn {ℓ} (S Err : Type ℓ) : Type ℓ where
  stops : S → Option (GraphError Err) → Turn S Err
  goes : S → String → Turn S Err

module _ {ℓ} {S Err : Type ℓ} where
  unfoldable pub new : StateGraph S Err
  new = record { nodes = []; edges = []; cond_edges = []; entry = "" }

  unfoldable pub add_node : StateGraph S Err → String → (S → NodeOutcome S Err) → StateGraph S Err
  add_node g name fn = record g { nodes = insert name fn g.nodes }

  unfoldable pub add_edge : StateGraph S Err → String → String → StateGraph S Err
  add_edge g from to = record g { edges = insert from to g.edges }

  unfoldable pub add_conditional_edge : StateGraph S Err → String → (S → String) → StateGraph S Err
  add_conditional_edge g from fn = record g { cond_edges = insert from fn g.cond_edges }

  unfoldable pub set_entry_point : StateGraph S Err → String → StateGraph S Err
  set_entry_point g name = record g { entry = name }

  -- The loop over the static edges in `Compile`.
  check_edges : Dict (S → NodeOutcome S Err) → Dict String → Option (GraphError Err)
  check_edges nodes [] = none
  check_edges nodes ((from, to) ∷ rest) =
      let later = check_edges nodes rest in
      if str_eq to end_node
      then later
      else if has to nodes
      then later
      else some (target_not_registered from to)

  -- `none` is a compiled graph, which is the graph itself.
  pub compile : StateGraph S Err → Option (GraphError Err)
  compile g =
      if str_eq g.entry ""
      then some entry_not_set
      else if has g.entry g.nodes
      then check_edges g.nodes g.edges
      else some (entry_not_registered g.entry)

  -- The node to go to from `current` in a state.
  unfoldable pub next_node : StateGraph S Err → String → S → Option String
  next_node g current state = elim (lookup current g.cond_edges) [
    | some cond_fn ↦ some (cond_fn state)
    | none ↦ lookup current g.edges
  ]

  -- The part of the loop's body behind the node's call.
  pub leave : StateGraph S Err → String → S → Option String → Turn S Err
  leave g current state none = stops state (some (no_outgoing_edge current))
  leave g current state (some next) = goes state next

  -- A panic leaves the state as it was before the call.
  pub visit : StateGraph S Err → String → S → NodeOutcome S Err → Turn S Err
  unfolding leave
  visit g current state (panics what) = stops state (some (node_panicked current what))
  visit g current state (returns state' (some e)) = stops state' (some (node_failed e))
  visit g current state (returns state' none) = leave g current state' (next_node g current state')

  pub enter : StateGraph S Err → String → S → Option (S → NodeOutcome S Err) → Turn S Err
  unfolding visit
  enter g current state none = stops state (some (node_not_found current))
  enter g current state (some fn) = visit g current state (fn state)

  -- The body of the loop; `done` is `ctx.Err()` if the context is done at that moment.
  unfoldable pub turn : StateGraph S Err → Option Err → String → S → Turn S Err
  unfolding enter
  turn g done current state = if str_eq current end_node then stops state none else elim done [
    | some e ↦ stops state (some (context_done e))
    | none ↦ enter g current state (lookup current g.nodes)
  ]

  -- The loop of `Invoke`: `left` rounds are left of `max`, and the next is number `i`.
  unfoldable pub loop :
      StateGraph S Err → (ℕ → Option Err) → ℕ → ℕ → ℕ → String → S → S × Option (GraphError Err)
  loop g ctx max zero i current state = (state, some (max_steps_reached max))
  loop g ctx max (suc left) i current state = elim (turn g (ctx i) current state) [
    | stops state' e ↦ (state', e)
    | goes state' next ↦ loop g ctx max left (i + 1) next state'
  ]

  unfoldable pub invoke :
      StateGraph S Err → (ℕ → Option Err) → S → RunConfig → S × Option (GraphError Err)
  unfolding loop
  invoke g ctx initial cfg = loop g ctx (max_steps_of cfg) (max_steps_of cfg) 0 g.entry initial
