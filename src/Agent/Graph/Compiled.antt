-- ===== src/Agent/Graph/Compiled.antt =====
-- graph.go: what `Compile` accepts, and what a run of an accepted graph cannot meet.
use claw_hermes_ai_go.Base.{
  ℕ, zero, suc, ◌+◌, ◌≡◌, refl, ◌≢◌, ◌⊎◌, inl, inr, ◌↔◌, true, Option, none, some, [], ◌∷◌, String,
  str_eq, eq_iff, All, Bool-cases, Option-cases, some_inj, some-ne-none, subst, str_ne,
}
use claw_hermes_ai_go.Base.Dict.{Dict, lookup, has, is_some}
use claw_hermes_ai_go.Agent.Graph.{
  end_node, NodeOutcome, returns, panics, GraphError, node_not_found, StateGraph, RunConfig, Turn,
  stops, goes, check_edges, compile, next_node, leave, visit, enter, turn, loop, invoke,
  max_steps_of,
}

-- The error is not that of a missing node.
abbrev NotLost {ℓ} : {Err : Type ℓ} → Option (GraphError Err) → Type 0
NotLost (some (node_not_found k)) = ⊥
NotLost _ = Unit

module _ {ℓ} {S Err : Type ℓ} where
  -- A node that the run may be at: the end, or a registered node.
  abbrev pub IsKnown : StateGraph S Err → String → Type 0
  IsKnown g name = (name ≡ end_node) ⊎ (has name g.nodes ≡ true)

  abbrev EdgesKnown : Dict (S → NodeOutcome S Err) → Dict String → Type 0
  EdgesKnown nodes edges =
      All (λ (edge : String × String). (edge.1 ≡ end_node) ⊎ (has edge.1 nodes ≡ true)) edges

  check_edges-known :
      (nodes : Dict (S → NodeOutcome S Err)) (edges : Dict String)
      → check_edges nodes edges ≡ none
      → EdgesKnown nodes edges
  unfolding check_edges
  check_edges-known nodes [] e = tt
  check_edges-known nodes ((from, to) ∷ rest) e = elim (Bool-cases (str_eq to end_node)) [
    | inl at_end ↦
        (inl ((eq_iff to end_node).0 at_end), check_edges-known nodes rest (rw at_end at e))
    | inr inside ↦ elim (Bool-cases (has to nodes)) [
      | inl there ↦ (inr there, check_edges-known nodes rest (rw (inside, there) at e))
      | inr missing ↦ absurd (some-ne-none (rw (inside, missing) at e))
    ]
  ]

  known-check_edges :
      (nodes : Dict (S → NodeOutcome S Err)) (edges : Dict String)
      → EdgesKnown nodes edges
      → check_edges nodes edges ≡ none
  unfolding check_edges
  known-check_edges nodes [] h = refl
  known-check_edges nodes ((from, to) ∷ rest) h = elim (Bool-cases (str_eq to end_node)) [
    | inl at_end ↦ rw at_end (known-check_edges nodes rest h.1)
    | inr inside ↦ elim h.0 [
      | inl e ↦ cc (inside, (eq_iff to end_node).1 e)
      | inr there ↦ rw (inside, there) (known-check_edges nodes rest h.1)
    ]
  ]

  -- What `Compile` means to ensure.
  pub record IsWellFormed (g : StateGraph S Err) : Type 0 where
    pub entry_set : g.entry ≢ ""
    pub entry_registered : has g.entry g.nodes ≡ true
    pub targets_known : EdgesKnown g.nodes g.edges

  -- `Compile` accepts a graph exactly if its entry point is set and registered, and every static edge
  -- leads to a registered node or to the end.
  pub compile_iff : (g : StateGraph S Err) → (compile g ≡ none) ↔ IsWellFormed g
  unfolding compile
  compile_iff g = (accepts, accepted)
    where
      accepts : compile g ≡ none → IsWellFormed g
      accepts e = elim (Bool-cases (str_eq g.entry "")) [
        | inl empty ↦ absurd (some-ne-none (rw empty at e))
        | inr set ↦ elim (Bool-cases (has g.entry g.nodes)) [
          | inr missing ↦ absurd (some-ne-none (rw (set, missing) at e))
          | inl there ↦ record {
            entry_set = λ p. cc (set, (eq_iff g.entry "").1 p);
            entry_registered = there;
            targets_known = check_edges-known g.nodes g.edges (rw (set, there) at e);
          }
        ]
      ]

      accepted : IsWellFormed g → compile g ≡ none
      accepted h =
          rw (str_ne g.entry "" h.entry_set, h.entry_registered)
            (known-check_edges g.nodes g.edges h.targets_known)

  lookup-known :
      (nodes : Dict (S → NodeOutcome S Err)) (edges : Dict String) (from to : String)
      → EdgesKnown nodes edges
      → lookup from edges ≡ some to
      → (to ≡ end_node) ⊎ (has to nodes ≡ true)
  unfolding lookup
  lookup-known nodes [] from to h e = cc
  lookup-known nodes ((f, t) ∷ rest) from to h e = elim (Bool-cases (str_eq f from)) [
    | inl hit ↦ subst (λ x. (x ≡ end_node) ⊎ (has x nodes ≡ true)) (some_inj (rw hit at e)) h.0
    | inr miss ↦ lookup-known nodes rest from to h.1 (rw miss at e)
  ]

  -- The conditional edges lead to known nodes too, which `Compile` cannot check.
  abbrev pub CondKnown : StateGraph S Err → Type ℓ
  CondKnown g =
      (from : String) (fn : S → String) (s : S)
      → lookup from g.cond_edges ≡ some fn
      → IsKnown g (fn s)

  abbrev TurnFine : StateGraph S Err → Turn S Err → Type 0
  TurnFine g (stops s e) = NotLost e
  TurnFine g (goes s n) = IsKnown g n

  module _ (g : StateGraph S Err) (wf : IsWellFormed g) (cond : CondKnown g) where
    next-IsKnown :
        (current next : String) (s : S) → next_node g current s ≡ some next → IsKnown g next
    unfolding next_node
    next-IsKnown current next s e = elim (Option-cases (lookup current g.cond_edges)) [
      | inr (fn, h) ↦ subst (IsKnown g) (some_inj (rw (h, next_node) at e)) (cond current fn s h)
      | inl h ↦ lookup-known g.nodes g.edges current next wf.targets_known (rw (h, next_node) at e)
    ]

    leave-fine :
        (current : String) (s : S) (o : Option String)
        → next_node g current s ≡ o
        → TurnFine g (leave g current s o)
    unfolding leave
    leave-fine current s none e = tt
    leave-fine current s (some next) e = next-IsKnown current next s e

    visit-fine :
        (current : String) (s : S) (o : NodeOutcome S Err) → TurnFine g (visit g current s o)
    unfolding visit
    visit-fine current s (panics what) = tt
    visit-fine current s (returns s' (some e)) = tt
    visit-fine current s (returns s' none) = leave-fine current s' (next_node g current s') refl

    enter-fine :
        (current : String) (s : S) (o : Option (S → NodeOutcome S Err))
        → is_some o ≡ true
        → TurnFine g (enter g current s o)
    unfolding enter
    enter-fine current s none e = cc
    enter-fine current s (some fn) e = visit-fine current s (fn s)

    turn-fine :
        (done : Option Err) (current : String) (s : S)
        → IsKnown g current
        → TurnFine g (turn g done current s)
    unfolding turn has
    turn-fine (some e) current s known = elim (Bool-cases (str_eq current end_node)) [
      | inl at_end ↦ rw at_end tt
      | inr inside ↦ rw inside tt
    ]
    turn-fine none current s known = elim (Bool-cases (str_eq current end_node)) [
      | inl at_end ↦ rw at_end tt
      | inr inside ↦ rw inside (
          enter-fine current s (lookup current g.nodes)
            (elim known [ inl p ↦ cc (inside, (eq_iff current end_node).1 p) | inr there ↦ there ]))
    ]

    loop-NotLost :
        (ctx : ℕ → Option Err) (max left i : ℕ) (current : String) (s : S)
        → IsKnown g current
        → NotLost (loop g ctx max left i current s).1
    unfolding loop
    loop-NotLost ctx max zero i current s known = tt
    loop-NotLost ctx max (suc left) i current s known =
        by_turn (turn g (ctx i) current s) (turn-fine (ctx i) current s known)
          (λ s' next. loop-NotLost ctx max left (i + 1) next s')
      where
        by_turn :
            (t : Turn S Err)
            → TurnFine g t
            → ((s' : S) (next : String)
                → IsKnown g next
                → NotLost (loop g ctx max left (i + 1) next s').1)
            → NotLost
                (elim t as (λ x. S × Option (GraphError Err)) [
                  | stops s' e ↦ (s', e)
                  | goes s' next ↦ loop g ctx max left (i + 1) next s'
                ]).1
        by_turn (stops s' e) fine rest = fine
        by_turn (goes s' next) fine rest = rest s' next fine

  -- A run of a compiled graph whose conditional edges lead to registered nodes or to the end never
  -- fails for a node that is not found, whatever the nodes and the context do.
  pub compiled_never_lost :
      (g : StateGraph S Err) (ctx : ℕ → Option Err) (initial : S) (cfg : RunConfig) (k : String)
      → compile g ≡ none
      → CondKnown g
      → (invoke g ctx initial cfg).1 ≢ some (node_not_found k)
  unfolding invoke
  compiled_never_lost g ctx initial cfg k compiled cond e =
      let wf = (compile_iff g).0 compiled in
      subst NotLost e (
        loop-NotLost g wf cond ctx (max_steps_of cfg) (max_steps_of cfg) 0 g.entry initial
          (inr wf.entry_registered))
