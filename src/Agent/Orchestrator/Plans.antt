-- ===== src/Agent/Orchestrator/Plans.antt =====
-- orchestrator.go: the steps that a strategy gives to the participants.
use claw_hermes_ai_go.Base.{ℕ, ◌+◌, ◌≡◌, refl, List, [], ◌∷◌, String, All}
use mathlib.Core.List.{Mem, mem-cons_self, mem-cons_of_mem}
use claw_hermes_ai_go.Agent.Orchestrator.{
  CollaborationStrategy, sequential, parallel, hierarchical, consensus, swarm, pipeline, voting,
  adaptive, unknown_strategy, AgentIdentity, TaskStep, new_step, sequential_from, independent_from,
  create_sequential_steps, create_parallel_steps, create_hierarchical_steps, create_swarm_steps,
  create_steps,
}

-- Each step depends on steps before it only; the first list holds the IDs before the steps.
abbrev pub DependsBack : List String → List TaskStep → Type 0
DependsBack earlier [] = Unit
DependsBack earlier (s ∷ steps) =
    All (λ (d : String). Mem d earlier) s.dependencies × DependsBack (s.id ∷ earlier) steps

-- Each step is still to do, and belongs to one participant, in their order.
abbrev pub Assigned : List AgentIdentity → List TaskStep → Type 0
Assigned [] [] = Unit
Assigned (a ∷ group) (s ∷ steps) =
    ((s.agent_id ≡ a.id) × (s.status ≡ "pending")) × Assigned group steps
Assigned [] (s ∷ steps) = ⊥
Assigned (a ∷ group) [] = ⊥

module _ (ids : ℕ → String) where
  sequential_from-back :
      (i : ℕ) (deps earlier : List String) (group : List AgentIdentity)
      → All (λ (d : String). Mem d earlier) deps
      → DependsBack earlier (sequential_from ids i deps group)
        × Assigned group (sequential_from ids i deps group)
  unfolding sequential_from new_step
  sequential_from-back i deps earlier [] h = (tt, tt)
  sequential_from-back i deps earlier (a ∷ group) h =
      let (b, c) =
        sequential_from-back (i + 1) (ids i ∷ []) (ids i ∷ earlier) group (mem-cons_self, tt) in
      ((h, b), ((refl, refl), c))

  independent_from-back :
      (i : ℕ) (suffix : String) (deps earlier : List String) (group : List AgentIdentity)
      → All (λ (d : String). Mem d earlier) deps
      → DependsBack earlier (independent_from ids i suffix deps group)
        × Assigned group (independent_from ids i suffix deps group)
  unfolding independent_from new_step
  independent_from-back i suffix deps earlier [] h = (tt, tt)
  independent_from-back i suffix deps earlier (a ∷ group) h =
      let (b, c) =
        independent_from-back (i + 1) suffix deps (ids i ∷ earlier) group (weaken deps h) in
      ((h, b), ((refl, refl), c))
    where
      weaken :
          (ds : List String)
          → All (λ (d : String). Mem d earlier) ds
          → All (λ (d : String). Mem d (ids i ∷ earlier)) ds
      weaken [] h = tt
      weaken (d ∷ ds) h = (mem-cons_of_mem (ids i) h.0, weaken ds h.1)

  -- Under every strategy, a plan has one pending step for each participant, in their order, and each
  -- step depends only on steps before it, so that the steps can run in the order of the plan.
  pub create_steps_ordered :
      (strategy : CollaborationStrategy) (participants : List AgentIdentity)
      → DependsBack [] (create_steps ids strategy participants)
        × Assigned participants (create_steps ids strategy participants)
  unfolding create_steps create_sequential_steps create_parallel_steps create_hierarchical_steps
      create_swarm_steps new_step
  create_steps_ordered sequential group = sequential_from-back 0 [] [] group tt
  create_steps_ordered parallel group = independent_from-back 0 "" [] [] group tt
  create_steps_ordered hierarchical [] = (tt, tt)
  create_steps_ordered hierarchical (a ∷ group) =
      let (b, c) = independent_from-back 1 "" (ids 0 ∷ []) (ids 0 ∷ []) group (mem-cons_self, tt) in
      ((tt, b), ((refl, refl), c))
  create_steps_ordered consensus group = sequential_from-back 0 [] [] group tt
  create_steps_ordered swarm group = independent_from-back 0 "_swarm_agent" [] [] group tt
  create_steps_ordered pipeline group = sequential_from-back 0 [] [] group tt
  create_steps_ordered voting group = sequential_from-back 0 [] [] group tt
  create_steps_ordered adaptive group = sequential_from-back 0 [] [] group tt
  create_steps_ordered (unknown_strategy s) group = sequential_from-back 0 [] [] group tt
