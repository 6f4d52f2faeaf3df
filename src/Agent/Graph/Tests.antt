-- ===== src/Agent/Graph/Tests.antt =====
-- graph.go: the theorems at a graph with a loop.
use claw_hermes_ai_go.Base.{
  ℕ, ◌+◌, ◌<◌, ◌≤◌, ◌≡◌, refl, ◌≢◌, ◌⊎◌, inl, inr, ◌↔◌, none, some, [], ◌∷◌, String, arith, ltb,
  str_eq, eq_iff, if◌then◌else◌, some_inj, some-ne-none, sym, subst, Bool-cases,
}
use claw_hermes_ai_go.Base.Int.{pos}
use claw_hermes_ai_go.Base.Dict.{lookup, insert, has}
use claw_hermes_ai_go.Agent.Graph.{
  end_node, NodeOutcome, returns, max_steps_reached, node_not_found, StateGraph, RunConfig,
  max_steps_of, new, add_node, add_conditional_edge, set_entry_point, check_edges, compile,
  next_node, leave, visit, enter, turn, loop, invoke,
}
use claw_hermes_ai_go.Agent.Graph.Compiled.{
  IsKnown, CondKnown, IsWellFormed, compile_iff, compiled_never_lost,
}
use claw_hermes_ai_go.Agent.Graph.Hops.{Hop, arrive, hop}
use claw_hermes_ai_go.Agent.Graph.Paths.{Walk-invoke}

abbrev think : ℕ → NodeOutcome ℕ String
think n = returns (n + 1) none

-- "think" until the state is above 1.
abbrev decide : ℕ → String
decide n = if ltb 1 n then end_node else "think"

abbrev thinking : StateGraph ℕ String
thinking = record {
  nodes = ("think", think) ∷ [];
  edges = [];
  cond_edges = ("think", decide) ∷ [];
  entry = "think";
}

thinking_built :
    set_entry_point (add_conditional_edge (add_node new "think" think) "think" decide) "think"
    ≡ thinking
unfolding new add_node add_conditional_edge set_entry_point insert
thinking_built = refl

abbrev five_steps : RunConfig
five_steps = record { max_steps = pos 5 }

compile_iff_example : (compile thinking ≡ none) ↔ IsWellFormed thinking
compile_iff_example = compile_iff thinking

thinking_compiles : compile thinking ≡ none
unfolding compile check_edges has lookup
thinking_compiles = refl

decide-IsKnown : (n : ℕ) → IsKnown thinking (decide n)
unfolding lookup has
decide-IsKnown n = elim (Bool-cases (ltb 1 n)) [ inl e ↦ rw e (inl refl) | inr e ↦ rw e (inr refl) ]

thinking-CondKnown : CondKnown thinking
unfolding lookup
thinking-CondKnown from fn s e = elim (Bool-cases (str_eq "think" from)) [
  | inl same ↦
      subst (λ (f : ℕ → String). IsKnown thinking (f s)) (some_inj (rw same at e))
        (decide-IsKnown s)
  | inr other ↦ absurd (some-ne-none (sym (rw other at e)))
]

compiled_never_lost_example :
    (invoke thinking (λ i. none) 0 five_steps).1 ≢ some (node_not_found "tool")
compiled_never_lost_example =
    compiled_never_lost thinking (λ i. none) 0 five_steps "tool" thinking_compiles
      thinking-CondKnown

invoke-thinking : invoke thinking (λ i. none) 0 five_steps ≡ (2, none)
unfolding invoke loop turn enter visit leave next_node lookup max_steps_of
invoke-thinking = refl

think-ne-end : ◌≢◌ {A = String} "think" end_node
think-ne-end e = ground (arith, eq_iff "think" end_node)

thinks : (n : ℕ) → Hop thinking "think" n (decide (n + 1)) (n + 1)
unfolding lookup
thinks n = record {
  inside = think-ne-end;
  node = think;
  registered = refl;
  runs = refl;
  leads = inl (decide, refl, refl);
}

Walk-invoke_example :
    ((2 < max_steps_of five_steps) × (invoke thinking (λ i. none) 0 five_steps ≡ (2, none)))
    ⊎ ((max_steps_of five_steps ≤ 2)
        × ((invoke thinking (λ i. none) 0 five_steps).1
            ≡ some (max_steps_reached (max_steps_of five_steps))))
Walk-invoke_example =
    Walk-invoke thinking (λ i. none) 0 2 five_steps 2 (λ i. refl)
      (hop (thinks 0) (hop (thinks 1) (arrive refl refl)))
