-- ===== src/Agent/React/Compiled.antt =====
-- react.go: the graph of the agent against what its compilation checks.
use claw_hermes_ai_go.Base.{
  ◌≡◌, refl, sym, subst, some_inj, some-ne-none, ◌≢◌, inl, inr, Bool-cases, ℕ, Option, none, some,
  List, [], ◌∷◌, String, str_eq, eq_iff, arith, last?,
}
use claw_hermes_ai_go.Base.Dict.{lookup, insert, has}
use claw_hermes_ai_go.CapGateway.{ToolCall, LlmMessage}
use claw_hermes_ai_go.Agent.Graph.{compile, invoke, RunConfig, node_not_found}
use claw_hermes_ai_go.Agent.Graph.Compiled.{IsKnown, CondKnown, compile_iff, compiled_never_lost}
use claw_hermes_ai_go.Agent.React.{
  ReActState, ReActError, Surroundings, react_graph, behind_llm, wants_tools, node_llm, node_tool,
}

tool_registered : (w : Surroundings) → IsKnown (react_graph w) node_tool
unfolding react_graph has lookup insert
tool_registered w = inr refl

wants_tools-IsKnown :
    (w : Surroundings) (m : LlmMessage) (calls : List ToolCall)
    → IsKnown (react_graph w) (wants_tools m calls)
unfolding wants_tools
wants_tools-IsKnown w m [] = inl refl
wants_tools-IsKnown w m (c ∷ cs) = elim (Bool-cases (str_eq m.role "assistant")) [
  | inl e ↦ rw e (tool_registered w)
  | inr e ↦ rw e (inl refl)
]

behind_llm-IsKnown :
    (w : Surroundings) (o : Option LlmMessage) → IsKnown (react_graph w) (behind_llm o)
unfolding behind_llm
behind_llm-IsKnown w none = inl refl
behind_llm-IsKnown w (some m) = wants_tools-IsKnown w m m.tool_calls

react_graph-CondKnown : (w : Surroundings) → CondKnown (react_graph w)
unfolding react_graph lookup insert
react_graph-CondKnown w from fn s e = elim (Bool-cases (str_eq node_llm from)) [
  | inl at ↦
      let same : (λ (x : ReActState). behind_llm (last? x.messages)) ≡ fn = some_inj (rw at at e) in
      subst (λ (f : ReActState → String). IsKnown (react_graph w) (f s)) same
        (behind_llm-IsKnown w (last? s.messages))
  | inr off ↦ absurd (some-ne-none (sym (rw off at e)))
]

react_graph-compiles : (w : Surroundings) → compile (react_graph w) ≡ none
unfolding react_graph has lookup insert
react_graph-compiles w = (compile_iff (react_graph w)).1 (record {
  entry_set = ground (arith, eq_iff node_llm "");
  entry_registered = refl;
  targets_known = (inr refl, tt);
})

-- The graph of the agent compiles, and no run of it ever fails for a node that is not found, whatever
-- the language model, the tools and the context do, and whatever state it starts from.
pub react_graph_never_lost :
    (w : Surroundings) (ctx : ℕ → Option ReActError) (initial : ReActState) (cfg : RunConfig)
    (k : String)
    → (compile (react_graph w) ≡ none)
      × ((invoke (react_graph w) ctx initial cfg).1 ≢ some (node_not_found k))
react_graph_never_lost w ctx initial cfg k = (
  react_graph-compiles w,
  compiled_never_lost (react_graph w) ctx initial cfg k (react_graph-compiles w)
      (react_graph-CondKnown w),
)
