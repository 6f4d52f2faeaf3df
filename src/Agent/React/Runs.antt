-- ===== src/Agent/React/Runs.antt =====
-- react.go: a run of the whole graph.
use claw_hermes_ai_go.Base.{
  ℕ, suc, ◌*◌, ◌≤◌, ◌≡◌, refl, sym, ap, subst, ◌∙◌, ◌≢◌, ◌⊎◌, inl, inr, Option, none, List, [], ◌∷◌,
  ◌++◌, append_assoc, append-nil, String, eq_iff, last?, last?-append, some_inj, arith,
}
use claw_hermes_ai_go.Base.Dict.{lookup, insert}
use claw_hermes_ai_go.CapGateway.{ToolCall, CapabilityResponse}
use claw_hermes_ai_go.Agent.Graph.{returns, RunConfig, max_steps_of, invoke, end_node}
use claw_hermes_ai_go.Agent.Graph.Hops.{Hop, Walk, arrive, hop}
use claw_hermes_ai_go.Agent.Graph.Paths.{invoke-Walk}
use claw_hermes_ai_go.Agent.React.{
  ReActState, ReActError, Surroundings, answered, llm_node, tool_node, node_llm, node_tool,
  react_graph, calls_of, behind_llm, wants_tools, assistant_message,
}
use claw_hermes_ai_go.Agent.React.Transcript.{final_answer, round, Extends}
use claw_hermes_ai_go.Agent.React.Nodes.{llm_node-answered, tool_node-Replied, Replied}

-- A hop from either node of the graph.
llm-Hop :
    (w : Surroundings) (s s' : ReActState) (next : String)
    → Hop (react_graph w) node_llm s next s'
    → (llm_node w s ≡ returns s' none) × (next ≡ behind_llm (last? s'.messages))
unfolding react_graph lookup insert
llm-Hop w s s' next h = (
  ap (λ f. f s) (some_inj h.registered) ∙ h.runs,
  elim h.leads [
    | inl (cond, set, e) ↦ sym (ap (λ f. f s') (some_inj set) ∙ e)
    | inr (unset, e) ↦ absurd (cc)
  ],
)

tool-Hop :
    (w : Surroundings) (s s' : ReActState) (next : String)
    → Hop (react_graph w) node_tool s next s'
    → (tool_node w s ≡ returns s' none) × (next ≡ node_llm)
unfolding react_graph lookup insert
tool-Hop w s s' next h = (
  ap (λ f. f s) (some_inj h.registered) ∙ h.runs,
  elim h.leads [ inl (cond, set, e) ↦ absurd (cc) | inr (unset, e) ↦ sym (some_inj e) ],
)

answered-plain :
    (s : ReActState) (resp : CapabilityResponse)
    → (behind_llm (last? (answered s resp []).messages) ≡ end_node)
unfolding answered behind_llm wants_tools assistant_message
answered-plain s resp = rw (last?-append s.messages (assistant_message resp.content [])) refl

answered-calls :
    (s : ReActState) (resp : CapabilityResponse) (call : ToolCall) (calls : List ToolCall)
    → (behind_llm (last? (answered s resp (call ∷ calls)).messages) ≡ node_tool)
      × (calls_of (last? (answered s resp (call ∷ calls)).messages) ≡ call ∷ calls)
unfolding answered behind_llm wants_tools calls_of assistant_message
answered-calls s resp call calls = (
  rw (last?-append s.messages (assistant_message "" (call ∷ calls))) refl,
  rw (last?-append s.messages (assistant_message "" (call ∷ calls))) refl,
)

Extends-answered : (s : ReActState) (resp : CapabilityResponse) → Extends 1 s (answered s resp [])
unfolding answered assistant_message
Extends-answered s resp = record {
  added = assistant_message resp.content [] ∷ [];
  called = [];
  transcript = final_answer resp.content;
  messages_added = refl;
  calls_added = sym (append-nil s.all_tool_calls);
  steps_counted = refl;
}

Extends-round :
    (n : ℕ) (s s' final : ReActState) (resp : CapabilityResponse) (call : ToolCall)
    (calls : List ToolCall)
    → Replied (call ∷ calls) (answered s resp (call ∷ calls)) s'
    → Extends n s' final
    → Extends (suc n) s final
unfolding answered assistant_message
Extends-round n s s' final resp call calls r x =
    let ask = assistant_message "" (call ∷ calls) in
    record {
      added = ask ∷ r.replies ++ x.added;
      called = (call ∷ calls) ++ x.called;
      transcript = round call calls r.one_each x.transcript;
      messages_added =
          rw
            (
              x.messages_added,
              r.messages_added,
              append_assoc (s.messages ++ ask ∷ []) r.replies x.added,
              append_assoc s.messages (ask ∷ []) (r.replies ++ x.added),
            )
            refl;
      calls_added =
          rw (x.calls_added, r.calls_added, append_assoc s.all_tool_calls (call ∷ calls) x.called)
            refl;
      steps_counted = omega (arith, x.steps_counted, r.steps_kept);
    }

-- A step ends the run with its answer, or it leads to the tools.
Stepped : (s s' : ReActState) (next : String) → Type 0
Stepped s s' next =
    ((next ≡ end_node) × Extends 1 s s')
    ⊎ ((resp : CapabilityResponse) × (call : ToolCall) × (calls : List ToolCall) × (next
          ≡ node_tool)
        × (s' ≡ answered s resp (call ∷ calls)))

answered-Stepped :
    (s s' : ReActState) (resp : CapabilityResponse) (calls : List ToolCall) (next : String)
    → s' ≡ answered s resp calls
    → next ≡ behind_llm (last? s'.messages)
    → Stepped s s' next
unfolding Stepped
answered-Stepped s s' resp [] next same leads = inl (
  leads ∙ ap (λ (x : ReActState). behind_llm (last? x.messages)) same ∙ answered-plain s resp,
  subst (Extends 1 s) (sym same) (Extends-answered s resp),
)
answered-Stepped s s' resp (call ∷ calls) next same leads = inr (
  resp,
  call,
  calls,
  leads
      ∙ ap (λ (x : ReActState). behind_llm (last? x.messages)) same
      ∙ (answered-calls s resp call calls).0,
  same,
)

llm_step :
    (w : Surroundings) (at next : String) (s s' : ReActState)
    → at ≡ node_llm
    → Hop (react_graph w) at s next s'
    → Stepped s s' next
llm_step w at next s s' e h =
    let (runs, leads) = llm-Hop w s s' next (subst (λ c. Hop (react_graph w) c s next s') e h) in
    let (resp, got) = llm_node-answered w s s' runs in
    answered-Stepped s s' resp resp.tool_calls next got leads

tool_step :
    (w : Surroundings) (at next : String) (s s' : ReActState)
    → at ≡ node_tool
    → Hop (react_graph w) at s next s'
    → (next ≡ node_llm) × Replied (calls_of (last? s.messages)) s s'
tool_step w at next s s' e h =
    let (runs, leads) = tool-Hop w s s' next (subst (λ c. Hop (react_graph w) c s next s') e h) in
    (leads, tool_node-Replied w s s' runs)

Extends-both :
    (s s' t final : ReActState) (resp : CapabilityResponse) (call : ToolCall)
    (calls : List ToolCall) (n : ℕ)
    → s' ≡ answered s resp (call ∷ calls)
    → Replied (calls_of (last? s'.messages)) s' t
    → Extends n t final
    → Extends (suc n) s final
Extends-both s s' t final resp call calls n same r x =
    let r' : Replied (calls_of (last? (answered s resp (call ∷ calls)).messages))
        (answered s resp (call ∷ calls)) t =
      subst (λ (y : ReActState). Replied (calls_of (last? y.messages)) y t) same r in
    Extends-round n s t final resp call calls
      (subst (λ cs. Replied cs (answered s resp (call ∷ calls)) t)
        (answered-calls s resp call calls).1 r')
      x

Walk-Extends :
    (w : Surroundings) (final : ReActState) {h : ℕ} {at : String} {s : ReActState}
    → at ≡ node_llm
    → Walk (react_graph w) final h at s
    → (n : ℕ) × (suc h ≡ 2 * n) × Extends n s final
unfolding Stepped
Walk-Extends w final {at = at} e (arrive ended same) = absurd (apart (sym e ∙ ended))
  where
    apart : ◌≢◌ {A = String} node_llm end_node
    apart = ground (arith, eq_iff node_llm end_node)
Walk-Extends w final {at = at} {s = s} e (hop {next = next} {s' = s'} h (arrive ended same)) =
    elim (llm_step w at next s s' e h) [
      | inl (done, x) ↦ (1, refl, subst (Extends 1 s) same x)
      | inr (resp, call, calls, goes_on, got) ↦ absurd (apart (sym goes_on ∙ ended))
    ]
  where
    apart : ◌≢◌ {A = String} node_tool end_node
    apart = ground (arith, eq_iff node_tool end_node)
Walk-Extends w final {at = at} {s = s} e
      (hop {next = next} {s' = s'} h (hop {next = later} {s' = t} h' walk)) =
    elim (llm_step w at next s s' e h) [
      | inl (done, x) ↦ absurd (h'.inside done)
      | inr (resp, call, calls, goes_on, got) ↦
          let (back, r) = tool_step w next later s' t goes_on h' in
          let (n, twice, x) = Walk-Extends w final back walk in
          (suc n, omega arith, Extends-both s s' t final resp call calls n got r x)
    ]

-- A run of the agent that returns without an error has had at least one answer of the language model,
-- and twice as many as it has had are at most the steps that the configuration allows. Its final
-- messages are the initial ones followed by the transcript of these answers: each but the last asks
-- for at least one call and is followed by one reply to each of its calls, in their order and under
-- their IDs, and the last one has no calls and its content is the final output. The recorded calls
-- are the initial ones and those of the transcript, in order, and the step counter has grown by the
-- number of answers.
pub react_run_transcribed :
    (w : Surroundings) (ctx : ℕ → Option ReActError) (initial final : ReActState) (cfg : RunConfig)
    → invoke (react_graph w) ctx initial cfg ≡ (final, none)
    → (n : ℕ) × (1 ≤ n) × (2 * n ≤ max_steps_of cfg) × Extends n initial final
unfolding react_graph
react_run_transcribed w ctx initial final cfg e =
    let (h, lt, walk) = invoke-Walk (react_graph w) ctx initial final cfg e in
    let (n, twice, x) = Walk-Extends w final refl walk in (n, omega arith, omega arith, x)
