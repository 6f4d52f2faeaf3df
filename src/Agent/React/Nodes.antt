-- ===== src/Agent/React/Nodes.antt =====
-- react.go: what each of the two nodes does to the state.
use claw_hermes_ai_go.Base.{
  ℕ, ◌≡◌, refl, sym, subst, ◌∙◌, ◌≢◌, inl, inr, Option, none, some, List, [], ◌∷◌, ◌++◌,
  append_assoc, append-nil, String, str_eq, Bool-cases, Option-cases, length, last?,
}
use claw_hermes_ai_go.CapGateway.{
  ToolCall, LlmMessage, CapabilityRequest, CapabilityResponse, Routed, responds, refuses, crashes,
  route,
}
use claw_hermes_ai_go.Agent.Retry.{RetryError, retry_fn, default_retry}
use claw_hermes_ai_go.Agent.Graph.{returns}
use claw_hermes_ai_go.Agent.React.{
  ReActState, CallError, Surroundings, attempts, answered, llm_result, llm_node, tool_content,
  tool_text, knowledge, search_at, fields_of, with_result, tool_message, run_tools, calls_of,
  tool_node, skill_request,
}
use claw_hermes_ai_go.Agent.React.Transcript.{Replies, no_reply, reply}

llm_result-answered :
    (s s' : ReActState) (v : Option CapabilityResponse) (e : Option (RetryError CallError))
    → llm_result s v e ≡ returns s' none
    → (resp : CapabilityResponse) × (s' ≡ answered s resp resp.tool_calls)
unfolding llm_result
llm_result-answered s s' v (some x) e = absurd (cc)
llm_result-answered s s' none none e = absurd (cc)
llm_result-answered s s' (some resp) none e = (resp, cc)

-- A step without an error is an answered one.
pub llm_node-answered :
    (w : Surroundings) (s s' : ReActState)
    → llm_node w s ≡ returns s' none
    → (resp : CapabilityResponse) × (s' ≡ answered s resp resp.tool_calls)
unfolding llm_node
llm_node-answered w s s' e =
    llm_result-answered s s' (retry_fn (attempts w s) default_retry).value
      (retry_fn (attempts w s) default_retry).error e

-- The state behind the tools.
pub record Replied (calls : List ToolCall) (s s' : ReActState) : Type 0 where
  pub replies : List LlmMessage
  pub one_each : Replies calls replies
  pub messages_added : s'.messages ≡ s.messages ++ replies
  pub calls_added : s'.all_tool_calls ≡ s.all_tool_calls ++ calls
  pub output_kept : s'.output ≡ s.output
  pub steps_kept : s'.steps ≡ s.steps

Replied-nil : (s : ReActState) → Replied [] s s
Replied-nil s = record {
  replies = [];
  one_each = no_reply;
  messages_added = sym (append-nil s.messages);
  calls_added = sym (append-nil s.all_tool_calls);
  output_kept = refl;
  steps_kept = refl;
}

Replied-cons :
    (call : ToolCall) (calls : List ToolCall) (content : String) (s s' : ReActState)
    → Replied calls (with_result s call content) s'
    → Replied (call ∷ calls) s s'
unfolding with_result tool_message
Replied-cons call calls content s s' r = record {
  replies = tool_message content call ∷ r.replies;
  one_each = reply content call r.one_each;
  messages_added =
      r.messages_added ∙ append_assoc s.messages (tool_message content call ∷ []) r.replies;
  calls_added = r.calls_added ∙ append_assoc s.all_tool_calls (call ∷ []) calls;
  output_kept = r.output_kept;
  steps_kept = r.steps_kept;
}

run_tools-Replied :
    (w : Surroundings) (calls : List ToolCall) (s s' : ReActState)
    → run_tools w calls s ≡ returns s' none
    → Replied calls s s'
unfolding run_tools
run_tools-Replied w [] s s' e = let same : s ≡ s' = cc in subst (Replied [] s) same (Replied-nil s)
run_tools-Replied w (call ∷ calls) s s' e = elim (Option-cases (tool_content w s call)) [
  | inl none_there ↦ absurd (cc (rw (none_there, run_tools) at e))
  | inr (content, there) ↦
      Replied-cons call calls content s s'
        (run_tools-Replied w calls (with_result s call content) s' (rw (there, run_tools) at e))
]

pub tool_node-Replied :
    (w : Surroundings) (s s' : ReActState)
    → tool_node w s ≡ returns s' none
    → Replied (calls_of (last? s.messages)) s s'
unfolding tool_node
tool_node-Replied w s s' e = run_tools-Replied w (calls_of (last? s.messages)) s s' e

tool_text-some :
    (w : Surroundings) (o : Routed)
    → o ≢ crashes
    → (content : String) × (tool_text w o ≡ some content)
unfolding tool_text
tool_text-some w (responds resp) h = (_, refl)
tool_text-some w (refuses e) h = (_, refl)
tool_text-some w crashes h = absurd (h refl)

tool_content-some :
    (w : Surroundings) (s : ReActState) (call : ToolCall)
    → ((i : ℕ) (req : CapabilityRequest) → route (w.gateway_at_call i) req ≢ crashes)
    → (content : String) × (tool_content w s call ≡ some content)
unfolding tool_content
tool_content-some w s call safe = elim (Bool-cases (str_eq call.name "search_knowledge")) [
  | inl e ↦ (
    knowledge (search_at (length s.all_tool_calls) s.rag_search_fn) (fields_of call.arguments),
    rw e refl,
  )
  | inr e ↦
      let (content, there) =
        tool_text-some w
          (route (w.gateway_at_call (length s.all_tool_calls)) (skill_request s call))
          (safe (length s.all_tool_calls) (skill_request s call)) in
      (content, rw (e, there) refl)
]

run_tools-total :
    (w : Surroundings) (calls : List ToolCall) (s : ReActState)
    → ((i : ℕ) (req : CapabilityRequest) → route (w.gateway_at_call i) req ≢ crashes)
    → (s' : ReActState) × (run_tools w calls s ≡ returns s' none)
unfolding run_tools
run_tools-total w [] s safe = (s, refl)
run_tools-total w (call ∷ calls) s safe =
    let (content, there) = tool_content-some w s call safe in
    let (s', runs) = run_tools-total w calls (with_result s call content) safe in
    (s', rw (there, run_tools) runs)

-- Where the capability gateway never crashes, the tools never fail a run, whatever they are, whether
-- they are known, and whatever they answer: the node returns no error, and the state that it returns
-- has one reply to each call of the last message, in their order and under their IDs, and these calls
-- added to the recorded ones, with the output and the number of steps as they were.
pub tool_node_total :
    (w : Surroundings) (s : ReActState)
    → ((i : ℕ) (req : CapabilityRequest) → route (w.gateway_at_call i) req ≢ crashes)
    → (s' : ReActState) × (tool_node w s ≡ returns s' none)
      × Replied (calls_of (last? s.messages)) s s'
unfolding tool_node
tool_node_total w s safe =
    let (s', runs) = run_tools-total w (calls_of (last? s.messages)) s safe in
    (s', runs, run_tools-Replied w (calls_of (last? s.messages)) s s' runs)
