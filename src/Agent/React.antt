-- ===== src/Agent/React.antt =====
-- internal/agent/graph/react.go: the agent loop, as a graph of a node that asks the language model and
-- one that runs the tools it asks for. The outside world answers by the moment of a call: the
-- language model by the number of the step and of the attempt, the tools by the number of the calls
-- that are recorded so far. The log is not modelled.
pub mod Transcript
pub mod Nodes
pub mod Runs
pub mod Compiled
mod Tests
use claw_hermes_ai_go.Base.{
  ℕ, zero, suc, ◌+◌, Bool, true, false, Option, none, some, List, [], ◌∷◌, ◌++◌, String, str_append,
  str_eq, ltb, if◌then◌else◌, length, last?, ◌≡◌, ◌⊎◌,
}
use claw_hermes_ai_go.Base.Int.{ℤ, pos, negsuc}
use claw_hermes_ai_go.Base.Dict.{Dict}
use claw_hermes_ai_go.SkillGateway.Types.{
  Value, nil, text, number, items, table, Values, no_item, item, Fields, no_field, get_field,
  GoError,
}
use claw_hermes_ai_go.CapGateway.{
  ToolDefinition, ToolCall, LlmMessage, CapabilityRequest, CapabilityResponse, no_response,
  CapError, cap_llm, cap_skill, Routed, responds, refuses, crashes, CapabilityGateway, route,
}
use claw_hermes_ai_go.Agent.Retry.{
  World, Outcome, Called, gives, throws, RetryError, of_context, of_call, joined, default_retry,
  retry_fn,
}
use claw_hermes_ai_go.Agent.Graph.{
  NodeOutcome, returns, panics, StateGraph, GraphError, new, add_node, add_edge,
  add_conditional_edge, set_entry_point, end_node,
}

abbrev pub node_llm : String
node_llm = "llm"

abbrev pub node_tool : String
node_tool = "tool"

-- The text that a search finds, or its error.
pub data Found : Type 0 where
  finds : String → Found
  finds_error : String → Found

abbrev pub RagSearch : Type 0
RagSearch = List String → String → ℤ → Found

pub record ReActState : Type 0 where
  pub tenant_id : String
  pub trace_id : String
  pub llm_api_keys : Dict String
  pub model : String
  pub available_tools : List ToolDefinition
  pub messages : List LlmMessage
  pub all_tool_calls : List ToolCall
  pub output : String
  pub steps : ℕ
  pub total_tokens : ℕ
  pub has_on_token : Bool
  pub rag_search_fn : Option (ℕ → RagSearch)

-- An error of a call, which is that of the gateway or that of the context, and of a node.
pub data CallError : Type 0 where
  of_gateway : CapError → CallError
  cancelled : GoError → CallError

pub data ReActError : Type 0 where
  react_llm_node : RetryError CallError → ReActError
  context_ended : GoError → ReActError

-- The gateway at each attempt of each step and at each tool call, the end of the context at the start
-- of a step and in the wait behind an attempt, and the formatting of `%v`.
pub record Surroundings : Type 0 where
  pub gateway_at_step : ℕ → ℕ → CapabilityGateway
  pub gateway_at_call : ℕ → CapabilityGateway
  pub done_at_step : ℕ → Option GoError
  pub done_in_wait : ℕ → ℕ → Option GoError
  pub show_error : CapError → String
  pub show_value : Value → String

pub llm_request : ReActState → CapabilityRequest
llm_request s = record {
  trace_id = s.trace_id;
  tenant_id = s.tenant_id;
  kind = cap_llm;
  llm = some (record {
    model = s.model;
    messages = s.messages;
    tools = s.available_tools;
    temperature = 0;
    max_tokens = 0;
  });
  skill = none;
  timeout = pos 60_000_000_000;
  llm_api_keys = s.llm_api_keys;
  has_token_stream = s.has_on_token;
}

-- An attempt. One that panics ends the retries with no response.
attempt : Routed → Called (Option CapabilityResponse) CallError
attempt (responds r) = gives (some r)
attempt (refuses e) = throws (of_gateway e)
attempt crashes = gives none

cancelled_by : Option GoError → Option CallError
cancelled_by none = none
cancelled_by (some e) = some (cancelled e)

pub attempts : Surroundings → ReActState → World (Option CapabilityResponse) CallError
unfolding attempt cancelled_by
attempts w s = record {
  zero_value = some no_response;
  fn = λ i. attempt (route (w.gateway_at_step s.steps i) (llm_request s));
  done_at_start = cancelled_by (w.done_at_step s.steps);
  done_in_wait = λ i. cancelled_by (w.done_in_wait s.steps i);
}

pub assistant_message : String → List ToolCall → LlmMessage
assistant_message content calls = record {
  role = "assistant";
  content = content;
  tool_call_id = "";
  tool_calls = calls;
}

-- A step that is answered: with the output, or with calls.
pub answered : ReActState → CapabilityResponse → List ToolCall → ReActState
unfolding assistant_message
answered s resp [] = record s {
  steps = s.steps + 1;
  total_tokens = s.total_tokens + resp.usage.total;
  output = resp.content;
  messages = s.messages ++ assistant_message resp.content [] ∷ [];
}
answered s resp (call ∷ calls) = record s {
  steps = s.steps + 1;
  total_tokens = s.total_tokens + resp.usage.total;
  messages = s.messages ++ assistant_message "" (call ∷ calls) ∷ [];
}

-- The node behind its retries.
llm_result :
    ReActState
    → Option CapabilityResponse
    → Option (RetryError CallError)
    → NodeOutcome ReActState ReActError
unfolding answered
llm_result s resp (some e) = returns s (some (react_llm_node e))
llm_result s none none = panics "invalid memory address or nil pointer dereference"
llm_result s (some resp) none = returns (answered s resp resp.tool_calls) none

pub llm_node : Surroundings → ReActState → NodeOutcome ReActState ReActError
unfolding llm_result attempts
llm_node w s = let o = retry_fn (attempts w s) default_retry in llm_result s o.value o.error

fields_of : Option Fields → Fields
fields_of none = no_field
fields_of (some fs) = fs

-- The arguments of a search, each with its default where the type is another.
strings_of : Values → List String
strings_of no_item = []
strings_of (item (text s) vs) = s ∷ strings_of vs
strings_of (item nil vs) = strings_of vs
strings_of (item (number n i) vs) = strings_of vs
strings_of (item (items us) vs) = strings_of vs
strings_of (item (Value.other i) vs) = strings_of vs
strings_of (item (table fs) vs) = strings_of vs

pub workspaces_of : Option Value → List String
unfolding strings_of
workspaces_of (some (items vs)) = strings_of vs
workspaces_of _ = []

pub query_of : Option Value → String
query_of (some (text s)) = s
query_of _ = ""

at_most_twenty : ℤ → ℤ
at_most_twenty (pos n) = if ltb 20 n then pos 20 else pos n
at_most_twenty (negsuc n) = negsuc n

pub top_k_of : Option Value → ℤ
unfolding at_most_twenty
top_k_of (some (number n rest)) = at_most_twenty n
top_k_of _ = pos 5

found_text : Found → String
found_text (finds s) = s
found_text (finds_error e) = str_append "error: " e

knowledge : Option RagSearch → Fields → String
unfolding found_text workspaces_of query_of top_k_of
knowledge none arguments = "error: search_knowledge tool not configured"
knowledge (some search_fn) arguments = found_text (
    search_fn (workspaces_of (get_field "workspaces" arguments))
      (query_of (get_field "query" arguments)) (top_k_of (get_field "top_k" arguments)))

search_at : ℕ → Option (ℕ → RagSearch) → Option RagSearch
search_at i none = none
search_at i (some search_fn) = some (search_fn i)

pub skill_request : ReActState → ToolCall → CapabilityRequest
unfolding fields_of
skill_request s tc = record {
  trace_id = s.trace_id;
  tenant_id = s.tenant_id;
  kind = cap_skill;
  llm = none;
  skill = some (record { skill_id = tc.name; input = table (fields_of tc.arguments) });
  timeout = pos 30_000_000_000;
  llm_api_keys = [];
  has_token_stream = false;
}

output_text : Surroundings → CapabilityResponse → Value → String
output_text w resp nil = resp.content
output_text w resp v = w.show_value v

-- The text of a tool's result; `none` is a panic.
tool_text : Surroundings → Routed → Option String
unfolding output_text
tool_text w (responds resp) = some (output_text w resp resp.output)
tool_text w (refuses e) = some (str_append "error: " (w.show_error e))
tool_text w crashes = none

pub tool_content : Surroundings → ReActState → ToolCall → Option String
unfolding knowledge fields_of search_at tool_text
tool_content w s tc =
    if str_eq tc.name "search_knowledge"
    then some
        (knowledge (search_at (length s.all_tool_calls) s.rag_search_fn) (fields_of tc.arguments))
    else tool_text w (route (w.gateway_at_call (length s.all_tool_calls)) (skill_request s tc))

pub tool_message : String → ToolCall → LlmMessage
tool_message content tc = record {
  role = "tool";
  content = content;
  tool_call_id = tc.id;
  tool_calls = [];
}

pub with_result : ReActState → ToolCall → String → ReActState
unfolding tool_message
with_result s tc content = record s {
  messages = s.messages ++ tool_message content tc ∷ [];
  all_tool_calls = s.all_tool_calls ++ tc ∷ [];
}

-- The loop over the calls.
pub run_tools : Surroundings → List ToolCall → ReActState → NodeOutcome ReActState ReActError
unfolding tool_content with_result
run_tools w [] s = returns s none
run_tools w (tc ∷ tcs) s = elim (tool_content w s tc) [
  | none ↦ panics "invalid memory address or nil pointer dereference"
  | some content ↦ run_tools w tcs (with_result s tc content)
]

pub calls_of : Option LlmMessage → List ToolCall
calls_of none = []
calls_of (some m) = m.tool_calls

-- Without a message there is nothing to do.
pub tool_node : Surroundings → ReActState → NodeOutcome ReActState ReActError
unfolding run_tools calls_of
tool_node w s = run_tools w (calls_of (last? s.messages)) s

wants_tools : LlmMessage → List ToolCall → String
wants_tools last [] = end_node
wants_tools last (tc ∷ tcs) = if str_eq last.role "assistant" then node_tool else end_node

behind_llm : Option LlmMessage → String
unfolding wants_tools
behind_llm none = end_node
behind_llm (some last) = wants_tools last last.tool_calls

pub react_graph : Surroundings → StateGraph ReActState ReActError
unfolding llm_node tool_node behind_llm new add_node add_edge add_conditional_edge set_entry_point
react_graph w =
    set_entry_point
      (add_edge
        (add_conditional_edge
          (add_node (add_node new node_llm (llm_node w)) node_tool (tool_node w)) node_llm
          (λ s. behind_llm (last? s.messages)))
        node_tool node_llm)
      node_llm
