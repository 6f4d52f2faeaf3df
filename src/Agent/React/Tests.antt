-- ===== src/Agent/React/Tests.antt =====
-- The agent at a concrete run: the language model asks for a search, and then answers.
use claw_hermes_ai_go.Base.{
  ◌≡◌, refl, ◌≢◌, ℕ, zero, suc, ◌*◌, ◌≤◌, false, none, some, [], ◌∷◌, last?,
}
use claw_hermes_ai_go.Base.Int.{pos}
use claw_hermes_ai_go.SkillGateway.Types.{
  text, number, no_field, field, SkillRequest, SkillResponse, Result, ok,
}
use claw_hermes_ai_go.CapGateway.{
  ToolCall, CapabilityRequest, CapabilityResponse, no_response, responds, refuses, crashes,
  unknown_capability_type, route, validate, dispatch, missing,
}
use claw_hermes_ai_go.CapGateway.LlmAdapter.{Json, LlmCompleter}
use claw_hermes_ai_go.CapGateway.Routing.{gateway_of, route-Reaches}
use claw_hermes_ai_go.LlmGateway.Types.{errs}
use claw_hermes_ai_go.Base.Dict.{lookup, insert}
use claw_hermes_ai_go.Agent.Retry.{retry_fn, retry_loop, fail}
use claw_hermes_ai_go.Agent.Graph.{
  turn, next_node, RunConfig, max_steps_of, invoke, compile, node_not_found, returns,
}
use claw_hermes_ai_go.Agent.React.{
  ReActState, Surroundings, react_graph, tool_node, calls_of, finds, llm_node, llm_request,
}
use claw_hermes_ai_go.Agent.React.Transcript.{Extends}
use claw_hermes_ai_go.Agent.React.Nodes.{Replied, tool_node_total}
use claw_hermes_ai_go.Agent.React.Runs.{react_run_transcribed}
use claw_hermes_ai_go.Agent.React.Compiled.{react_graph_never_lost}

abbrev search : ToolCall
search = record {
  id = "c1";
  name = "search_knowledge";
  arguments = some (field "query" (text "go") (field "top_k" (number (pos 50) 0) no_field));
}

abbrev at_step : ℕ → CapabilityResponse
at_step zero = record no_response { tool_calls = search ∷ [] }
at_step (suc n) = record no_response { content = "done" }

abbrev json : Json
json = record { marshal = λ m. "null"; unmarshal = λ s. none }

abbrev completer : LlmCompleter
completer = record {
  complete = λ q. errs (record { message = "down"; is_deadline_exceeded = false });
  complete_stream = λ q. ([], errs (record { message = "down"; is_deadline_exceeded = false }));
}

abbrev execute : SkillRequest → Result SkillResponse
execute q =
    ok (record { trace_id = q.trace_id; skill_id = q.skill_id; output = q.input; metadata = [] })

abbrev world : Surroundings
world = record {
  gateway_at_step = λ n i. record {
    llm = λ q. responds (at_step n);
    skill = λ q. refuses (unknown_capability_type "");
  };
  gateway_at_call = λ i. gateway_of json completer execute;
  done_at_step = λ n. none;
  done_in_wait = λ n i. none;
  show_error = λ e. "error";
  show_value = λ v. "value";
}

abbrev initial : ReActState
initial = record {
  tenant_id = "a";
  trace_id = "t";
  llm_api_keys = [];
  model = "qwen-max";
  available_tools = [];
  messages =
      record { role = "user"; content = "what is go?"; tool_call_id = ""; tool_calls = [] } ∷ [];
  all_tool_calls = [];
  output = "";
  steps = 0;
  total_tokens = 0;
  has_on_token = false;
  rag_search_fn = some (λ i workspaces query top_k. finds query);
}

abbrev cfg : RunConfig
cfg = record { max_steps = pos 4 }

final : ReActState
final = (invoke (react_graph world) (λ i. none) initial cfg).0

final_output : final.output ≡ "done"
unfolding final invoke react_graph llm_node tool_node retry_fn route max_steps_of turn next_node
    lookup insert validate dispatch missing fail retry_loop llm_request
final_output = refl

final_ok : invoke (react_graph world) (λ i. none) initial cfg ≡ (final, none)
unfolding final invoke react_graph llm_node tool_node retry_fn route max_steps_of turn next_node
    lookup insert validate dispatch missing fail retry_loop llm_request
final_ok = refl

react_run_transcribed_example :
    (n : ℕ) × (1 ≤ n) × (2 * n ≤ max_steps_of cfg) × Extends n initial final
react_run_transcribed_example = react_run_transcribed world (λ i. none) initial final cfg final_ok

react_graph_never_lost_example :
    (compile (react_graph world) ≡ none)
    × ((invoke (react_graph world) (λ i. none) initial cfg).1 ≢ some (node_not_found "x"))
react_graph_never_lost_example = react_graph_never_lost world (λ i. none) initial cfg "x"

-- A gateway that never crashes, as the hypothesis on the tools wants it.
never_crashes : (i : ℕ) (q : CapabilityRequest) → route (world.gateway_at_call i) q ≢ crashes
never_crashes i q = (route-Reaches json completer execute q).0

abbrev asked : ReActState
asked = record initial {
  messages =
      record { role = "assistant"; content = ""; tool_call_id = ""; tool_calls = search ∷ [] } ∷ [];
}

tool_node_total_example :
    (s' : ReActState) × (tool_node world asked ≡ returns s' none)
    × Replied (calls_of (last? asked.messages)) asked s'
tool_node_total_example = tool_node_total world asked never_crashes
