-- ===== src/CapGateway/LlmAdapter.antt =====
-- internal/capgateway/llm_adapter.go: a capability request as one of the language model gateway, and
-- its answer back. `encoding/json` is an argument: `marshal` of a map, which is empty where it fails,
-- and `unmarshal` into a map, which is `none` where it fails.
use claw_hermes_ai_go.Base.{
  ◌≡◌, refl, ◌≢◌, Bool, true, false, Option, none, some, List, [], ◌∷◌, map, String, str_eq,
  if◌then◌else◌,
}
use claw_hermes_ai_go.SkillGateway.Types.{text, Fields, no_field, field, nil}
use claw_hermes_ai_go.LlmGateway.Types.{
  Message, Tool, CompletionRequest, CompletionResponse, Completed, completes, errs,
}
use claw_hermes_ai_go.LlmGateway.Types
use claw_hermes_ai_go.CapGateway.{
  ToolDefinition, ToolCall, LlmMessage, LlmCapRequest, CapabilityRequest, CapabilityResponse,
  cap_llm, Routed, responds, refuses, crashes, llm_adapter, Adapter,
}

pub record Json : Type 0 where
  pub marshal : Option Fields → String
  pub unmarshal : String → Option (Option Fields)

-- What the adapter needs of the gateway.
pub record LlmCompleter : Type 0 where
  pub complete : CompletionRequest → Completed
  pub complete_stream : CompletionRequest → List String × Completed

module _ (json : Json) where
  pub tool_call_to_gw : ToolCall → Types.ToolCall
  tool_call_to_gw tc = record {
    id = tc.id;
    kind = "function";
    function = record { name = tc.name; arguments = json.marshal tc.arguments };
  }

  pub convert_tool_calls_to_gw : List ToolCall → List Types.ToolCall
  unfolding tool_call_to_gw
  convert_tool_calls_to_gw tcs = map tool_call_to_gw tcs

  pub message_to_gw : LlmMessage → Message
  unfolding convert_tool_calls_to_gw
  message_to_gw m = record {
    role = m.role;
    content = m.content;
    tool_calls = convert_tool_calls_to_gw m.tool_calls;
    tool_call_id = m.tool_call_id;
  }

  pub tool_to_gw : ToolDefinition → Tool
  tool_to_gw td = record {
    kind = "function";
    function = record {
      name = td.name;
      description = td.description;
      parameters = td.input_schema;
    };
  }

  pub choice_from_tools : List Tool → String
  choice_from_tools [] = ""
  choice_from_tools (t ∷ ts) = "auto"

  pub build_llm_request : LlmCapRequest → CompletionRequest
  unfolding message_to_gw tool_to_gw choice_from_tools
  build_llm_request r = record {
    model = r.model;
    messages = map message_to_gw r.messages;
    temperature = r.temperature;
    max_tokens = r.max_tokens;
    top_p = 0;
    tools = map tool_to_gw r.tools;
    tool_choice = choice_from_tools (map tool_to_gw r.tools);
    stream = false;
  }

  -- The arguments of a call, or the text that is no map under a key of its own.
  unraw : String → Option (Option Fields) → Option Fields
  unraw raw none = some (field "_raw" (text raw) no_field)
  unraw raw (some arguments) = arguments

  pub arguments_of : String → Option Fields
  unfolding unraw
  arguments_of raw = if str_eq raw "" then none else unraw raw (json.unmarshal raw)

  pub tool_call_of_gw : Types.ToolCall → ToolCall
  unfolding arguments_of
  tool_call_of_gw tc = record {
    id = tc.id;
    name = tc.function.name;
    arguments = arguments_of tc.function.arguments;
  }

  pub build_capability_response : String → CompletionResponse → CapabilityResponse
  unfolding tool_call_of_gw
  build_capability_response trace_id raw = record {
    trace_id = trace_id;
    kind = cap_llm;
    content = raw.content;
    tool_calls = map tool_call_of_gw raw.tool_calls;
    usage = record {
      prompt = raw.usage.prompt_tokens;
      completion = raw.usage.completion_tokens;
      total = raw.usage.total_tokens;
    };
    output = nil;
  }

  pub llm_response_of : String → Completed → Routed
  unfolding build_capability_response
  llm_response_of trace_id (errs e) = refuses (llm_adapter e)
  llm_response_of trace_id (completes raw) = responds (build_capability_response trace_id raw)

  pub call_gateway : LlmCompleter → Bool → CompletionRequest → Completed
  call_gateway gw true req = (gw.complete_stream req).1
  call_gateway gw false req = gw.complete req

  pub llm_route : LlmCompleter → Adapter
  unfolding llm_response_of call_gateway build_llm_request
  llm_route gw req = elim req.llm [
    | none ↦ crashes
    | some llm ↦
        llm_response_of req.trace_id (call_gateway gw req.has_token_stream (build_llm_request llm))
  ]

  pub llm_route-some :
      (gw : LlmCompleter) (req : CapabilityRequest) (llm : LlmCapRequest)
      → req.llm ≡ some llm
      → llm_route gw req
        ≡ llm_response_of req.trace_id
            (call_gateway gw req.has_token_stream (build_llm_request llm))
  unfolding llm_route
  llm_route-some gw req llm e = rw e refl

  pub llm_response_of-answers :
      (trace_id : String) (c : Completed) → llm_response_of trace_id c ≢ crashes
  unfolding llm_response_of
  llm_response_of-answers trace_id (completes r) e = cc
  llm_response_of-answers trace_id (errs x) e = cc
