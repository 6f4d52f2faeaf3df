-- ===== src/CapGateway/Tests.antt =====
-- The capability gateway at concrete requests, with a JSON library that knows one map.
use claw_hermes_ai_go.Base.{◌≢◌, false, none, some, List, [], ◌∷◌, str_eq, if◌then◌else◌}
use claw_hermes_ai_go.Base.Int.{pos}
use claw_hermes_ai_go.SkillGateway.Types.{
  text, Fields, no_field, field, Result, ok, SkillRequest, SkillResponse,
}
use claw_hermes_ai_go.LlmGateway.Types.{completes}
use claw_hermes_ai_go.CapGateway.{ToolCall, CapabilityRequest, cap_skill, crashes, route}
use claw_hermes_ai_go.CapGateway.LlmAdapter.{Json, LlmCompleter}
use claw_hermes_ai_go.CapGateway.Routing.{gateway_of, Reaches, route-Reaches}

abbrev query : Fields
query = field "query" (text "go") no_field

abbrev json : Json
json = record {
  marshal = λ m. elim m [ none ↦ "null" | some fs ↦ "{\"query\":\"go\"}" ];
  unmarshal = λ s. if str_eq s "null" then some none else some (some query);
}

abbrev calls : List ToolCall
calls =
    record { id = "1"; name = "search"; arguments = some query }
    ∷ record { id = "2"; name = "now"; arguments = none }
    ∷ []

abbrev completer : LlmCompleter
completer = record {
  complete = λ q. completes (record {
    content = "hi";
    model = "m";
    tool_calls = [];
    usage = record { prompt_tokens = 1; completion_tokens = 1; total_tokens = 2 };
  });
  complete_stream = λ q. (
    [],
    completes (record {
      content = "hi";
      model = "m";
      tool_calls = [];
      usage = record { prompt_tokens = 1; completion_tokens = 1; total_tokens = 2 };
    }),
  );
}

abbrev execute : SkillRequest → Result SkillResponse
execute q =
    ok (record { trace_id = q.trace_id; skill_id = q.skill_id; output = q.input; metadata = [] })

abbrev skill_request : CapabilityRequest
skill_request = record {
  trace_id = "t";
  tenant_id = "a";
  kind = cap_skill;
  llm = none;
  skill = some (record { skill_id = "echo"; input = text "x" });
  timeout = pos 0;
  llm_api_keys = [];
  has_token_stream = false;
}

route-Reaches_example :
    (route (gateway_of json completer execute) skill_request ≢ crashes)
    × Reaches json completer execute skill_request
        (route (gateway_of json completer execute) skill_request)
route-Reaches_example = route-Reaches json completer execute skill_request
