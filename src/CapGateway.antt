-- ===== src/CapGateway.antt =====
-- internal/capgateway: the one entrance to language models and skills. types.go and gateway.go stand
-- here, the two adapters in the children. Durations that are only measured are not modelled, nor is
-- the callback that receives tokens, beyond whether there is one.
pub mod LlmAdapter
pub mod SkillAdapter
pub mod Routing
mod Tests
use claw_hermes_ai_go.Base.{
  ℕ, Bool, true, false, Option, none, some, List, [], String, str_eq, if◌then◌else◌,
}
use claw_hermes_ai_go.Base.Int.{ℤ}
use claw_hermes_ai_go.Base.Dict.{Dict}
use claw_hermes_ai_go.SkillGateway.Types.{Value, nil, Fields, GoError, SkillError}

abbrev pub cap_llm : String
cap_llm = "llm"

abbrev pub cap_skill : String
cap_skill = "skill"

pub record ToolDefinition : Type 0 where
  pub name : String
  pub description : String
  pub input_schema : Option Fields

-- `none` is the nil map, which reads as an empty one.
pub record ToolCall : Type 0 where
  pub id : String
  pub name : String
  pub arguments : Option Fields

pub record LlmMessage : Type 0 where
  pub role : String
  pub content : String
  pub tool_call_id : String
  pub tool_calls : List ToolCall

pub record TokenUsage : Type 0 where
  pub prompt : ℕ
  pub completion : ℕ
  pub total : ℕ

pub record LlmCapRequest : Type 0 where
  pub model : String
  pub messages : List LlmMessage
  pub tools : List ToolDefinition
  pub temperature : ℕ
  pub max_tokens : ℕ

pub record SkillCapRequest : Type 0 where
  pub skill_id : String
  pub input : Value

pub record CapabilityRequest : Type 0 where
  pub trace_id : String
  pub tenant_id : String
  pub kind : String
  pub llm : Option LlmCapRequest
  pub skill : Option SkillCapRequest
  pub timeout : ℤ
  pub llm_api_keys : Dict String
  pub has_token_stream : Bool

pub record CapabilityResponse : Type 0 where
  pub trace_id : String
  pub kind : String
  pub content : String
  pub tool_calls : List ToolCall
  pub usage : TokenUsage
  pub output : Value

abbrev pub no_response : CapabilityResponse
no_response = record {
  trace_id = "";
  kind = "";
  content = "";
  tool_calls = [];
  usage = record { prompt = 0; completion = 0; total = 0 };
  output = nil;
}

pub data CapError : Type 0 where
  llm_request_required skill_request_required : CapError
  unknown_capability_type : String → CapError
  llm_adapter : GoError → CapError
  skill_adapter : SkillError → CapError

-- A response, an error, or the panic of a nil dereference.
pub data Routed : Type 0 where
  responds : CapabilityResponse → Routed
  refuses : CapError → Routed
  crashes : Routed

abbrev pub Adapter : Type 0
Adapter = CapabilityRequest → Routed

pub record CapabilityGateway : Type 0 where
  pub llm : Adapter
  pub skill : Adapter

unfoldable pub missing {ℓ} : {A : Type ℓ} → Option A → CapError → Option CapError
missing none e = some e
missing (some a) e = none

unfoldable pub validate : CapabilityRequest → Option CapError
unfolding missing
validate r =
    if str_eq r.kind cap_llm
    then missing r.llm llm_request_required
    else if str_eq r.kind cap_skill
    then missing r.skill skill_request_required
    else some (unknown_capability_type r.kind)

unfoldable pub dispatch : CapabilityGateway → CapabilityRequest → Routed
dispatch g req =
    if str_eq req.kind cap_llm
    then g.llm req
    else if str_eq req.kind cap_skill
    then g.skill req
    else refuses (unknown_capability_type req.kind)

unfoldable pub route : CapabilityGateway → CapabilityRequest → Routed
unfolding dispatch
route g req = elim (validate req) [ some e ↦ refuses e | none ↦ dispatch g req ]
