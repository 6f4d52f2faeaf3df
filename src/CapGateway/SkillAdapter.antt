-- ===== src/CapGateway/SkillAdapter.antt =====
-- internal/capgateway/skill_adapter.go: a capability request as one of the skill gateway.
use claw_hermes_ai_go.Base.{◌≡◌, refl, ◌≢◌, none, some, []}
use claw_hermes_ai_go.Base.Int.{pos}
use claw_hermes_ai_go.SkillGateway.Types.{SkillRequest, SkillResponse, Result, ok, err}
use claw_hermes_ai_go.CapGateway.{
  CapabilityRequest, SkillCapRequest, no_response, cap_skill, Routed, responds, refuses, crashes,
  skill_adapter, Adapter,
}

pub skill_request_of : CapabilityRequest → SkillCapRequest → SkillRequest
skill_request_of req skill = record {
  trace_id = req.trace_id;
  skill_id = skill.skill_id;
  input = skill.input;
  timeout = pos 0;
  retry = record { max_attempts = pos 0; base_delay = pos 0 };
  metadata = [];
}

pub skill_response_of : CapabilityRequest → Result SkillResponse → Routed
skill_response_of req (err e) = refuses (skill_adapter e)
skill_response_of req (ok resp) =
    responds
      (record no_response { trace_id = req.trace_id; kind = cap_skill; output = resp.output })

pub skill_route : (SkillRequest → Result SkillResponse) → Adapter
unfolding skill_response_of skill_request_of
skill_route execute req = elim req.skill [
  | none ↦ crashes
  | some skill ↦ skill_response_of req (execute (skill_request_of req skill))
]

pub skill_route-some :
    (execute : SkillRequest → Result SkillResponse) (req : CapabilityRequest)
    (skill : SkillCapRequest)
    → req.skill ≡ some skill
    → skill_route execute req ≡ skill_response_of req (execute (skill_request_of req skill))
unfolding skill_route
skill_route-some execute req skill e = rw e refl

pub skill_response_of-answers :
    (req : CapabilityRequest) (r : Result SkillResponse) → skill_response_of req r ≢ crashes
unfolding skill_response_of
skill_response_of-answers req (ok r) e = cc
skill_response_of-answers req (err x) e = cc
