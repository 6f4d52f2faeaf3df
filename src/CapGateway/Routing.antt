-- ===== src/CapGateway/Routing.antt =====
-- gateway.go: which requests reach an adapter.
use claw_hermes_ai_go.Base.{
  ◌≡◌, refl, sym, ◌∙◌, ◌≢◌, ◌⊎◌, inl, inr, Option, none, some, str_eq, eq_iff, Bool-cases,
}
use claw_hermes_ai_go.SkillGateway.Types.{SkillRequest, SkillResponse, Result}
use claw_hermes_ai_go.CapGateway.{
  cap_llm, cap_skill, LlmCapRequest, SkillCapRequest, CapabilityRequest, CapError, Routed, refuses,
  crashes, llm_request_required, skill_request_required, unknown_capability_type, CapabilityGateway,
  validate, dispatch, missing, route,
}
use claw_hermes_ai_go.CapGateway.SkillAdapter.{
  skill_route, skill_request_of, skill_response_of, skill_route-some, skill_response_of-answers,
}
use claw_hermes_ai_go.CapGateway.LlmAdapter.{
  Json, LlmCompleter, llm_route, llm_response_of, call_gateway, build_llm_request, llm_route-some,
  llm_response_of-answers,
}

-- The gateway with both adapters.
pub gateway_of : Json → LlmCompleter → (SkillRequest → Result SkillResponse) → CapabilityGateway
gateway_of json completer execute = record {
  llm = llm_route json completer;
  skill = skill_route execute;
}

missing-none {ℓ} :
    {A : Type ℓ} (o : Option A) (e : CapError)
    → ((a : A) × (o ≡ some a) × (missing o e ≡ none)) ⊎ ((o ≡ none) × (missing o e ≡ some e))
unfolding missing
missing-none none e = inr (refl, refl)
missing-none (some a) e = inl (a, refl, refl)

-- The answer is that of the language models to the request's own part for them, that of the skills to
-- its part for them, or the error of its validation.
abbrev pub Reaches :
    Json
    → LlmCompleter
    → (SkillRequest → Result SkillResponse)
    → CapabilityRequest
    → Routed
    → Type 0
Reaches json completer execute req answer =
    ((llm : LlmCapRequest) × (req.kind ≡ cap_llm)
      × (req.llm ≡ some llm)
      × (answer
          ≡ llm_response_of json req.trace_id
              (call_gateway json completer req.has_token_stream (build_llm_request json llm))))
    ⊎ ((skill : SkillCapRequest) × (req.kind ≡ cap_skill)
        × (req.skill ≡ some skill)
        × (answer ≡ skill_response_of req (execute (skill_request_of req skill))))
    ⊎ ((e : CapError) × (validate req ≡ some e) × (answer ≡ refuses e))

-- A request never crashes in an adapter, and it meets one of three fates. It is one for a language
-- model with a part for it, and its answer is the adapted one of the model's gateway to this part; or
-- it is one for a skill with a part for it, and its answer is the adapted one of the skill gateway to
-- this part; or its validation fails, and the answer is this error.
pub route-Reaches :
    (json : Json) (completer : LlmCompleter) (execute : SkillRequest → Result SkillResponse)
    (req : CapabilityRequest)
    → (route (gateway_of json completer execute) req ≢ crashes)
      × Reaches json completer execute req (route (gateway_of json completer execute) req)
unfolding route validate dispatch gateway_of
route-Reaches json completer execute req = elim (Bool-cases (str_eq req.kind cap_llm)) [
  | inl e ↦ elim (missing-none req.llm llm_request_required) [
    | inl (llm, set, fine) ↦
        let answer =
          call_gateway json completer req.has_token_stream (build_llm_request json llm) in
        let reached : route g req ≡ llm_response_of json req.trace_id answer =
          rw (e, fine, route, e, dispatch) (llm_route-some json completer req llm set) in
        (
          λ c. llm_response_of-answers json req.trace_id answer (sym reached ∙ c),
          inl (llm, (eq_iff req.kind cap_llm).0 e, set, reached),
        )
    | inr (unset, missed) ↦ refused llm_request_required (rw e missed)
  ]
  | inr ne ↦ elim (Bool-cases (str_eq req.kind cap_skill)) [
    | inl e ↦ elim (missing-none req.skill skill_request_required) [
      | inl (skill, set, fine) ↦
          let answer = execute (skill_request_of req skill) in
          let reached : route g req ≡ skill_response_of req answer =
            rw (ne, e, fine, route, ne, e, dispatch) (skill_route-some execute req skill set) in
          (
            λ c. skill_response_of-answers req answer (sym reached ∙ c),
            inr (inl (skill, (eq_iff req.kind cap_skill).0 e, set, reached)),
          )
      | inr (unset, missed) ↦ refused skill_request_required (rw (ne, e) missed)
    ]
    | inr nf ↦ refused (unknown_capability_type req.kind) (rw (ne, nf) refl)
  ]
]
  where
    g : CapabilityGateway
    g = gateway_of json completer execute

    refused :
        (x : CapError)
        → validate req ≡ some x
        → (route g req ≢ crashes) × Reaches json completer execute req (route g req)
    refused x h =
        let eq : route g req ≡ refuses x = rw (h, route) refl in
        (λ c. cc (eq, c), inr (inr (x, h, eq)))
