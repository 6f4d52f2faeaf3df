-- ===== src/LlmGateway/Gateway/Counting.antt =====
-- gateway.go: the two ways to complete a request against each other, and what they record.
use claw_hermes_ai_go.Base.{
  ℕ, zero, suc, ◌≡◌, refl, ap, inl, inr, Bool, true, false, Option, none, some, [], ◌∷◌, String,
  str_eq, eq_iff, keep, keep-append, Bool-cases,
}
use claw_hermes_ai_go.LlmGateway.Types.{CompletionRequest, Completed, completes, errs, LlmClient}
use claw_hermes_ai_go.LlmGateway.Gateway.{
  Metric, llm_request, llm_request_duration, llm_token_usage, llm_token_histogram, Gateway,
  parse_provider, provider_of, recorded, stream_recorded, token_metrics, stream_token_metrics,
  call_client, stream_client, complete, complete_stream, status_of, streamed,
}

pub counts_request : Metric → Bool
counts_request (llm_request model provider status) = true
counts_request (llm_request_duration model provider) = false
counts_request (llm_token_usage model kind n) = false
counts_request (llm_token_histogram model kind n) = false

-- The empty model's provider is the default one, which `parseProvider` also gives.
pub provider_of-parse_provider : (g : Gateway) (m : String) → provider_of g m ≡ parse_provider g m
unfolding provider_of parse_provider
provider_of-parse_provider g m = elim (Bool-cases (str_eq m "")) [
  | inl e ↦ rw ((eq_iff m "").0 e) refl
  | inr e ↦ rw e refl
]

keep-recorded : (m k : String) (n : ℕ) → keep counts_request (recorded m k n) ≡ []
unfolding recorded counts_request
keep-recorded m k zero = refl
keep-recorded m k (suc n) = refl

keep-stream_recorded : (m k : String) (n : ℕ) → keep counts_request (stream_recorded m k n) ≡ []
unfolding stream_recorded counts_request
keep-stream_recorded m k zero = refl
keep-stream_recorded m k (suc n) = refl

keep-token_metrics : (m : String) (r : Completed) → keep counts_request (token_metrics m r) ≡ []
unfolding token_metrics
keep-token_metrics m (errs e) = refl
keep-token_metrics m (completes r) = simp (keep-append, keep-recorded)

keep-stream_token_metrics :
    (m : String) (r : Completed) → keep counts_request (stream_token_metrics m r) ≡ []
unfolding stream_token_metrics
keep-stream_token_metrics m (errs e) = refl
keep-stream_token_metrics m (completes r) = simp (keep-append, keep-stream_recorded)

one-call_client :
    (q : CompletionRequest) (p : String) (o : Option LlmClient)
    → keep counts_request (call_client q p o).1
      ≡ llm_request q.model p (status_of (call_client q p o).0) ∷ []
unfolding call_client status_of counts_request
one-call_client q p none = refl
one-call_client q p (some c) =
    ap (λ ms. llm_request q.model p (status_of (c.complete q)) ∷ ms)
      (keep-token_metrics q.model (c.complete q))

one-stream_client :
    (q : CompletionRequest) (p : String) (o : Option LlmClient)
    → keep counts_request (stream_client q p o).2
      ≡ llm_request q.model p (status_of (stream_client q p o).1) ∷ []
unfolding stream_client status_of counts_request
one-stream_client q p none = refl
one-stream_client q p (some c) =
    ap (λ ms. llm_request q.model p (status_of (streamed c q).1) ∷ ms)
      (keep-stream_token_metrics q.model (streamed c q).1)

-- A completion counts exactly one request, whether it streams or not, whether there is a client or
-- not, and however the client answers: for the requested model, the provider that `parseProvider`
-- gives for it, and the status of the answer that is returned. The other metrics of the call are
-- durations and tokens.
pub one_request_counted :
    (g : Gateway) (q : CompletionRequest)
    → (keep counts_request (complete g q).1
        ≡ llm_request q.model (parse_provider g q.model) (status_of (complete g q).0) ∷ [])
      × (keep counts_request (complete_stream g q).2
          ≡ llm_request q.model (parse_provider g q.model) (status_of (complete_stream g q).1) ∷ [])
unfolding complete complete_stream
one_request_counted g q =
    (rw (provider_of-parse_provider g q.model) (one-call_client q _ _), one-stream_client q _ _)
