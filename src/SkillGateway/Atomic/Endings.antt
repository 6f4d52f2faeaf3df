-- ===== src/SkillGateway/Atomic/Endings.antt =====
-- atomic.go: how an admitted call ends.
pub mod Loop
use claw_hermes_ai_go.Base.{
  ℕ, zero, suc, ◌+◌, ◌≡◌, refl, sym, ap, ◌∙◌, subst, ◌⊎◌, inl, inr, Bool, true, false, Option, none,
  some, List, [], ◌∷◌, ◌++◌, append-nil, append_assoc, String, str_append, arith, ltb,
  if◌then◌else◌, All, All-append, Bool-cases, Option-cases,
}
use claw_hermes_ai_go.SkillGateway.Types.{
  Value, GoError, SkillError, ErrorCode, skill_timeout, skill_exec_failed, SkillRequest,
  SkillResponse, Result, ok, err,
}
use claw_hermes_ai_go.SkillGateway.Breaker.{CircuitBreakerManager, succeeds, fails as failing, step}
use claw_hermes_ai_go.SkillGateway.Registry.{SkillProvider}
use claw_hermes_ai_go.SkillGateway.Atomic.{
  Environment, Answer, output, fails, Event, waits, calls, Ending, succeeded, timed_out, cancelled,
  cancelled_in_backoff, exhausted, Round, ends, again, judge, call, wait_and_call, round, attempts,
  settle, failure, AtomicEngine, trace_id_of, max_attempts_of, timeout_of, delay_before,
  base_delay_of,
}
use claw_hermes_ai_go.SkillGateway.Atomic.Attempts.{calls_in, calls_in-append}

-- The answer to a request that carries output `v`.
abbrev pub response : Environment → SkillRequest → Value → SkillResponse
response env req v = record {
  trace_id = trace_id_of env req;
  skill_id = req.skill_id;
  output = v;
  metadata = req.metadata;
}

-- What the provider answers at an attempt.
abbrev pub answer_at : Environment → SkillProvider → SkillRequest → ℕ → Answer
answer_at env p req j = env.execute_skill p j (timeout_of req) req.skill_id req.input

-- A wait, or a call that fails with an error other than a timeout.
abbrev pub Missed : Environment → SkillProvider → SkillRequest → Event → Type 0
Missed env p req (waits d) = Unit
Missed env p req (calls j) =
    (g : GoError) × (answer_at env p req j ≡ fails g) × (g.is_deadline_exceeded ≡ false)

abbrev pub failed_error :
    Environment → SkillRequest → ErrorCode → String → Option GoError → SkillError
failed_error env req code message cause = record {
  code = code;
  message = message;
  trace_id = trace_id_of env req;
  cause = cause;
}

-- The error of the last call among some events, if there is one.
abbrev pub LastError :
    Environment → SkillProvider → SkillRequest → List Event → Option GoError → Type 0
LastError env p req missed none = missed ≡ []
LastError env p req missed (some g) =
    (earlier : List Event) × (k : ℕ) × (missed ≡ earlier ++ calls k ∷ [])
    × (answer_at env p req k ≡ fails g)

-- How an admitted call ends, by its events: what it returns, and what it records with the breaker.
pub data Outcome (env : Environment) (p : SkillProvider) (req : SkillRequest)
    (before : CircuitBreakerManager)
    : List Event → Result SkillResponse → CircuitBreakerManager → Type 0 where
  answered :
      (missed : List Event) (k : ℕ) (v : Value)
      → All (Missed env p req) missed
      → answer_at env p req k ≡ output v
      → Outcome env p req before
          (missed ++ calls k ∷ [])
          (ok (response env req v))
          (step before (succeeds req.skill_id))
  out_of_time :
      (missed : List Event) (k : ℕ) (g : GoError)
      → All (Missed env p req) missed
      → answer_at env p req k ≡ fails g
      → g.is_deadline_exceeded ≡ true
      → Outcome env p req before
          (missed ++ calls k ∷ [])
          (err (
            failed_error env req skill_timeout
              (str_append "skill execution timeout: " req.skill_id)
              (some g)))
          (step before (failing req.skill_id env.recorded_at))
  stopped :
      (missed : List Event) (c : GoError)
      → All (Missed env p req) missed
      → env.ctx_err (calls_in missed) ≡ some c
      → Outcome env p req before missed
          (err (failed_error env req skill_exec_failed "context cancelled" (some c)))
          (step before (failing req.skill_id env.recorded_at))
  stopped_in_backoff :
      (missed : List Event) (c : GoError)
      → All (Missed env p req) missed
      → env.ctx_done_in_backoff (calls_in missed) ≡ some c
      → Outcome env p req before missed
          (err (
            failed_error env req skill_exec_failed "context cancelled during retry backoff"
              (some c)))
          (step before (failing req.skill_id env.recorded_at))
  used_up :
      (missed : List Event) (last : Option GoError)
      → All (Missed env p req) missed
      → calls_in missed ≡ max_attempts_of req
      → LastError env p req missed last
      → Outcome env p req before missed
          (err (
            failed_error env req skill_exec_failed
              (str_append "skill execution failed: " req.skill_id)
              last))
          (step before (failing req.skill_id env.recorded_at))
