-- ===== src/SkillGateway/Atomic.antt =====
-- internal/skillgateway/atomic.go: one skill call, with the breaker's admission, retries and backoff.
-- What the call meets outside the gateway is its environment: the generated trace ID, the clock, the
-- context, and what the provider answers at each attempt. Log lines and measured durations are left
-- out; the audit entries and the execution counter are state. `float64(base) * 2^k` is the exact
-- product: it is so below 2^53 ns, and from there to 2^63 ns the cap applies either way.
pub mod Attempts
pub mod Endings
pub mod Outcomes
mod Tests
use claw_hermes_ai_go.Base.{
  ℕ, zero, suc, ◌+◌, ◌-◌, ◌*◌, ◌^◌, Bool, true, false, not, Option, none, some, List, [], ◌∷◌, ◌++◌,
  String, str_append, str_eq, ltb, if◌then◌else◌, min,
}
use claw_hermes_ai_go.Base.Int.{ℤ, pos, rounds, not_positive, add_one}
use claw_hermes_ai_go.Base.Dict.{Dict, lookup}
use claw_hermes_ai_go.SkillGateway.Types.{
  Value, GoError, SkillError, ErrorCode, skill_not_found, skill_timeout, skill_exec_failed,
  circuit_open, Result, ok, err, RetryConfig, SkillRequest, SkillResponse,
}
use claw_hermes_ai_go.SkillGateway.Breaker.{
  CircuitBreakerManager, allow, record_success, record_failure,
}
use claw_hermes_ai_go.SkillGateway.Registry.{SkillProvider, ProviderRegistry, resolve}

pub data Answer : Type 0 where
  output : Value → Answer
  fails : GoError → Answer

pub record Environment : Type 0 where
  pub new_uuid : String
  -- `ctx.Err()` at the top of an attempt, and a cancellation during the wait before it.
  pub ctx_err : ℕ → Option GoError
  pub ctx_done_in_backoff : ℕ → Option GoError
  -- `provider.Execute` at an attempt, under a timeout.
  pub execute_skill : SkillProvider → ℕ → ℕ → String → Value → Answer
  -- The clock when the call is admitted, and when its outcome is recorded.
  pub admitted_at : ℕ
  pub recorded_at : ℕ

pub data Status : Type 0 where
  success timeout failed : Status

pub record Audit : Type 0 where
  pub trace_id : String
  pub skill_id : String
  pub caller : String
  pub status : Status

pub record AtomicEngine : Type 0 where
  pub registry : ProviderRegistry
  pub cb : CircuitBreakerManager
  pub audits : List Audit
  -- `metrics != nil`
  pub metered : Bool
  pub executions : List (String × String × Status)

abbrev pub default_timeout : ℕ
default_timeout = 30_000_000_000

abbrev pub max_retry_delay : ℕ
max_retry_delay = 10_000_000_000

abbrev pub max_retry_attempts : ℕ
max_retry_attempts = 10

abbrev pub retry_base_delay : ℕ
retry_base_delay = 100_000_000

pub timeout_of : SkillRequest → ℕ
timeout_of req = if not_positive req.timeout then default_timeout else rounds req.timeout

-- The bound of the attempt loop.
pub max_attempts_of : SkillRequest → ℕ
max_attempts_of req =
    let n = rounds (add_one req.retry.max_attempts) in
    if ltb (max_retry_attempts + 1) n then max_retry_attempts + 1 else n

pub base_delay_of : SkillRequest → ℕ
base_delay_of req =
    if not_positive req.retry.base_delay then retry_base_delay else rounds req.retry.base_delay

-- The wait before an attempt that is not the first.
pub delay_before : ℕ → ℕ → ℕ
delay_before base attempt =
    let delay = base * 2 ^ (attempt - 1) in
    if ltb max_retry_delay delay then max_retry_delay else delay

-- What the loop does that others see.
pub data Event : Type 0 where
  waits : ℕ → Event
  calls : ℕ → Event

-- How the loop ends.
pub data Ending : Type 0 where
  succeeded : Value → Ending
  timed_out : GoError → Ending
  cancelled : GoError → Ending
  cancelled_in_backoff : GoError → Ending
  exhausted : Option GoError → Ending

pub data Round : Type 0 where
  ends : Ending → Round
  again : GoError → Round

module _ (env : Environment) (p : SkillProvider) (req : SkillRequest) where
  judge : Answer → Round
  judge (output v) = ends (succeeded v)
  judge (fails e) = if e.is_deadline_exceeded then ends (timed_out e) else again e

  call : ℕ → Round × List Event
  unfolding judge
  call attempt = (
    judge (env.execute_skill p attempt (timeout_of req) req.skill_id req.input),
    calls attempt ∷ [],
  )

  wait_and_call : ℕ → Option GoError → Round × List Event
  unfolding call
  wait_and_call attempt (some e) =
      (ends (cancelled_in_backoff e), waits (delay_before (base_delay_of req) attempt) ∷ [])
  wait_and_call attempt none =
      let (r, es) = call attempt in (r, waits (delay_before (base_delay_of req) attempt) ∷ es)

  -- The body of the loop.
  pub round : ℕ → Round × List Event
  unfolding wait_and_call
  round attempt = elim (env.ctx_err attempt) [
    | some e ↦ (ends (cancelled e), [])
    | none ↦
        if ltb 0 attempt
        then wait_and_call attempt (env.ctx_done_in_backoff attempt)
        else call attempt
  ]

  -- `left` rounds may still be made.
  pub attempts : ℕ → ℕ → Option GoError → Ending × List Event
  attempts zero attempt last_err = (exhausted last_err, [])
  attempts (suc left) attempt last_err =
      let (r, es) = round attempt in
      elim r [
        | ends e ↦ (e, es)
        | again e ↦ let (end, more) = attempts left (attempt + 1) (some e) in (end, es ++ more)
      ]

abbrev or_empty : Option String → String
or_empty none = ""
or_empty (some s) = s

pub trace_id_of : Environment → SkillRequest → String
trace_id_of env req = if str_eq req.trace_id "" then env.new_uuid else req.trace_id

-- `reportMetrics` and `auditor.log`.
finish : AtomicEngine → SkillProvider → SkillRequest → String → Status → AtomicEngine
finish e p req trace status = record e {
  executions =
      if e.metered then e.executions ++ (req.skill_id, p.skill_type, status) ∷ [] else e.executions;
  audits =
      e.audits
      ++ record {
        trace_id = trace;
        skill_id = req.skill_id;
        caller = or_empty (lookup "caller" req.metadata);
        status = status;
      }
        ∷ [];
}

failure : ErrorCode → String → String → Option GoError → Result SkillResponse
failure code message trace cause =
    err (record { code = code; message = message; trace_id = trace; cause = cause })

-- What follows the loop, or the return inside it.
pub settle :
    Environment
    → AtomicEngine
    → SkillProvider
    → SkillRequest
    → Ending
    → AtomicEngine × Result SkillResponse
unfolding finish failure
settle env e p req (succeeded v) =
    let trace = trace_id_of env req in
    let e' : AtomicEngine = record e { cb = record_success e.cb req.skill_id } in
    (
      finish e' p req trace success,
      ok (record {
        trace_id = trace;
        skill_id = req.skill_id;
        output = v;
        metadata = req.metadata;
      }),
    )
settle env e p req (timed_out cause) =
    let trace = trace_id_of env req in
    let e' : AtomicEngine = record e { cb = record_failure e.cb req.skill_id env.recorded_at } in
    (
      finish e' p req trace timeout,
      failure skill_timeout (str_append "skill execution timeout: " req.skill_id) trace
          (some cause),
    )
settle env e p req (cancelled cause) = (
  record e { cb = record_failure e.cb req.skill_id env.recorded_at },
  failure skill_exec_failed "context cancelled" (trace_id_of env req) (some cause),
)
settle env e p req (cancelled_in_backoff cause) = (
  record e { cb = record_failure e.cb req.skill_id env.recorded_at },
  failure skill_exec_failed "context cancelled during retry backoff" (trace_id_of env req)
      (some cause),
)
settle env e p req (exhausted last_err) =
    let trace = trace_id_of env req in
    let e' : AtomicEngine = record e { cb = record_failure e.cb req.skill_id env.recorded_at } in
    (
      finish e' p req trace failed,
      failure skill_exec_failed (str_append "skill execution failed: " req.skill_id) trace last_err,
    )

-- The engine after the call, its result, and what the loop did.
pub execute :
    Environment → AtomicEngine → SkillRequest → AtomicEngine × Result SkillResponse × List Event
unfolding failure
execute env e req = elim (resolve e.registry req.skill_id) [
  | none ↦ (
    e,
    failure skill_not_found (str_append "skill not found: " req.skill_id) (trace_id_of env req)
        none,
    [],
  )
  | some p ↦
      let (cb', admitted) = allow e.cb req.skill_id env.admitted_at in
      let e' : AtomicEngine = record e { cb = cb' } in
      if admitted
      then (let (end, es) = attempts env p req (max_attempts_of req) 0 none in
          let (e'', r) = settle env e' p req end in (e'', r, es))
      else ((
        e',
        failure circuit_open (str_append "circuit breaker open for skill: " req.skill_id)
            (trace_id_of env req) none,
        [],
      ))
]
