-- ===== src/SkillGateway/Atomic/Outcomes.antt =====
-- atomic.go: what a call returns, and what it does to the circuit breaker.
use claw_hermes_ai_go.Base.{
  ℕ, ◌+◌, ◌<◌, ◌≡◌, refl, ◌∙◌, ◌⊎◌, inl, inr, Bool, true, false, none, some, [], str_append, arith,
  ltb, Bool-cases, Option-cases,
}
use claw_hermes_ai_go.SkillGateway.Types.{
  Value, GoError, SkillError, SkillRequest, ok, err, skill_not_found, circuit_open,
}
use claw_hermes_ai_go.SkillGateway.Breaker.{CircuitBreakerManager, allow, succeeds, step}
use claw_hermes_ai_go.SkillGateway.Registry.{SkillProvider, resolve}
use claw_hermes_ai_go.SkillGateway.Atomic.{
  Environment, output, fails, succeeded, again, judge, call, wait_and_call, round, attempts, settle,
  failure, execute, AtomicEngine, trace_id_of, max_attempts_of, timeout_of,
}
use claw_hermes_ai_go.SkillGateway.Atomic.Attempts.{attempts_until}
use claw_hermes_ai_go.SkillGateway.Atomic.Endings.{response, Outcome}
use claw_hermes_ai_go.SkillGateway.Atomic.Endings.Loop.{loop-Outcome}

round-live :
    (env : Environment) (p : SkillProvider) (req : SkillRequest) (j : ℕ)
    → env.ctx_err j ≡ none
    → env.ctx_done_in_backoff j ≡ none
    → (round env p req j).0
      ≡ judge env p req (env.execute_skill p j (timeout_of req) req.skill_id req.input)
unfolding round wait_and_call call
round-live env p req j h on =
    rw (h, round)
      (elim (Bool-cases (ltb 0 j)) [
        | inl later ↦ rw later (rw (on, wait_and_call) refl)
        | inr first ↦ rw first refl
      ])

round-again :
    (env : Environment) (p : SkillProvider) (req : SkillRequest) (j : ℕ) (g : GoError)
    → env.ctx_err j ≡ none
    → env.ctx_done_in_backoff j ≡ none
    → env.execute_skill p j (timeout_of req) req.skill_id req.input ≡ fails g
    → g.is_deadline_exceeded ≡ false
    → (round env p req j).0 ≡ again g
round-again env p req j g h on answer kind =
    round-live env p req j h on ∙ (rw answer (unfold judge in rw kind refl))

abbrev pub unknown_error : Environment → SkillRequest → SkillError
unknown_error env req = record {
  code = skill_not_found;
  message = str_append "skill not found: " req.skill_id;
  trace_id = trace_id_of env req;
  cause = none;
}

abbrev pub refused_error : Environment → SkillRequest → SkillError
refused_error env req = record {
  code = circuit_open;
  message = str_append "circuit breaker open for skill: " req.skill_id;
  trace_id = trace_id_of env req;
  cause = none;
}

module _ (env : Environment) (e : AtomicEngine) (req : SkillRequest) where
  -- The engine and the answer of the breaker, once it was asked.
  abbrev asked : CircuitBreakerManager × Bool
  asked = allow e.cb req.skill_id env.admitted_at

  execute-unknown :
      resolve e.registry req.skill_id ≡ none
      → execute env e req ≡ (e, err (unknown_error env req), [])
  unfolding execute failure
  execute-unknown h = rw (h, execute) refl

  execute-refused :
      (p : SkillProvider)
      → resolve e.registry req.skill_id ≡ some p
      → asked.1 ≡ false
      → execute env e req ≡ (record e { cb = asked.0 }, err (refused_error env req), [])
  unfolding execute failure
  execute-refused p h off = rw (h, execute) (rw off refl)

  execute-admitted :
      (p : SkillProvider)
      → resolve e.registry req.skill_id ≡ some p
      → asked.1 ≡ true
      → let loop = attempts env p req (max_attempts_of req) 0 none in
        let after : AtomicEngine = record e { cb = asked.0 } in
        execute env e req
        ≡ ((settle env after p req loop.0).0, (settle env after p req loop.0).1, loop.1)
  unfolding execute
  execute-admitted p h on = rw (h, execute) (rw on refl)

  -- A call is one of three things. The skill is unknown, nothing changes and no provider is called. Or
  -- the breaker refuses, which is all that changes, and no provider is called. Or the breaker admits
  -- it, and exactly one outcome is recorded with it. This is a success only if the last call had
  -- output and every call before it failed without a timeout: then the response carries the output of
  -- that call, the request's skill ID and its metadata. Otherwise it is a failure, with an error that
  -- says why: the last call timed out behind others that failed otherwise; or the context was done,
  -- before an attempt or in its wait; or all attempts of the request were made and each has failed
  -- without a timeout, and the cause is the error of the last. Response and errors carry the
  -- request's trace ID, or the generated one if that is empty.
  pub execute_outcomes :
      ((resolve e.registry req.skill_id ≡ none)
        × (execute env e req ≡ (e, err (unknown_error env req), [])))
      ⊎ ((asked.1 ≡ false)
          × (execute env e req ≡ (record e { cb = asked.0 }, err (refused_error env req), [])))
      ⊎ ((asked.1 ≡ true)
          × ((p : SkillProvider) × (resolve e.registry req.skill_id ≡ some p)
              × Outcome env p req asked.0
                  (execute env e req).2
                  (execute env e req).1
                  (execute env e req).0.cb))
  execute_outcomes = elim (Option-cases (resolve e.registry req.skill_id)) [
    | inl h ↦ inl (h, execute-unknown h)
    | inr (p, h) ↦ elim (Bool-cases asked.1) [
      | inr off ↦ inr (inl (off, execute-refused p h off))
      | inl on ↦ inr (
          inr (
            on,
            (
              p,
              h,
              rw (execute-admitted p h on) (loop-Outcome env p req (record e { cb = asked.0 })),
            ),
          ))
    ]
  ]

  -- Once admitted, with a live context, a call that fails with errors other than a timeout before
  -- attempt `k`, and has output `v` at attempt `k`, returns `v` and records one success, if `k` is
  -- within the request's attempts.
  pub retry_until_success :
      (p : SkillProvider) (k : ℕ) (v : Value)
      → resolve e.registry req.skill_id ≡ some p
      → asked.1 ≡ true
      → ((j : ℕ) → (env.ctx_err j ≡ none) × (env.ctx_done_in_backoff j ≡ none))
      → ((j : ℕ)
          → j < k
          → (g : GoError) × (env.execute_skill p j (timeout_of req) req.skill_id req.input
              ≡ fails g)
            × (g.is_deadline_exceeded ≡ false))
      → env.execute_skill p k (timeout_of req) req.skill_id req.input ≡ output v
      → k < max_attempts_of req
      → ((execute env e req).1 ≡ ok (response env req v))
        × ((execute env e req).0.cb ≡ step asked.0 (succeeds req.skill_id))
  retry_until_success p k v h on live failing_before success_at lt =
      let finish =
        attempts_until env p req k (max_attempts_of req) 0 none (succeeded v)
          (λ j below.
            let (g, answer, kind) = failing_before j below in
            let here : 0 + j ≡ j = omega arith in
            (g, rw here (round-again env p req j g (live j).0 (live j).1 answer kind)))
          lt
          (let here : 0 + k ≡ k = omega arith in
            rw here (
              round-live env p req k (live k).0 (live k).1
              ∙ (rw success_at (unfold judge in refl)))) in
      (
        rw (execute-admitted p h on) (rw finish (unfold settle in refl)),
        rw (execute-admitted p h on) (rw finish (unfold settle step in refl)),
      )
