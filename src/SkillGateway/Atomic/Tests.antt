-- ===== src/SkillGateway/Atomic/Tests.antt =====
-- atomic.go: the theorems at a call that fails twice and then has output.
use claw_hermes_ai_go.Base.{
  ℕ, zero, suc, ◌+◌, ◌≤◌, ◌<◌, ◌≡◌, refl, ◌⊎◌, true, false, none, some, [], ◌∷◌, All, arith,
}
use claw_hermes_ai_go.Base.Int.{pos}
use claw_hermes_ai_go.Base.Dict.{lookup}
use claw_hermes_ai_go.SkillGateway.Types.{text, GoError, SkillRequest, ok, err}
use claw_hermes_ai_go.SkillGateway.Breaker.{
  default_cb_config, allow, step, succeeds, get_or_create, allow_in,
}
use claw_hermes_ai_go.SkillGateway.Registry.{SkillProvider, resolve}
use claw_hermes_ai_go.SkillGateway.Atomic.{
  Answer, output, fails, Environment, AtomicEngine, timeout_of, max_attempts_of, base_delay_of,
  again, judge, call, wait_and_call, round, attempts, execute,
}
use claw_hermes_ai_go.SkillGateway.Atomic.Attempts.{
  plan, IsShort, calls_in, Begins, attempts_follow_plan,
}
use claw_hermes_ai_go.SkillGateway.Atomic.Endings.{response, Outcome}
use claw_hermes_ai_go.SkillGateway.Atomic.Outcomes.{
  execute_outcomes, retry_until_success, unknown_error, refused_error,
}

abbrev busy : GoError
busy = record { message = "busy"; is_deadline_exceeded = false }

abbrev third_time : ℕ → Answer
third_time zero = fails busy
third_time (suc zero) = fails busy
third_time (suc (suc n)) = output (text "done")

abbrev env : Environment
env = record {
  new_uuid = "t-1";
  ctx_err = λ j. none;
  ctx_done_in_backoff = λ j. none;
  execute_skill = λ p j t k v. third_time j;
  admitted_at = 100;
  recorded_at = 200;
}

abbrev tool : SkillProvider
tool = record { name = "tool"; skill_ids = "s" ∷ []; skill_type = "builtin" }

abbrev engine : AtomicEngine
engine = record {
  registry = ("s", tool) ∷ [];
  cb = record { breakers = []; config = default_cb_config; metered = true; gauges = [] };
  audits = [];
  metered = true;
  executions = [];
}

abbrev request : SkillRequest
request = record {
  trace_id = "";
  skill_id = "s";
  input = text "in";
  timeout = pos 0;
  retry = record { max_attempts = pos 4; base_delay = pos 0 };
  metadata = [];
}

attempts_follow_plan_example :
    Begins (attempts env tool request 5 0 none).1 (plan (base_delay_of request) 5 0)
    × (calls_in (attempts env tool request 5 0 none).1 ≤ 5)
    × All IsShort (attempts env tool request 5 0 none).1
attempts_follow_plan_example = attempts_follow_plan env tool request 5

fails_before : (j : ℕ) → j < 2 → (g : GoError) × ((round env tool request (0 + j)).0 ≡ again g)
unfolding round wait_and_call call judge
fails_before zero lt = (busy, refl)
fails_before (suc zero) lt = (busy, refl)
fails_before (suc (suc n)) lt = absurd (omega arith)

execute_outcomes_example :
    ((resolve engine.registry "s" ≡ none)
      × (execute env engine request ≡ (engine, err (unknown_error env request), [])))
    ⊎ (((allow engine.cb "s" 100).1 ≡ false)
        × (execute env engine request ≡ (
          record engine { cb = (allow engine.cb "s" 100).0 },
          err (refused_error env request),
          [],
        )))
    ⊎ (((allow engine.cb "s" 100).1 ≡ true)
        × ((p : SkillProvider) × (resolve engine.registry "s" ≡ some p)
            × Outcome env p request
                (allow engine.cb "s" 100).0
                (execute env engine request).2
                (execute env engine request).1
                (execute env engine request).0.cb))
execute_outcomes_example = execute_outcomes env engine request

fails_twice :
    (j : ℕ)
    → j < 2
    → (g : GoError) × (env.execute_skill tool j (timeout_of request) "s" (text "in") ≡ fails g)
      × (g.is_deadline_exceeded ≡ false)
fails_twice zero lt = (busy, refl, refl)
fails_twice (suc zero) lt = (busy, refl, refl)
fails_twice (suc (suc n)) lt = absurd (omega arith)

two_of_five : 2 < max_attempts_of request
unfolding max_attempts_of
two_of_five = omega arith

retry_until_success_example :
    ((execute env engine request).1 ≡ ok (response env request (text "done")))
    × ((execute env engine request).0.cb ≡ step (allow engine.cb "s" 100).0 (succeeds "s"))
unfolding resolve lookup allow get_or_create allow_in
retry_until_success_example =
    retry_until_success env engine request tool 2 (text "done") refl refl (λ j. (refl, refl))
      fails_twice refl two_of_five
