-- ===== src/SkillGateway/Breaker/Tests.antt =====
-- circuit_breaker.go: the theorems at concrete runs of a manager.
use claw_hermes_ai_go.Base.{
  ◌≤◌, ◌≡◌, refl, ◌≢◌, true, false, List, [], ◌∷◌, String, some, arith, subst, eq_iff,
}
use claw_hermes_ai_go.Base.Dict.{lookup, insert}
use claw_hermes_ai_go.SkillGateway.Breaker.{
  cb_closed, cb_open, cb_half_open, CircuitBreakerConfig, CircuitBreakerManager,
  new_circuit_breaker_manager, get_or_create, store, report_state, allow_in, allow, record_success,
  fail_in, record_failure, Op, allows, succeeds, fails, step, run, breaker_of,
}
use claw_hermes_ai_go.SkillGateway.Breaker.Invariant.{IsSound, run-IsSound}
use claw_hermes_ai_go.SkillGateway.Breaker.Probes.{grants, one_probe}
use claw_hermes_ai_go.SkillGateway.Breaker.Threshold.{failures_of, Counted, trip_and_reset}
use claw_hermes_ai_go.SkillGateway.Breaker.Gauge.{Shows, gauge, gauge_never_half_open}

abbrev two_failures : CircuitBreakerConfig
two_failures = record { failure_threshold = 2; recovery_timeout = 10 }

abbrev tripping : List Op
tripping = allows "a" 1 ∷ fails "a" 2 ∷ succeeds "b" ∷ fails "a" 3 ∷ []

abbrev fresh : CircuitBreakerManager
fresh = record { breakers = []; config = two_failures; metered = true; gauges = [] }

abbrev tripped : CircuitBreakerManager
tripped = record {
  breakers =
      ("a", record { state = cb_open; failures = 2; last_failure_at = 3; probing = false })
      ∷ ("b", record { state = cb_closed; failures = 0; last_failure_at = 0; probing = false })
      ∷ [];
  config = two_failures;
  metered = true;
  gauges = ("b", cb_closed) ∷ ("a", cb_open) ∷ [];
}

-- The tripping run leads from a new manager to `tripped`.
run-tripping : run (new_circuit_breaker_manager two_failures true) tripping ≡ tripped
unfolding get_or_create store report_state allow_in allow record_success fail_in record_failure run
    step lookup insert new_circuit_breaker_manager
run-tripping = refl

run-IsSound_example :
    IsSound two_failures
      (breaker_of (run (new_circuit_breaker_manager two_failures true) tripping) "a")
run-IsSound_example = run-IsSound two_failures true tripping "a"

tripped-IsSound : IsSound two_failures (breaker_of tripped "a")
tripped-IsSound =
    subst (λ m. IsSound two_failures (breaker_of m "a")) run-tripping
      (run-IsSound two_failures true tripping "a")

abbrev asking : List Op
asking = allows "a" 12 ∷ allows "a" 13 ∷ allows "b" 13 ∷ allows "a" 40 ∷ []

open-ne-closed : (breaker_of tripped "a").state ≢ cb_closed
unfolding breaker_of lookup
open-ne-closed e = cc

one_probe_example : grants "a" tripped asking ≤ 1
one_probe_example =
    one_probe "a" tripped asking tripped-IsSound open-ne-closed (tt, (tt, (tt, (tt, tt))))

b-ne-a : ◌≢◌ {A = String} "b" "a"
b-ne-a e = ground (arith, eq_iff "b" "a")

-- One failure of "a", with a success of another skill behind it.
abbrev one_fails : List Op
one_fails = fails "a" 5 ∷ succeeds "b" ∷ allows "a" 6 ∷ []

trip_and_reset_example :
    Counted two_failures 7 1 (breaker_of (step (run fresh one_fails) (fails "a" 7)) "a")
    × ((breaker_of (step (step (run fresh one_fails) (fails "a" 7)) (succeeds "a")) "a").state
        ≡ cb_closed)
    × ((breaker_of (step (step (run fresh one_fails) (fails "a" 7)) (succeeds "a")) "a").failures
        ≡ 0)
unfolding breaker_of lookup failures_of
trip_and_reset_example =
    trip_and_reset "a" fresh one_fails 0 7 (tt, (b-ne-a, (tt, tt))) refl refl (omega arith)

gauge_never_half_open_example :
    let m = run (new_circuit_breaker_manager two_failures true) tripping in
    Shows (gauge m "a") (breaker_of m "a") × (gauge m "a" ≢ some cb_half_open)
gauge_never_half_open_example = gauge_never_half_open two_failures tripping "a"
