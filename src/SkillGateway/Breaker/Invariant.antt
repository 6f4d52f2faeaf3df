-- ===== src/SkillGateway/Breaker/Invariant.antt =====
-- circuit_breaker.go: what holds of each breaker and of its gauge after any operations.
use claw_hermes_ai_go.Base.{
  ℕ, ◌≤◌, ◌<◌, ◌≡◌, refl, ◌≢◌, ◌⊎◌, inl, inr, Bool, true, false, List, [], ◌∷◌, String, arith,
  str_eq, eq_iff, if◌then◌else◌, subst, sym, ◌∙◌, Bool-cases,
}
use claw_hermes_ai_go.Base.Dict.{lookup, lookup-insert}
use claw_hermes_ai_go.SkillGateway.Breaker.{
  CbState, cb_closed, cb_open, cb_half_open, CircuitBreakerConfig, Breaker, new_breaker,
  get_or_create, CircuitBreakerManager, new_circuit_breaker_manager, allow_in, fail_in, store,
  report_state, allow, record_success, record_failure, breaker_step, Op, allows, succeeds, fails,
  target, step, run, breaker_of,
}

pub got-breaker_of :
    (m : CircuitBreakerManager) (k : String) → (get_or_create m k).1 ≡ breaker_of m k
unfolding get_or_create breaker_of
got-breaker_of m k = ground arith

pub got-gauges : (m : CircuitBreakerManager) (k : String) → (get_or_create m k).0.gauges ≡ m.gauges
unfolding get_or_create
got-gauges m k = ground arith

pub got-metered :
    (m : CircuitBreakerManager) (k : String) → (get_or_create m k).0.metered ≡ m.metered
unfolding get_or_create
got-metered m k = ground arith

breaker_of-got :
    (m : CircuitBreakerManager) (j k : String) → breaker_of (get_or_create m j).0 k ≡ breaker_of m k
unfolding get_or_create breaker_of
breaker_of-got m j k = ground (arith, lookup-insert j k new_breaker m.breakers, eq_iff j k)

breaker_of-store :
    (m : CircuitBreakerManager) (j k : String) (b : Breaker)
    → breaker_of (store m j b) k ≡ (if str_eq j k then b else breaker_of m k)
unfolding breaker_of store
breaker_of-store m j k b = ground (arith, lookup-insert j k b m.breakers)

breaker_of-report :
    (m : CircuitBreakerManager) (j k : String) (s : CbState)
    → breaker_of (report_state m j s) k ≡ breaker_of m k
unfolding breaker_of report_state
breaker_of-report m j k s = ground arith

breaker_of-if :
    (t : Bool) (m : CircuitBreakerManager) (j k : String) (s : CbState)
    → breaker_of (if t then report_state m j s else m) k ≡ breaker_of m k
breaker_of-if true m j k s = breaker_of-report m j k s
breaker_of-if false m j k s = refl

config-report :
    (m : CircuitBreakerManager) (k : String) (s : CbState) → (report_state m k s).config ≡ m.config
unfolding report_state
config-report m k s = elim (Bool-cases m.metered) [ inl e ↦ rw e refl | inr e ↦ rw e refl ]

config-if :
    (t : Bool) (m : CircuitBreakerManager) (k : String) (s : CbState)
    → (if t then report_state m k s else m).config ≡ m.config
config-if true m k s = config-report m k s
config-if false m k s = refl

got-config : (m : CircuitBreakerManager) (k : String) → (get_or_create m k).0.config ≡ m.config
unfolding get_or_create
got-config m k = ground arith

ruleset breaker_reads = (
  breaker_of-store, breaker_of-got, breaker_of-report, got-breaker_of, got-config, got-metered,
  got-gauges,
)

breaker_of-allow :
    (m : CircuitBreakerManager) (j k : String) (now : ℕ)
    → breaker_of (allow m j now).0 k ≡ (
        if str_eq j k
        then (allow_in (breaker_of m j).state m.config now (breaker_of m j)).0
        else breaker_of m k)
unfolding allow
breaker_of-allow m j k now = simp breaker_reads

breaker_of-record_success :
    (m : CircuitBreakerManager) (j k : String)
    → breaker_of (record_success m j) k ≡ (
        if str_eq j k
        then record (breaker_of m j) { state = cb_closed; failures = 0; probing = false }
        else breaker_of m k)
unfolding record_success
breaker_of-record_success m j k = simp breaker_reads

breaker_of-record_failure :
    (m : CircuitBreakerManager) (j k : String) (now : ℕ)
    → breaker_of (record_failure m j now) k ≡ (
        if str_eq j k
        then (fail_in
            (breaker_of m j).state
            m.config
            now
            (record (breaker_of m j) { probing = false })).0
        else breaker_of m k)
unfolding record_failure
breaker_of-record_failure m j k now = simp (breaker_of-if, breaker_reads)

pub config-step : (m : CircuitBreakerManager) (op : Op) → (step m op).config ≡ m.config
unfolding step allow record_success record_failure store
config-step m (allows k now) = got-config m k
config-step m (succeeds k) = config-report _ k cb_closed ∙ got-config m k
config-step m (fails k now) = config-if _ _ k cb_open ∙ got-config m k

-- An operation moves the breaker of its own skill by `breaker_step`, and no other breaker.
pub breaker_of-step :
    (m : CircuitBreakerManager) (op : Op) (k : String)
    → breaker_of (step m op) k
      ≡ (if str_eq (target op) k then breaker_step m.config op (breaker_of m k) else breaker_of m k)
unfolding step breaker_step
breaker_of-step m (allows j now) k = ground (arith, breaker_of-allow m j k now, eq_iff j k)
breaker_of-step m (succeeds j) k = ground (arith, breaker_of-record_success m j k, eq_iff j k)
breaker_of-step m (fails j now) k = ground (arith, breaker_of-record_failure m j k now, eq_iff j k)

pub config-run : (m : CircuitBreakerManager) (ops : List Op) → (run m ops).config ≡ m.config
unfolding run
config-run m [] = refl
config-run m (op ∷ ops) = config-run (step m op) ops ∙ config-step m op

abbrev pub is_half_open : CbState → Bool
is_half_open cb_half_open = true
is_half_open _ = false

-- A probe is in flight exactly in the half-open state, a closed breaker has fewer failures than the
-- threshold (or none, for a threshold of 0), and any other has reached the threshold.
pub record IsSound (cfg : CircuitBreakerConfig) (b : Breaker) : Type 0 where
  pub probe : b.probing ≡ is_half_open b.state
  pub count :
      ((b.state ≡ cb_closed) × ((b.failures < cfg.failure_threshold) ⊎ (b.failures ≡ 0)))
      ⊎ ((b.state ≢ cb_closed) × (cfg.failure_threshold ≤ b.failures))

pub new_breaker-IsSound : (cfg : CircuitBreakerConfig) → IsSound cfg new_breaker
new_breaker-IsSound cfg = record { probe = refl; count = inl (refl, inr refl) }

pub breaker_step-IsSound :
    (cfg : CircuitBreakerConfig) (op : Op) (b : Breaker)
    → IsSound cfg b
    → IsSound cfg (breaker_step cfg op b)
unfolding breaker_step allow_in fail_in
breaker_step-IsSound cfg (allows k now) b h = ground (arith, h.count)
breaker_step-IsSound cfg (succeeds k) b h = ground arith
breaker_step-IsSound cfg (fails k now) b h = ground (arith, h.count)

step-IsSound :
    (m : CircuitBreakerManager) (op : Op) (k : String)
    → IsSound m.config (breaker_of m k)
    → IsSound m.config (breaker_of (step m op) k)
step-IsSound m op k h = rw breaker_of-step (elim (Bool-cases (str_eq (target op) k)) [
  | inl e ↦ rw e (breaker_step-IsSound m.config op (breaker_of m k) h)
  | inr e ↦ rw e h
])

run-IsSound_from :
    (m : CircuitBreakerManager) (ops : List Op) (k : String)
    → IsSound m.config (breaker_of m k)
    → IsSound m.config (breaker_of (run m ops) k)
unfolding run
run-IsSound_from m [] k h = h
run-IsSound_from m (op ∷ ops) k h =
    subst (λ c. IsSound c (breaker_of (run (step m op) ops) k)) (config-step m op)
      (run-IsSound_from (step m op) ops k (
        subst (λ c. IsSound c (breaker_of (step m op) k)) (sym (config-step m op))
          (step-IsSound m op k h)))

-- After any operations on a new manager, in any order, the breaker of every skill has `probing` set
-- exactly if it is half open, has fewer failures than the threshold or none if it is closed, and has
-- at least as many as the threshold otherwise.
pub run-IsSound :
    (cfg : CircuitBreakerConfig) (metered : Bool) (ops : List Op) (k : String)
    → IsSound cfg (breaker_of (run (new_circuit_breaker_manager cfg metered) ops) k)
unfolding new_circuit_breaker_manager breaker_of lookup
run-IsSound cfg metered ops k = run-IsSound_from _ ops k (new_breaker-IsSound cfg)
