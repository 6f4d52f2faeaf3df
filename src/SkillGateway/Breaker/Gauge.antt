-- ===== src/SkillGateway/Breaker/Gauge.antt =====
-- circuit_breaker.go: what the metrics gauge of a skill shows of its breaker.
use claw_hermes_ai_go.Base.{
  inl, inr, ◌≡◌, refl, ◌≢◌, Bool, true, false, Option, none, some, List, [], ◌∷◌, String, arith,
  str_eq, eq_iff, if◌then◌else◌, ◌∙◌, Bool-cases,
}
use claw_hermes_ai_go.Base.Dict.{lookup, lookup-insert}
use claw_hermes_ai_go.SkillGateway.Breaker.{
  CbState, cb_closed, cb_open, cb_half_open, CircuitBreakerConfig, Breaker, get_or_create,
  CircuitBreakerManager, new_circuit_breaker_manager, allow_in, fail_in, store, report_state, allow,
  record_success, record_failure, breaker_step, Op, allows, succeeds, fails, target, step, run,
  breaker_of,
}
use claw_hermes_ai_go.SkillGateway.Breaker.Invariant.{
  got-breaker_of, got-gauges, got-metered, breaker_of-step,
}

-- A half-open breaker still shows as open.
abbrev pub settled : CbState → CbState
settled cb_closed = cb_closed
settled cb_open = cb_open
settled cb_half_open = cb_open

-- What the gauge of a skill may show: the settled state of its breaker, and a gauge that was never
-- set belongs to a closed breaker.
pub Shows : Option CbState → Breaker → Type 0
Shows none b = b.state ≡ cb_closed
Shows (some g) b = g ≡ settled b.state

pub gauge : CircuitBreakerManager → String → Option CbState
gauge m k = lookup k m.gauges

gauge-report :
    (m : CircuitBreakerManager) (j k : String) (s : CbState)
    → gauge (report_state m j s) k
      ≡ (if m.metered then if str_eq j k then some s else gauge m k else gauge m k)
unfolding gauge report_state
gauge-report m j k s = ground (arith, lookup-insert j k s m.gauges)

gauge-store :
    (m : CircuitBreakerManager) (j k : String) (b : Breaker) → gauge (store m j b) k ≡ gauge m k
unfolding gauge store
gauge-store m j k b = refl

gauge-got : (m : CircuitBreakerManager) (j k : String) → gauge (get_or_create m j).0 k ≡ gauge m k
unfolding gauge
gauge-got m j k = rw got-gauges refl

metered-store :
    (m : CircuitBreakerManager) (j : String) (b : Breaker) → (store m j b).metered ≡ m.metered
unfolding store
metered-store m j b = refl

metered-report :
    (m : CircuitBreakerManager) (j : String) (s : CbState)
    → (report_state m j s).metered ≡ m.metered
unfolding report_state
metered-report m j s = elim (Bool-cases m.metered) [ inl e ↦ rw e refl | inr e ↦ rw e refl ]

ruleset gauge_reads = (
  gauge-report, gauge-store, gauge-got, metered-store, metered-report, got-metered, got-breaker_of,
)

-- What an operation shows on the gauge of its own skill, if it reports at all.
reported : CircuitBreakerConfig → Op → Breaker → Option CbState
reported cfg (allows k now) b = none
reported cfg (succeeds k) b = some cb_closed
reported cfg (fails k now) b =
    if (fail_in b.state cfg now (record b { probing = false })).1 then some cb_open else none

or_old : Option CbState → Option CbState → Option CbState
or_old none old = old
or_old (some s) old = some s

gauge-if :
    (t : Bool) (m : CircuitBreakerManager) (j k : String) (s : CbState)
    → gauge (if t then report_state m j s else m) k
      ≡ (if t then gauge (report_state m j s) k else gauge m k)
gauge-if true m j k s = refl
gauge-if false m j k s = refl

metered-if :
    (t : Bool) (m : CircuitBreakerManager) (j : String) (s : CbState)
    → (if t then report_state m j s else m).metered ≡ m.metered
metered-if true m j s = metered-report m j s
metered-if false m j s = refl

gauge-step :
    (m : CircuitBreakerManager) (op : Op) (k : String)
    → m.metered ≡ true
    → gauge (step m op) k ≡ (
        if str_eq (target op) k
        then or_old (reported m.config op (breaker_of m (target op))) (gauge m k)
        else gauge m k)
unfolding step reported or_old
gauge-step m (allows j now) k e = unfold allow in simp gauge_reads (ground arith)
gauge-step m (succeeds j) k e = unfold record_success in simp (e, gauge_reads) (ground arith)
gauge-step m (fails j now) k e =
    unfold record_failure in simp (e, gauge-if, gauge_reads) (ground arith)

metered-step : (m : CircuitBreakerManager) (op : Op) → (step m op).metered ≡ m.metered
unfolding step
metered-step m (allows j now) = unfold allow in simp gauge_reads
metered-step m (succeeds j) = unfold record_success in simp gauge_reads
metered-step m (fails j now) = unfold record_failure in simp (metered-if, gauge_reads)

Shows-step :
    (cfg : CircuitBreakerConfig) (op : Op) (g : Option CbState) (b : Breaker)
    → Shows g b
    → Shows (or_old (reported cfg op b) g) (breaker_step cfg op b)
unfolding Shows or_old reported breaker_step allow_in fail_in
Shows-step cfg (allows k now) none b h = ground arith
Shows-step cfg (allows k now) (some g) b h = ground arith
Shows-step cfg (succeeds k) none b h = ground arith
Shows-step cfg (succeeds k) (some g) b h = ground arith
Shows-step cfg (fails k now) none b h = ground arith
Shows-step cfg (fails k now) (some g) b h = ground arith

step-Shows :
    (m : CircuitBreakerManager) (op : Op) (k : String)
    → m.metered ≡ true
    → Shows (gauge m k) (breaker_of m k)
    → Shows (gauge (step m op) k) (breaker_of (step m op) k)
step-Shows m op k on h =
    rw (gauge-step m op k on, breaker_of-step m op k) (by_target (str_eq (target op) k) refl)
  where
    by_target :
        (t : Bool)
        → str_eq (target op) k ≡ t
        → Shows
            (if t
              then or_old (reported m.config op (breaker_of m (target op))) (gauge m k)
              else gauge m k)
            (if t then breaker_step m.config op (breaker_of m k) else breaker_of m k)
    by_target false e = h
    by_target true e =
        rw ((eq_iff (target op) k).0 e) (Shows-step m.config op (gauge m k) (breaker_of m k) h)

run-Shows :
    (m : CircuitBreakerManager) (ops : List Op) (k : String)
    → m.metered ≡ true
    → Shows (gauge m k) (breaker_of m k)
    → Shows (gauge (run m ops) k) (breaker_of (run m ops) k)
unfolding run
run-Shows m [] k on h = h
run-Shows m (op ∷ ops) k on h =
    run-Shows (step m op) ops k (metered-step m op ∙ on) (step-Shows m op k on h)

-- With metrics, after any operations on a new manager the gauge of a skill is unset only if its
-- breaker is closed, and otherwise shows closed for a closed breaker and open for an open or a
-- half-open one: it never shows half open.
pub gauge_never_half_open :
    (cfg : CircuitBreakerConfig) (ops : List Op) (k : String)
    → let m = run (new_circuit_breaker_manager cfg true) ops in
      Shows (gauge m k) (breaker_of m k) × (gauge m k ≢ some cb_half_open)
gauge_never_half_open cfg ops k =
    let s = run-Shows (new_circuit_breaker_manager cfg true) ops k start_metered start_shows in
    (s, not_half (gauge (run (new_circuit_breaker_manager cfg true) ops) k) _ s)
  where
    start_metered : (new_circuit_breaker_manager cfg true).metered ≡ true
    start_metered = unfold new_circuit_breaker_manager in refl

    start_shows :
        Shows
          (gauge (new_circuit_breaker_manager cfg true) k)
          (breaker_of (new_circuit_breaker_manager cfg true) k)
    start_shows = unfold new_circuit_breaker_manager Shows gauge breaker_of lookup in refl

    not_half : (g : Option CbState) (b : Breaker) → Shows g b → g ≢ some cb_half_open
    not_half none b h = λ e. cc
    not_half (some g) b h = unfold Shows in λ e. ground arith
