-- ===== src/SkillGateway/Breaker.antt =====
-- internal/skillgateway/circuit_breaker.go. Each method holds the breaker's mutex for its whole
-- body, so what concurrent requests do to the manager is a list of operations in some order. Times
-- and durations are nanoseconds; the clock is an argument. A threshold or a timeout below 0 acts
-- like 0. The log lines are not modelled, the metrics gauge is.
pub mod Invariant
pub mod Probes
pub mod Threshold
pub mod Gauge
mod Tests
use claw_hermes_ai_go.Base.{
  ℕ, ◌+◌, ◌-◌, Bool, true, false, Option, none, some, List, [], ◌∷◌, String, str_eq, leb,
  if◌then◌else◌,
}
use claw_hermes_ai_go.Base.Dict.{Dict, lookup, insert}

pub data CbState : Type 0 where
  cb_closed cb_open cb_half_open : CbState

abbrev pub cb_state_name : CbState → String
cb_state_name cb_closed = "closed"
cb_state_name cb_open = "open"
cb_state_name cb_half_open = "half_open"

pub record CircuitBreakerConfig : Type 0 where
  pub failure_threshold : ℕ
  pub recovery_timeout : ℕ

abbrev pub default_cb_config : CircuitBreakerConfig
default_cb_config = record { failure_threshold = 5; recovery_timeout = 30_000_000_000 }

pub record Breaker : Type 0 where
  pub state : CbState
  pub failures : ℕ
  pub last_failure_at : ℕ
  pub probing : Bool

-- `&breaker{state: CBClosed}`
abbrev pub new_breaker : Breaker
new_breaker = record { state = cb_closed; failures = 0; last_failure_at = 0; probing = false }

-- `metered` is `metrics != nil`, and `gauges` what the gauge of each skill was last set to.
pub record CircuitBreakerManager : Type 0 where
  pub breakers : Dict Breaker
  pub config : CircuitBreakerConfig
  pub metered : Bool
  pub gauges : Dict CbState

pub new_circuit_breaker_manager : CircuitBreakerConfig → Bool → CircuitBreakerManager
new_circuit_breaker_manager cfg metered = record {
  breakers = [];
  config = cfg;
  metered = metered;
  gauges = [];
}

unfoldable pub get_or_create : CircuitBreakerManager → String → CircuitBreakerManager × Breaker
get_or_create m skill_id = elim (lookup skill_id m.breakers) [
  | none ↦ (record m { breakers = insert skill_id new_breaker m.breakers }, new_breaker)
  | some b ↦ (m, b)
]

-- A write through the pointer that `get_or_create` returned.
unfoldable pub store : CircuitBreakerManager → String → Breaker → CircuitBreakerManager
store m skill_id b = record m { breakers = insert skill_id b m.breakers }

pub report_state : CircuitBreakerManager → String → CbState → CircuitBreakerManager
report_state m skill_id state =
    if m.metered then record m { gauges = insert skill_id state m.gauges } else m

-- The `switch b.state` of `Allow`.
unfoldable pub allow_in : CbState → CircuitBreakerConfig → ℕ → Breaker → Breaker × Bool
allow_in cb_closed cfg now b = (b, true)
allow_in cb_open cfg now b =
    if leb cfg.recovery_timeout (now - b.last_failure_at)
    then (record b { state = cb_half_open; probing = true }, true)
    else (b, false)
allow_in cb_half_open cfg now b =
    if b.probing then (b, false) else (record b { probing = true }, true)

unfoldable pub allow : CircuitBreakerManager → String → ℕ → CircuitBreakerManager × Bool
allow m skill_id now =
    let (m', b) = get_or_create m skill_id in
    let (b', allowed) = allow_in b.state m.config now b in (store m' skill_id b', allowed)

pub record_success : CircuitBreakerManager → String → CircuitBreakerManager
record_success m skill_id =
    let (m', b) = get_or_create m skill_id in
    let b' : Breaker = record b { state = cb_closed; failures = 0; probing = false } in
    report_state (store m' skill_id b') skill_id cb_closed

-- The `switch b.state` of `RecordFailure`; the flag tells whether the new state is reported.
pub fail_in : CbState → CircuitBreakerConfig → ℕ → Breaker → Breaker × Bool
fail_in cb_closed cfg now b =
    if leb cfg.failure_threshold (b.failures + 1)
    then (record b { state = cb_open; failures = b.failures + 1; last_failure_at = now }, true)
    else (record b { failures = b.failures + 1 }, false)
fail_in cb_open cfg now b = (b, false)
fail_in cb_half_open cfg now b = (record b { state = cb_open; last_failure_at = now }, true)

pub record_failure : CircuitBreakerManager → String → ℕ → CircuitBreakerManager
record_failure m skill_id now =
    let (m', b) = get_or_create m skill_id in
    let (b', tripped) = fail_in b.state m.config now (record b { probing = false }) in
    let m'' = store m' skill_id b' in if tripped then report_state m'' skill_id cb_open else m''

-- What a request does to the manager.
pub data Op : Type 0 where
  allows : String → ℕ → Op
  succeeds : String → Op
  fails : String → ℕ → Op

abbrev pub target : Op → String
target (allows k now) = k
target (succeeds k) = k
target (fails k now) = k

unfoldable pub step : CircuitBreakerManager → Op → CircuitBreakerManager
step m (allows k now) = (allow m k now).0
step m (succeeds k) = record_success m k
step m (fails k now) = record_failure m k now

-- Operations in the order in which they take the mutex.
unfoldable pub run : CircuitBreakerManager → List Op → CircuitBreakerManager
run m [] = m
run m (op ∷ ops) = run (step m op) ops

-- The breaker that the next operation on a skill works with.
abbrev pub or_new : Option Breaker → Breaker
or_new none = new_breaker
or_new (some b) = b

pub breaker_of : CircuitBreakerManager → String → Breaker
breaker_of m skill_id = or_new (lookup skill_id m.breakers)

-- What an operation does to the one breaker that it works with.
pub breaker_step : CircuitBreakerConfig → Op → Breaker → Breaker
breaker_step cfg (allows k now) b = (allow_in b.state cfg now b).0
breaker_step cfg (succeeds k) b = record b { state = cb_closed; failures = 0; probing = false }
breaker_step cfg (fails k now) b = (fail_in b.state cfg now (record b { probing = false })).0
