-- ===== src/SkillGateway/Types.antt =====
-- internal/skillgateway/types.go, and the dynamic values (`any`) that skills take and return.
-- Durations and times are nanoseconds. A measured duration is not modelled: nothing reads it.
use claw_hermes_ai_go.Base.{ℕ, Bool, Option, none, some, String, str_eq, if◌then◌else◌}
use claw_hermes_ai_go.Base.Int.{ℤ}
use claw_hermes_ai_go.Base.Dict.{Dict}

-- A value of type `any`: nil, a string, a `float64` by its whole part (what `int(v)` makes of it) and
-- an index of the rest, a `[]any`, a `map[string]any`, or some other value, which the program only
-- passes on.
mutual
  pub data Value : Type 0 where
    nil : Value
    text : String → Value
    number : ℤ → ℕ → Value
    items : Values → Value
    other : ℕ → Value
    table : Fields → Value

  pub data Values : Type 0 where
    no_item : Values
    item : Value → Values → Values

  pub data Fields : Type 0 where
    no_field : Fields
    field : String → Value → Fields → Fields

-- `m[k]` of a `map[string]any`.
unfoldable pub get_field : String → Fields → Option Value
get_field k no_field = none
get_field k (field j v fs) = if str_eq j k then some v else get_field k fs

pub data ErrorCode : Type 0 where
  skill_not_found skill_timeout skill_already_exists : ErrorCode
  skill_exec_failed circuit_open pipeline_step_failed : ErrorCode

abbrev pub error_number : ErrorCode → ℕ
error_number skill_not_found = 4001
error_number skill_timeout = 4002
error_number skill_already_exists = 4003
error_number skill_exec_failed = 5001
error_number circuit_open = 5002
error_number pipeline_step_failed = 5003

-- An `error` of a provider or a context, as far as the gateway looks at it: its text, and whether it
-- wraps `context.DeadlineExceeded`.
pub record GoError : Type 0 where
  pub message : String
  pub is_deadline_exceeded : Bool

pub record SkillError : Type 0 where
  pub code : ErrorCode
  pub message : String
  pub trace_id : String
  pub cause : Option GoError

pub data Result {ℓ} (A : Type ℓ) : Type ℓ where
  ok : A → Result A
  err : SkillError → Result A

pub record RetryConfig : Type 0 where
  pub max_attempts : ℤ
  pub base_delay : ℤ

-- The metadata are of use only through their "caller" entry.
pub record SkillRequest : Type 0 where
  pub trace_id : String
  pub skill_id : String
  pub input : Value
  pub timeout : ℤ
  pub retry : RetryConfig
  pub metadata : Dict String

pub record SkillResponse : Type 0 where
  pub trace_id : String
  pub skill_id : String
  pub output : Value
  pub metadata : Dict String
