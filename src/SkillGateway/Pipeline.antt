-- ===== src/SkillGateway/Pipeline.antt =====
-- internal/skillgateway/pipeline.go: steps in sequence, by condition and in parallel. The atomic
-- engine is a parameter: its answer to the call at each place of the pipeline. A place is written as
-- the index of the top-level step and then those of the parallel branches. Every place makes at most
-- one call, so whatever the interleaving of the branches, some such function gives the answers.
pub mod History
pub mod Run
pub mod References
pub mod Branches
pub mod Builder
mod Tests
use claw_hermes_ai_go.Base.{
  ℕ, zero, suc, ◌+◌, Bool, true, false, not, ◌&&◌, Option, none, some, List, [], ◌∷◌, ◌++◌, String,
  str_append, str_eq, if◌then◌else◌, starts_with,
}
use claw_hermes_ai_go.Base.Int.{ℤ, pos}
use claw_hermes_ai_go.Base.Dict.{Dict, lookup, insert}
use claw_hermes_ai_go.SkillGateway.Types.{
  Value, nil, text, other, table, Fields, no_field, field, SkillError, Result, ok, err,
  SkillRequest, SkillResponse,
}

-- `unset` is the zero value, or any other string.
pub data StepType : Type 0 where
  sequential conditional parallel unset : StepType

-- Outputs by the key "$steps.<name>.output".
abbrev pub StepContext : Type 0
StepContext = Dict Value

-- A step has a name, a type, a skill ID, an input, a condition, a then-step, an else-step and the
-- parallel steps; a nil pointer is `no_step`.
mutual
  pub data Step : Type 0 where
    step :
        String
        → StepType
        → String
        → Value
        → Option (StepContext → Bool)
        → MaybeStep
        → MaybeStep
        → Steps
        → Step

  pub data MaybeStep : Type 0 where
    no_step : MaybeStep
    a_step : Step → MaybeStep

  pub data Steps : Type 0 where
    no_steps : Steps
    next : Step → Steps → Steps

abbrev pub name_of : Step → String
name_of (step name type skill_id input condition then' else' branches) = name

pub record Pipeline : Type 0 where
  pub id : String
  pub steps : List Step

pub record StepResult : Type 0 where
  pub name : String
  pub output : Value
  pub error : Option SkillError

-- What running one step returns.
abbrev pub Ran : Type 0
Ran = StepResult × Option SkillError

pub record PipelineError : Type 0 where
  pub skill_error : SkillError
  pub failed_step : String
  pub step_index : ℕ

pub record PipelineResult : Type 0 where
  pub pipeline_id : String
  pub trace_id : String
  pub steps : List StepResult

-- The key under which a step's output is found.
pub output_key : String → String
output_key name = str_append (str_append "$steps." name) ".output"

abbrev pub or_value : Option Value → Value → Value
or_value none d = d
or_value (some v) d = v

-- `resolveInput` on a string.
resolve_text : String → StepContext → String → Value
unfolding output_key
resolve_text s step_ctx prev_name =
    let s' =
      if str_eq s "$prev.output" && not (str_eq prev_name "") then output_key prev_name else s in
    if starts_with s' "$steps." then or_value (lookup s' step_ctx) (text "") else text s

pub resolve_input : Value → StepContext → String → Value
unfolding resolve_text
resolve_input (text s) step_ctx prev_name = resolve_text s step_ctx prev_name
resolve_input input step_ctx prev_name = input

holds : Option (StepContext → Bool) → StepContext → Bool
holds none step_ctx = false
holds (some condition) step_ctx = condition step_ctx

-- `outputs[name] = output`
pub set_field : String → Value → Fields → Fields
set_field k v no_field = field k v no_field
set_field k v (field j w fs) = if str_eq j k then field k v fs else field j w (set_field k v fs)

-- The loop over the branches' results in `executeParallel`.
pub first_error : List Ran → Option SkillError
first_error [] = none
first_error ((sr, some e) ∷ rs) = some e
first_error ((sr, none) ∷ rs) = first_error rs

pub outputs_from : Fields → List Ran → Fields
outputs_from fs [] = fs
outputs_from fs ((sr, e) ∷ rs) =
    outputs_from (if str_eq sr.name "" then fs else set_field sr.name sr.output fs) rs

module _ (atomic : List ℕ → SkillRequest → Result SkillResponse) (trace_id : String) where
  pub request : String → Value → SkillRequest
  request skill_id input = record {
    trace_id = trace_id;
    skill_id = skill_id;
    input = input;
    timeout = pos 0;
    retry = record { max_attempts = pos 0; base_delay = pos 0 };
    metadata = [];
  }

  pub step_result : String → Result SkillResponse → Ran
  step_result name (ok r) = (record { name = name; output = r.output; error = none }, none)
  step_result name (err e) = (record { name = name; output = nil; error = some e }, some e)

  execute_atomic : List ℕ → String → String → Value → StepContext → String → Ran
  unfolding request step_result
  execute_atomic place name skill_id input step_ctx prev_name =
      step_result name (atomic place (request skill_id (resolve_input input step_ctx prev_name)))

  join : String → List Ran → Ran
  unfolding first_error outputs_from
  join name rs = (
    record { name = name; output = table (outputs_from no_field rs); error = none },
    first_error rs,
  )

  mutual
    unfolding execute_atomic holds join

    pub execute_step : List ℕ → Step → StepContext → String → Ran
    execute_step place (step name conditional skill_id input condition then' else' branches)
          step_ctx prev_name =
        if holds condition step_ctx
        then execute_chosen place name then' step_ctx prev_name
        else execute_chosen place name else' step_ctx prev_name
    execute_step place (step name parallel skill_id input condition then' else' branches) step_ctx
          prev_name =
        join name (execute_branches place 0 branches step_ctx)
    execute_step place (step name type skill_id input condition then' else' branches) step_ctx
          prev_name =
        execute_atomic place name skill_id input step_ctx prev_name

    pub execute_chosen : List ℕ → String → MaybeStep → StepContext → String → Ran
    execute_chosen place name no_step step_ctx prev_name =
        (record { name = name; output = nil; error = none }, none)
    execute_chosen place name (a_step s) step_ctx prev_name =
        execute_step place s step_ctx prev_name

    pub execute_branches : List ℕ → ℕ → Steps → StepContext → List Ran
    execute_branches place i no_steps step_ctx = []
    execute_branches place i (next s rest) step_ctx =
        execute_step (place ++ i ∷ []) s step_ctx "" ∷ execute_branches place (i + 1) rest step_ctx

  -- The loop of `execute`, from step number `i` on.
  pub run_steps : ℕ → List Step → StepContext → String → List StepResult × Option PipelineError
  run_steps i [] step_ctx prev_name = ([], none)
  run_steps i (s ∷ rest) step_ctx prev_name =
      let (sr, e) = execute_step (i ∷ []) s step_ctx prev_name in
      let named = not (str_eq (name_of s) "") in
      let (srs, failed) =
        run_steps (i + 1) rest
          (if named then insert (output_key (name_of s)) sr.output step_ctx else step_ctx)
          (if named then name_of s else prev_name) in
      elim e [
        | some e ↦
            (sr ∷ [], some (record { skill_error = e; failed_step = name_of s; step_index = i }))
        | none ↦ (sr ∷ srs, failed)
      ]

  -- `trace_id` is the generated one.
  pub execute : Pipeline → PipelineResult × Option PipelineError
  unfolding run_steps
  execute p =
      let (srs, failed) = run_steps 0 p.steps [] "" in
      (record { pipeline_id = p.id; trace_id = trace_id; steps = srs }, failed)
