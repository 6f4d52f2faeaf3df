-- ===== src/SkillGateway/Pipeline/Tests.antt =====
-- pipeline.go and pipeline_builder.go: the theorems at small pipelines.
use claw_hermes_ai_go.SkillGateway.Pipeline.{conditional, a_step}
use claw_hermes_ai_go.SkillGateway.Pipeline.Builder.{
  new_pipeline_builder, add, add_step, first_step, end_if, to_steps, all_steps, parallel_group,
}
use claw_hermes_ai_go.Base.{
  ℕ, ◌≡◌, refl, Bool, none, some, List, [], ◌∷◌, ◌++◌, String, str_eq, if◌then◌else◌,
}
use claw_hermes_ai_go.Base.Dict.{has}
use claw_hermes_ai_go.SkillGateway.Types.{
  Value, text, nil, SkillRequest, SkillResponse, Result, ok, err, skill_not_found,
}
use claw_hermes_ai_go.SkillGateway.Pipeline.{
  Step, step, sequential, parallel, no_step, Steps, no_steps, next, StepContext, Pipeline,
  output_key, resolve_input, or_value, execute_atomic, request, step_result, execute_step,
  run_steps, execute,
}
use claw_hermes_ai_go.SkillGateway.Pipeline.Run.{Shape, execute-Shape}
use claw_hermes_ai_go.SkillGateway.Pipeline.History.{latest, latest_named}
use claw_hermes_ai_go.SkillGateway.Pipeline.References.{
  history_after, sequential_step, CalledWith, references_resolve,
}
use claw_hermes_ai_go.SkillGateway.Pipeline.Builder.{PipelineBuilder, if_step, then_branch, build}

-- The skill "echo" returns its input; there is no other.
abbrev echo : List ℕ → SkillRequest → Result SkillResponse
echo place req =
    if str_eq req.skill_id "echo"
    then (ok (record {
      trace_id = req.trace_id;
      skill_id = req.skill_id;
      output = req.input;
      metadata = req.metadata;
    }))
    else err
        (record { code = skill_not_found; message = ""; trace_id = req.trace_id; cause = none })

abbrev call_step : String → String → Value → Step
call_step name skill_id input = step name sequential skill_id input none no_step no_step no_steps

abbrev copies : List Step
copies = call_step "a" "echo" (text "hello") ∷ call_step "b" "echo" (text "$prev.output") ∷ []

abbrev missing : List Step
missing = call_step "c" "nothing" nil ∷ call_step "d" "echo" nil ∷ []

abbrev pipeline : Pipeline
pipeline = record { id = "p"; steps = copies ++ missing }

execute-Shape_example :
    ((execute echo "t" pipeline).0.pipeline_id ≡ "p")
    × ((execute echo "t" pipeline).0.trace_id ≡ "t")
    × Shape echo "t" 0 []
        (copies ++ missing)
        ((execute echo "t" pipeline).0.steps, (execute echo "t" pipeline).1)
execute-Shape_example = execute-Shape echo "t" pipeline

copies_run : (run_steps echo "t" 0 copies [] "").1 ≡ none
unfolding run_steps execute_step execute_atomic request step_result resolve_input
copies_run = refl

-- A reference behind both steps, with a step that fails behind it.
references_resolve_example :
    let first = (run_steps echo "t" 0 copies [] "").0 in
    let h = history_after [] copies first in
    CalledWith echo "t" copies "e" "echo"
      (or_value (latest "a" h) (text ""))
      first
      (run_steps echo "t" 0
        (copies ++ sequential_step "e" "echo" (text (output_key "a")) ∷ missing)
        []
        "").0
    × CalledWith echo "t" copies "e" "echo"
        (or_value (latest_named h) (text "$prev.output"))
        first
        (run_steps echo "t" 0
          (copies ++ sequential_step "e" "echo" (text "$prev.output") ∷ missing)
          []
          "").0
references_resolve_example = references_resolve echo "t" copies missing "e" "echo" "a" copies_run

abbrev branches : Steps
branches = next (call_step "a" "echo" (text "x")) (next (call_step "b" "nothing" nil) no_steps)

abbrev has_result : StepContext → Bool
has_result ctx = has (output_key "a") ctx

abbrev empty_builder : PipelineBuilder
empty_builder = record { id = "p"; steps = [] }

abbrev two_steps : PipelineBuilder
two_steps = record { id = "q"; steps = copies }

-- A step, a condition without an else-branch, and a group of both steps of a sub-pipeline.
abbrev start : PipelineBuilder
start = add_step (new_pipeline_builder "id" "") "a" "echo" nil

built_steps :
    (build (
      parallel_group
        (end_if (then_branch (if_step start "c" (some has_result)) two_steps))
        "g"
        (two_steps ∷ []))).steps
    ≡ call_step "a" "echo" nil
      ∷ step "c" conditional "" nil
          (some has_result)
          (a_step (call_step "a" "echo" (text "hello")))
          no_step
          no_steps
      ∷ step "g" parallel "" nil none no_step no_step (
          next
            (call_step "a" "echo" (text "hello"))
            (next (call_step "b" "echo" (text "$prev.output")) no_steps))
      ∷ []
unfolding new_pipeline_builder add_step add first_step end_if to_steps all_steps parallel_group
    if_step then_branch build
built_steps = refl
