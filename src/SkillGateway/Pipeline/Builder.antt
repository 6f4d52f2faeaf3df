-- ===== src/SkillGateway/Pipeline/Builder.antt =====
-- internal/skillgateway/pipeline_builder.go: the chained construction of pipelines. A builder is
-- changed in place there; here each method returns the builder as it is afterwards.
use claw_hermes_ai_go.Base.{
  ℕ, ◌≡◌, refl, ◌∙◌, Bool, Option, none, some, List, [], ◌∷◌, ◌++◌, String, str_eq, if◌then◌else◌,
  Bool-cases, inl, inr,
}
use claw_hermes_ai_go.SkillGateway.Types.{Value, nil, Result, SkillRequest, SkillResponse}
use claw_hermes_ai_go.SkillGateway.Pipeline.{
  Step, step, sequential, conditional, parallel, MaybeStep, no_step, a_step, Steps, no_steps, next,
  StepContext, Ran, Pipeline, holds, execute_step, execute_chosen,
}

pub record PipelineBuilder : Type 0 where
  pub id : String
  pub steps : List Step

-- `uuid` is the generated ID.
unfoldable pub new_pipeline_builder : String → String → PipelineBuilder
new_pipeline_builder uuid id = record { id = if str_eq id "" then uuid else id; steps = [] }

unfoldable pub add : PipelineBuilder → Step → PipelineBuilder
add b s = record b { steps = b.steps ++ s ∷ [] }

-- The method `Step`.
unfoldable pub add_step : PipelineBuilder → String → String → Value → PipelineBuilder
unfolding add
add_step b name skill_id input =
    add b (step name sequential skill_id input none no_step no_step no_steps)

pub record IfBuilder : Type 0 where
  pub parent : PipelineBuilder
  pub condition : Option (StepContext → Bool)
  pub name : String

-- The method `If`.
unfoldable pub if_step : PipelineBuilder → String → Option (StepContext → Bool) → IfBuilder
if_step b name condition = record { parent = b; condition = condition; name = name }

pub record ThenBuilder : Type 0 where
  pub parent : PipelineBuilder
  pub condition : Option (StepContext → Bool)
  pub name : String
  pub then_step : MaybeStep

unfoldable pub first_step : List Step → MaybeStep
first_step [] = no_step
first_step (s ∷ rest) = a_step s

-- The methods `Then`, `Else` and `EndIf`.
unfoldable pub then_branch : IfBuilder → PipelineBuilder → ThenBuilder
unfolding first_step
then_branch ib sub = record {
  parent = ib.parent;
  condition = ib.condition;
  name = ib.name;
  then_step = first_step sub.steps;
}

pub else_branch : ThenBuilder → PipelineBuilder → PipelineBuilder
unfolding add first_step
else_branch tb sub =
    add tb.parent
      (step tb.name conditional "" nil tb.condition tb.then_step (first_step sub.steps) no_steps)

unfoldable pub end_if : ThenBuilder → PipelineBuilder
unfolding add
end_if tb =
    add tb.parent (step tb.name conditional "" nil tb.condition tb.then_step no_step no_steps)

unfoldable pub to_steps : List Step → Steps
to_steps [] = no_steps
to_steps (s ∷ rest) = next s (to_steps rest)

unfoldable pub all_steps : List PipelineBuilder → List Step
all_steps [] = []
all_steps (sub ∷ subs) = sub.steps ++ all_steps subs

-- The method `Parallel`.
unfoldable pub parallel_group : PipelineBuilder → String → List PipelineBuilder → PipelineBuilder
unfolding add to_steps all_steps
parallel_group b name subs =
    add b (step name parallel "" nil none no_step no_step (to_steps (all_steps subs)))

unfoldable pub build : PipelineBuilder → Pipeline
build b = record { id = b.id; steps = b.steps }

module _ (atomic : List ℕ → SkillRequest → Result SkillResponse) (trace_id : String) where
  -- What a branch with these steps does when it is chosen.
  abbrev pub first_only : List ℕ → String → List Step → StepContext → String → Ran
  first_only place name [] ctx prev = (record { name = name; output = nil; error = none }, none)
  first_only place name (s ∷ rest) ctx prev = execute_step atomic trace_id place s ctx prev

  chosen_first :
      (place : List ℕ) (name : String) (steps : List Step) (ctx : StepContext) (prev : String)
      → execute_chosen atomic trace_id place name (first_step steps) ctx prev
        ≡ first_only place name steps ctx prev
  unfolding execute_chosen first_step
  chosen_first place name [] ctx prev = refl
  chosen_first place name (s ∷ rest) ctx prev = refl

  chooses :
      (place : List ℕ) (name : String) (condition : StepContext → Bool) (then' else' : MaybeStep)
      (ctx : StepContext) (prev : String)
      → execute_step atomic trace_id place
          (step name conditional "" nil (some condition) then' else' no_steps)
          ctx
          prev
        ≡ (if condition ctx
            then execute_chosen atomic trace_id place name then' ctx prev
            else execute_chosen atomic trace_id place name else' ctx prev)
  unfolding execute_step holds
  chooses place name condition then' else' ctx prev = refl

-- A conditional step that the builder makes appends one step to the pipeline. When it runs, it runs
-- the first step alone of the sub-pipeline that the condition chooses, however long that is, and
-- nothing if that is empty.
pub if_then_else_runs_first :
    (atomic : List ℕ → SkillRequest → Result SkillResponse) (trace_id : String)
    (b yes_sub no_sub : PipelineBuilder) (name : String) (condition : StepContext → Bool)
    → (s : Step) × ((build
          (else_branch (then_branch (if_step b name (some condition)) yes_sub) no_sub)).steps
        ≡ b.steps ++ s ∷ [])
      × ((place : List ℕ) (ctx : StepContext) (prev : String)
          → execute_step atomic trace_id place s ctx prev
            ≡ first_only atomic trace_id place name
                (if condition ctx then yes_sub.steps else no_sub.steps)
                ctx
                prev)
unfolding build else_branch then_branch if_step
if_then_else_runs_first atomic trace_id b yes_sub no_sub name condition = (
  step name conditional "" nil (some condition) (first_step yes_sub.steps) (first_step no_sub.steps)
      no_steps,
  refl,
  λ place ctx prev.
      chooses atomic trace_id place name condition (first_step yes_sub.steps)
        (first_step no_sub.steps) ctx prev
      ∙ elim (Bool-cases (condition ctx)) [
        | inl e ↦ rw e (chosen_first atomic trace_id place name yes_sub.steps ctx prev)
        | inr e ↦ rw e (chosen_first atomic trace_id place name no_sub.steps ctx prev)
      ],
)
