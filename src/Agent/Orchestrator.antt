-- ===== src/Agent/Orchestrator.antt =====
-- internal/agent/a2a/orchestrator.go: plans of collaborating agents and the data that they share. Each
-- method holds the mutexes while it changes the state. The generated IDs are arguments, of a plan and
-- of its steps by their number. A time is a number of nanoseconds; a context may be nil. The values of
-- the maps are of type `any`.
pub mod Plans
pub mod Contexts
mod Tests
use claw_hermes_ai_go.Base.{
  ℕ, zero, suc, ◌+◌, ◌-◌, Bool, true, false, ◌&&◌, ◌||◌, Option, none, some, List, [], ◌∷◌, String,
  str_append, str_eq, ltb, if◌then◌else◌,
}
use claw_hermes_ai_go.Base.Dict.{Dict, lookup, insert, has}
use claw_hermes_ai_go.SkillGateway.Types.{Value}

pub data CollaborationStrategy : Type 0 where
  sequential parallel hierarchical consensus swarm pipeline voting adaptive : CollaborationStrategy
  unknown_strategy : String → CollaborationStrategy

-- What the orchestrator reads of an agent's identity.
pub record AgentIdentity : Type 0 where
  pub id : String
  pub name : String

-- The times and the error of a step are not modelled: nothing here reads them.
pub record TaskStep : Type 0 where
  pub id : String
  pub name : String
  pub agent_id : String
  pub dependencies : List String
  pub input : Dict Value
  pub output : Dict Value
  pub status : String

pub record ExecutionPlan : Type 0 where
  pub id : String
  pub collaboration_id : String
  pub task_description : String
  pub strategy : CollaborationStrategy
  pub steps : List TaskStep
  pub current_step : ℕ
  pub status : String
  pub created_at : ℕ

pub record SharedContext : Type 0 where
  pub data_map : Dict Value
  pub version : ℕ

pub record Orchestrator : Type 0 where
  pub plans : Dict ExecutionPlan
  pub contexts : Dict (Option SharedContext)

abbrev pub new_orchestrator : Orchestrator
new_orchestrator = record { plans = []; contexts = [] }

new_step : String → String → String → List String → TaskStep
new_step id name agent_id dependencies = record {
  id = id;
  name = name;
  agent_id = agent_id;
  dependencies = dependencies;
  input = [];
  output = [];
  status = "pending";
}

module _ (ids : ℕ → String) where
  -- The loop over the participants from number `i` on, with the dependencies of that one.
  sequential_from : ℕ → List String → List AgentIdentity → List TaskStep
  unfolding new_step
  sequential_from i dependencies [] = []
  sequential_from i dependencies (agent ∷ rest) =
      new_step (ids i) agent.name agent.id dependencies ∷ sequential_from (i + 1) (ids i ∷ []) rest

  pub create_sequential_steps : List AgentIdentity → List TaskStep
  unfolding sequential_from
  create_sequential_steps participants = sequential_from 0 [] participants

  -- Steps that all have the same dependencies, with a suffix to their names.
  independent_from : ℕ → String → List String → List AgentIdentity → List TaskStep
  unfolding new_step
  independent_from i suffix dependencies [] = []
  independent_from i suffix dependencies (agent ∷ rest) =
      new_step (ids i) (str_append agent.name suffix) agent.id dependencies
      ∷ independent_from (i + 1) suffix dependencies rest

  pub create_parallel_steps : List AgentIdentity → List TaskStep
  unfolding independent_from
  create_parallel_steps participants = independent_from 0 "" [] participants

  pub create_hierarchical_steps : List AgentIdentity → List TaskStep
  unfolding new_step independent_from
  create_hierarchical_steps [] = []
  create_hierarchical_steps (coordinator ∷ rest) =
      new_step (ids 0) coordinator.name coordinator.id [] ∷ independent_from 1 "" (ids 0 ∷ []) rest

  pub create_swarm_steps : List AgentIdentity → List TaskStep
  unfolding independent_from
  create_swarm_steps participants = independent_from 0 "_swarm_agent" [] participants

  pub create_steps : CollaborationStrategy → List AgentIdentity → List TaskStep
  unfolding create_sequential_steps create_parallel_steps create_hierarchical_steps
      create_swarm_steps
  create_steps sequential participants = create_sequential_steps participants
  create_steps parallel participants = create_parallel_steps participants
  create_steps hierarchical participants = create_hierarchical_steps participants
  create_steps pipeline participants = create_sequential_steps participants
  create_steps swarm participants = create_swarm_steps participants
  create_steps consensus participants = create_sequential_steps participants
  create_steps voting participants = create_sequential_steps participants
  create_steps adaptive participants = create_sequential_steps participants
  create_steps (unknown_strategy s) participants = create_sequential_steps participants

  pub create_plan :
      Orchestrator
      → (plan_id collaboration_id task_description : String) → CollaborationStrategy
      → List AgentIdentity
      → ℕ
      → Orchestrator × ExecutionPlan
  unfolding create_steps
  create_plan o plan_id collaboration_id task_description strategy participants now =
      let plan : ExecutionPlan = record {
        id = plan_id;
        collaboration_id = collaboration_id;
        task_description = task_description;
        strategy = strategy;
        steps = create_steps strategy participants;
        current_step = 0;
        status = "created";
        created_at = now;
      } in
      (
        record {
          plans = insert plan_id plan o.plans;
          contexts =
              insert collaboration_id (some (record { data_map = []; version = 0 })) o.contexts;
        },
        plan,
      )

pub data OrchestratorError : Type 0 where
  plan_not_found context_not_found step_not_found : OrchestratorError

pub get_plan : Orchestrator → String → Option ExecutionPlan
get_plan o plan_id = lookup plan_id o.plans

-- A found context may be nil.
pub get_shared_context : Orchestrator → String → Option (Option SharedContext)
get_shared_context o collaboration_id = lookup collaboration_id o.contexts

-- `none` is a panic.
write_context :
    Orchestrator → String → String → Value → Option (Option SharedContext) → Option Orchestrator
write_context o collaboration_id key value none = some o
write_context o collaboration_id key value (some none) = none
write_context o collaboration_id key value (some (some ctx)) = some (record o {
  contexts =
      insert collaboration_id
        (some (record { data_map = insert key value ctx.data_map; version = ctx.version + 1 }))
        o.contexts;
})

pub update_context : Orchestrator → String → String → Value → Option Orchestrator
unfolding write_context
update_context o collaboration_id key value =
    write_context o collaboration_id key value (lookup collaboration_id o.contexts)

-- The first step of the ID, with the output and marked; `none` where there is none.
complete_step : String → Dict Value → List TaskStep → Option (List TaskStep)
complete_step step_id output [] = none
complete_step step_id output (s ∷ steps) =
    let later = complete_step step_id output steps in
    if str_eq s.id step_id
    then some (record s { status = "completed"; output = output } ∷ steps)
    else elim later [ none ↦ none | some steps' ↦ some (s ∷ steps') ]

put_steps :
    Orchestrator
    → String
    → ExecutionPlan
    → Option (List TaskStep)
    → Orchestrator × Option OrchestratorError
put_steps o plan_id plan none = (o, some step_not_found)
put_steps o plan_id plan (some steps) =
    (record o { plans = insert plan_id (record plan { steps = steps }) o.plans }, none)

pub mark_step_complete :
    Orchestrator → String → String → Dict Value → Orchestrator × Option OrchestratorError
unfolding complete_step put_steps
mark_step_complete o plan_id step_id output = elim (lookup plan_id o.plans) [
  | none ↦ (o, some plan_not_found)
  | some plan ↦ put_steps o plan_id plan (complete_step step_id output plan.steps)
]

-- `old && completed`
pub is_stale : ℕ → ℕ → ExecutionPlan → Bool
is_stale max_age now plan =
    ltb max_age (now - plan.created_at)
    && (str_eq plan.status "completed" || str_eq plan.status "failed")

drop_context : Dict (Option SharedContext) → String → Dict (Option SharedContext)
drop_context contexts collaboration_id =
    if has collaboration_id contexts then insert collaboration_id none contexts else contexts

cleanup_loop : ℕ → ℕ → Dict ExecutionPlan → Dict (Option SharedContext) → Orchestrator
unfolding drop_context is_stale
cleanup_loop max_age now [] contexts = record { plans = []; contexts = contexts }
cleanup_loop max_age now ((id, plan) ∷ rest) contexts =
    let dropped = cleanup_loop max_age now rest (drop_context contexts plan.collaboration_id) in
    let kept = cleanup_loop max_age now rest contexts in
    if is_stale max_age now plan then dropped else record kept { plans = (id, plan) ∷ kept.plans }

pub cleanup : Orchestrator → ℕ → ℕ → Orchestrator
unfolding cleanup_loop
cleanup o max_age now = cleanup_loop max_age now o.plans o.contexts
