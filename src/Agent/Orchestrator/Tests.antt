-- ===== src/Agent/Orchestrator/Tests.antt =====
-- The orchestrator at a plan of two participants.
use claw_hermes_ai_go.Base.{ℕ, zero, suc, ◌≡◌, List, [], ◌∷◌, String, some}
use claw_hermes_ai_go.SkillGateway.Types.{text}
use claw_hermes_ai_go.Agent.Orchestrator.{
  hierarchical, AgentIdentity, create_steps, Orchestrator, new_orchestrator, cleanup,
}
use claw_hermes_ai_go.Agent.Orchestrator.Plans.{DependsBack, Assigned, create_steps_ordered}
use claw_hermes_ai_go.Agent.Orchestrator.Contexts.{
  Op, creates, updates, marks, run_ops, cleanup_never_cleans,
}

abbrev ids : ℕ → String
ids zero = "s0"
ids (suc n) = "s1"

abbrev participants : List AgentIdentity
participants = record { id = "a"; name = "first" } ∷ record { id = "b"; name = "second" } ∷ []

abbrev ops : List Op
ops =
    creates ids "p" "c" "task" hierarchical participants 0
    ∷ updates "c" "key" (text "value")
    ∷ marks "p" "s0" []
    ∷ marks "p" "s1" []
    ∷ []

create_steps_ordered_example :
    DependsBack [] (create_steps ids hierarchical participants)
    × Assigned participants (create_steps ids hierarchical participants)
create_steps_ordered_example = create_steps_ordered ids hierarchical participants

cleanup_never_cleans_example :
    (o : Orchestrator) × (run_ops new_orchestrator ops ≡ some o) × (cleanup o 10 1000 ≡ o)
cleanup_never_cleans_example = cleanup_never_cleans ops 10 1000
