-- ===== src/Agent/Orchestrator/Contexts.antt =====
-- orchestrator.go: what the methods make of the plans and the shared data together.
use claw_hermes_ai_go.Base.{
  ℕ, ◌-◌, ◌≡◌, refl, sym, ap, subst, ◌≢◌, inl, inr, Bool, true, false, ◌&&◌, Option, none, some,
  List, [], ◌∷◌, String, str_eq, ltb, All, Bool-cases, Option-cases, some-ne-none, some_inj,
}
use claw_hermes_ai_go.Base.Dict.{Dict, lookup, insert}
use claw_hermes_ai_go.SkillGateway.Types.{Value}
use claw_hermes_ai_go.Agent.Orchestrator.{
  CollaborationStrategy, AgentIdentity, TaskStep, ExecutionPlan, SharedContext, Orchestrator,
  new_orchestrator, create_plan, write_context, update_context, complete_step, put_steps,
  mark_step_complete, is_stale, cleanup_loop, cleanup,
}

-- The methods that change the state; `none` is a panic.
pub data Op : Type 0 where
  creates :
      (ids : ℕ → String) (plan_id collaboration_id task_description : String)
      → CollaborationStrategy
      → List AgentIdentity
      → ℕ
      → Op
  updates : (collaboration_id key : String) → Value → Op
  marks : (plan_id step_id : String) → Dict Value → Op
  cleans : (max_age now : ℕ) → Op

pub step : Orchestrator → Op → Option Orchestrator
step o (creates ids plan_id collaboration_id task strategy participants now) =
    some (create_plan ids o plan_id collaboration_id task strategy participants now).0
step o (updates collaboration_id key value) = update_context o collaboration_id key value
step o (marks plan_id step_id output) = some (mark_step_complete o plan_id step_id output).0
step o (cleans max_age now) = some (cleanup o max_age now)

pub run_ops : Orchestrator → List Op → Option Orchestrator
unfolding step
run_ops o [] = some o
run_ops o (op ∷ ops) = elim (step o op) [ none ↦ none | some o' ↦ run_ops o' ops ]

-- No plan has ended, and no context is nil.
record IsOpen (o : Orchestrator) : Type 0 where
  unfinished : All (λ (entry : String × ExecutionPlan). entry.1.status ≡ "created") o.plans
  present : All (λ (entry : String × Option SharedContext). entry.1 ≢ none) o.contexts

All-insert {ℓ} :
    {V : Type ℓ} (P : V → Type 0) (k : String) (v : V) (m : Dict V)
    → P v
    → All (λ (entry : String × V). P entry.1) m
    → All (λ (entry : String × V). P entry.1) (insert k v m)
unfolding insert
All-insert P k v [] h a = (h, tt)
All-insert P k v (e ∷ m) h a = elim (Bool-cases (str_eq e.0 k)) [
  | inl y ↦ rw y (h, a.1)
  | inr n ↦ rw n (a.0, All-insert P k v m h a.1)
]

All-lookup {ℓ} :
    {V : Type ℓ} (P : V → Type 0) (k : String) (v : V) (m : Dict V)
    → lookup k m ≡ some v
    → All (λ (entry : String × V). P entry.1) m
    → P v
unfolding lookup
All-lookup P k v [] e a = absurd (some-ne-none (sym e))
All-lookup P k v (x ∷ m) e a = elim (Bool-cases (str_eq x.0 k)) [
  | inl y ↦ subst P (some_inj (rw y at e)) a.0
  | inr n ↦ All-lookup P k v m (rw n at e) a.1
]

not_stale :
    (max_age now : ℕ) (plan : ExecutionPlan)
    → plan.status ≡ "created"
    → is_stale max_age now plan ≡ false
unfolding is_stale
not_stale max_age now plan e = rw e (never (ltb max_age (now - plan.created_at)))
  where
    never : (b : Bool) → b && false ≡ false
    never true = refl
    never false = refl

cleanup_loop-same :
    (max_age now : ℕ) (ps : Dict ExecutionPlan) (cs : Dict (Option SharedContext))
    → All (λ (entry : String × ExecutionPlan). entry.1.status ≡ "created") ps
    → cleanup_loop max_age now ps cs ≡ record { plans = ps; contexts = cs }
unfolding cleanup_loop
cleanup_loop-same max_age now [] cs h = refl
cleanup_loop-same max_age now ((id, plan) ∷ ps) cs h =
    let rest = cleanup_loop-same max_age now ps cs h.1 in
    rw (not_stale max_age now plan h.0)
      (ap (λ (o : Orchestrator). record o { plans = (id, plan) ∷ o.plans }) rest)

cleanup-same : (o : Orchestrator) (max_age now : ℕ) → IsOpen o → cleanup o max_age now ≡ o
unfolding cleanup
cleanup-same o max_age now h = cleanup_loop-same max_age now o.plans o.contexts h.unfinished

create_plan-IsOpen :
    (ids : ℕ → String) (o : Orchestrator) (plan_id collaboration_id task : String)
    (strategy : CollaborationStrategy) (participants : List AgentIdentity) (now : ℕ)
    → IsOpen o
    → IsOpen (create_plan ids o plan_id collaboration_id task strategy participants now).0
unfolding create_plan
create_plan-IsOpen ids o plan_id collaboration_id task strategy participants now h = record {
  unfinished =
      All-insert (λ (p : ExecutionPlan). p.status ≡ "created") plan_id _ o.plans refl h.unfinished;
  present =
      All-insert (λ (c : Option SharedContext). c ≢ none) collaboration_id _ o.contexts (λ e. cc)
        h.present;
}

write_context-IsOpen :
    (o : Orchestrator) (k key : String) (value : Value) (found : Option (Option SharedContext))
    → lookup k o.contexts ≡ found
    → IsOpen o
    → (o' : Orchestrator) × (write_context o k key value found ≡ some o') × IsOpen o'
unfolding write_context
write_context-IsOpen o k key value none e h = (o, refl, h)
write_context-IsOpen o k key value (some none) e h =
    absurd (All-lookup (λ (c : Option SharedContext). c ≢ none) k none o.contexts e h.present refl)
write_context-IsOpen o k key value (some (some ctx)) e h = (
  _,
  refl,
  record {
    unfinished = h.unfinished;
    present =
        All-insert (λ (c : Option SharedContext). c ≢ none) k _ o.contexts (λ x. cc) h.present;
  },
)

put_steps-IsOpen :
    (o : Orchestrator) (plan_id : String) (plan : ExecutionPlan) (steps : Option (List TaskStep))
    → lookup plan_id o.plans ≡ some plan
    → IsOpen o
    → IsOpen (put_steps o plan_id plan steps).0
unfolding put_steps
put_steps-IsOpen o plan_id plan none e h = h
put_steps-IsOpen o plan_id plan (some steps) e h = record {
  unfinished =
      All-insert (λ (p : ExecutionPlan). p.status ≡ "created") plan_id _ o.plans
        (All-lookup (λ (p : ExecutionPlan). p.status ≡ "created") plan_id plan o.plans e
          h.unfinished)
        h.unfinished;
  present = h.present;
}

mark-IsOpen :
    (o : Orchestrator) (plan_id step_id : String) (output : Dict Value)
    → IsOpen o
    → IsOpen (mark_step_complete o plan_id step_id output).0
unfolding mark_step_complete
mark-IsOpen o plan_id step_id output h = elim (Option-cases (lookup plan_id o.plans)) [
  | inl e ↦ rw (e, mark_step_complete) h
  | inr (plan, e) ↦
      rw (e, mark_step_complete)
        (put_steps-IsOpen o plan_id plan (complete_step step_id output plan.steps) e h)
]

step-IsOpen :
    (o : Orchestrator) (op : Op)
    → IsOpen o
    → (o' : Orchestrator) × (step o op ≡ some o') × IsOpen o'
unfolding step update_context
step-IsOpen o (creates ids plan_id k task strategy participants now) h =
    (_, refl, create_plan-IsOpen ids o plan_id k task strategy participants now h)
step-IsOpen o (updates k key value) h =
    write_context-IsOpen o k key value (lookup k o.contexts) refl h
step-IsOpen o (marks plan_id step_id output) h = (_, refl, mark-IsOpen o plan_id step_id output h)
step-IsOpen o (cleans max_age now) h =
    (_, refl, subst IsOpen (sym (cleanup-same o max_age now h)) h)

run_ops-IsOpen :
    (o : Orchestrator) (ops : List Op)
    → IsOpen o
    → (o' : Orchestrator) × (run_ops o ops ≡ some o') × IsOpen o'
unfolding run_ops
run_ops-IsOpen o [] h = (o, refl, h)
run_ops-IsOpen o (op ∷ ops) h =
    let (o', e, h') = step-IsOpen o op h in
    let (o'', f, h'') = run_ops-IsOpen o' ops h' in (o'', rw (e, run_ops) f, h'')

-- Whatever methods are called on a new orchestrator, in whatever order and with whatever arguments,
-- none of them panics, and a cleanup of the state that they reach changes nothing, however old its
-- plans are and even if all their steps are complete, since no method ends a plan.
pub cleanup_never_cleans :
    (ops : List Op) (max_age now : ℕ)
    → (o : Orchestrator) × (run_ops new_orchestrator ops ≡ some o) × (cleanup o max_age now ≡ o)
cleanup_never_cleans ops max_age now =
    let (o, e, h) =
      run_ops-IsOpen new_orchestrator ops (record { unfinished = tt; present = tt }) in
    (o, e, cleanup-same o max_age now h)
