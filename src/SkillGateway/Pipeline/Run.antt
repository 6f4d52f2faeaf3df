-- ===== src/SkillGateway/Pipeline/Run.antt =====
-- pipeline.go: the loop over the top-level steps.
use claw_hermes_ai_go.Base.{
  ℕ, suc, ◌+◌, ◌≡◌, refl, ◌∙◌, sym, ap, ◌⊎◌, inl, inr, not, Option, none, some, List, [], ◌∷◌, ◌++◌,
  subst, String, arith, str_eq, if◌then◌else◌, Option-cases, length,
}
use claw_hermes_ai_go.Base.Dict.{insert}
use claw_hermes_ai_go.SkillGateway.Types.{Value, SkillError, Result, SkillRequest, SkillResponse}
use claw_hermes_ai_go.SkillGateway.Pipeline.History.{
  History, context_of, prev_of, Sees, history-Sees,
}
use claw_hermes_ai_go.SkillGateway.Pipeline.{
  Step, name_of, StepContext, StepResult, PipelineError, Pipeline, Ran, execute_step, run_steps,
  execute, output_key,
}

-- The context and the previous name with which the loop goes on behind a step.
unfoldable pub context_after : Step → Value → StepContext → StepContext
context_after s v ctx =
    if not (str_eq (name_of s) "") then insert (output_key (name_of s)) v ctx else ctx

unfoldable pub prev_after : Step → String → String
prev_after s prev = if not (str_eq (name_of s) "") then name_of s else prev

module _ (atomic : List ℕ → SkillRequest → Result SkillResponse) (trace_id : String) where
  abbrev pub ran : ℕ → Step → StepContext → String → Ran
  ran i s ctx prev = execute_step atomic trace_id (i ∷ []) s ctx prev

  pub run_steps-fails :
      (i : ℕ) (s : Step) (rest : List Step) (ctx : StepContext) (prev : String) (e : SkillError)
      → (ran i s ctx prev).1 ≡ some e
      → run_steps atomic trace_id i (s ∷ rest) ctx prev ≡ (
        (ran i s ctx prev).0 ∷ [],
        some (record { skill_error = e; failed_step = name_of s; step_index = i }),
      )
  unfolding run_steps
  run_steps-fails i s rest ctx prev e h = rw (h, run_steps) refl

  pub run_steps-goes_on :
      (i : ℕ) (s : Step) (rest : List Step) (ctx : StepContext) (prev : String)
      → (ran i s ctx prev).1 ≡ none
      → let later =
          run_steps atomic trace_id
            (i + 1)
            rest
            (context_after s (ran i s ctx prev).0.output ctx)
            (prev_after s prev) in
        run_steps atomic trace_id i (s ∷ rest) ctx prev ≡ ((ran i s ctx prev).0 ∷ later.0, later.1)
  unfolding run_steps context_after prev_after
  run_steps-goes_on i s rest ctx prev h = rw (h, run_steps) refl

  -- Steps that have run without an error from a number on, behind a history, with their results and the
  -- history that they leave.
  pub data Passed : ℕ → History → List Step → List StepResult → History → Type 0 where
    none_left : {i : ℕ} {h : History} → Passed i h [] [] h
    passed :
        {i : ℕ} {h h' : History} {s : Step} {rest : List Step} {srs : List StepResult}
        (ctx : StepContext) (prev : String) (sr : StepResult)
        → Sees h ctx prev
        → execute_step atomic trace_id (i ∷ []) s ctx prev ≡ (sr, none)
        → Passed (i + 1) ((name_of s, sr.output) ∷ h) rest srs h'
        → Passed i h (s ∷ rest) (sr ∷ srs) h'

  -- A run that stops at a step that fails, behind steps that have passed.
  pub record StopsAt (i : ℕ) (h : History) (steps : List Step)
      (r : List StepResult × Option PipelineError) : Type 0 where
    pub before : List Step
    pub failed : Step
    pub after : List Step
    pub splits : steps ≡ before ++ (failed ∷ after)
    pub results : List StepResult
    pub left : History
    pub passed_before : Passed i h before results left
    pub ctx : StepContext
    pub prev : String
    pub sees : Sees left ctx prev
    pub result : StepResult
    pub cause : SkillError
    pub fails :
        execute_step atomic trace_id ((i + length before) ∷ []) failed ctx prev
        ≡ (result, some cause)
    pub all_results : r.0 ≡ results ++ result ∷ []
    pub error :
        r.1
        ≡ some (record {
          skill_error = cause;
          failed_step = name_of failed;
          step_index = i + length before;
        })
    pub same :
        (other : List Step)
        → run_steps atomic trace_id i (before ++ (failed ∷ other)) (context_of h) (prev_of h) ≡ r

  -- All steps have run without an error, or the run stopped at the first step that failed.
  abbrev pub Shape : ℕ → History → List Step → List StepResult × Option PipelineError → Type 0
  Shape i h steps r =
      ((r.1 ≡ none) × ((h' : History) × Passed i h steps r.0 h')) ⊎ StopsAt i h steps r

  stops_here :
      (i : ℕ) (h : History) (s : Step) (rest : List Step) (e : SkillError)
      → (ran i s (context_of h) (prev_of h)).1 ≡ some e
      → StopsAt i h (s ∷ rest) (run_steps atomic trace_id i (s ∷ rest) (context_of h) (prev_of h))
  stops_here i h s rest e fails =
      let here : i + 0 ≡ i = omega arith in
      let this = run_steps-fails i s rest (context_of h) (prev_of h) e fails in
      record {
        before = [];
        failed = s;
        after = rest;
        splits = refl;
        results = [];
        left = h;
        passed_before = none_left;
        ctx = context_of h;
        prev = prev_of h;
        sees = history-Sees h;
        result = (ran i s (context_of h) (prev_of h)).0;
        cause = e;
        fails = rw here (ap (λ x. ((ran i s (context_of h) (prev_of h)).0, x)) fails);
        all_results = ap (λ r. r.0) this;
        error = rw here (ap (λ r. r.1) this);
        same = λ other. run_steps-fails i s other (context_of h) (prev_of h) e fails ∙ sym this;
      }

  goes_on :
      (i : ℕ) (h : History) (s : Step) (rest : List Step)
      → (ran i s (context_of h) (prev_of h)).1 ≡ none
      → let sr = (ran i s (context_of h) (prev_of h)).0 in
        let h' = (name_of s, sr.output) ∷ h in
        let later = run_steps atomic trace_id (i + 1) rest (context_of h') (prev_of h') in
        run_steps atomic trace_id i (s ∷ rest) (context_of h) (prev_of h) ≡ (sr ∷ later.0, later.1)
  unfolding context_of prev_of context_after prev_after
  goes_on i h s rest fine = run_steps-goes_on i s rest (context_of h) (prev_of h) fine

  stops_later :
      (i : ℕ) (h : History) (s : Step) (rest : List Step)
      → (ran i s (context_of h) (prev_of h)).1 ≡ none
      → let sr = (ran i s (context_of h) (prev_of h)).0 in
        let h' = (name_of s, sr.output) ∷ h in
        StopsAt
          (i + 1)
          h'
          rest
          (run_steps atomic trace_id (i + 1) rest (context_of h') (prev_of h'))
        → StopsAt i h (s ∷ rest) (run_steps atomic trace_id i (s ∷ rest) (context_of h) (prev_of h))
  stops_later i h s rest fine x =
      let sr = (ran i s (context_of h) (prev_of h)).0 in
      let on = goes_on i h s rest fine in
      let shift : i + 1 + length x.before ≡ i + suc (length x.before) = omega arith in
      record {
        before = s ∷ x.before;
        failed = x.failed;
        after = x.after;
        splits = ap (λ l. s ∷ l) x.splits;
        results = sr ∷ x.results;
        left = x.left;
        passed_before =
            passed (context_of h) (prev_of h) sr (history-Sees h) (ap (λ e. (sr, e)) fine)
              x.passed_before;
        ctx = x.ctx;
        prev = x.prev;
        sees = x.sees;
        result = x.result;
        cause = x.cause;
        fails =
            subst
              (λ n.
                execute_step atomic trace_id (n ∷ []) x.failed x.ctx x.prev
                ≡ (x.result, some x.cause))
              shift x.fails;
        all_results = ap (λ r. r.0) on ∙ ap (λ rs. sr ∷ rs) x.all_results;
        error =
            ap (λ r. r.1) on
            ∙ x.error
            ∙ ap
                (λ n. some (record {
                  skill_error = x.cause;
                  failed_step = name_of x.failed;
                  step_index = n;
                }))
                shift;
        same = λ other.
            goes_on i h s (x.before ++ (x.failed ∷ other)) fine
            ∙ ap (λ (r : List StepResult × Option PipelineError). (sr ∷ r.0, r.1)) (x.same other)
            ∙ sym on;
      }

  run_steps-Shape :
      (i : ℕ) (h : History) (steps : List Step)
      → Shape i h steps (run_steps atomic trace_id i steps (context_of h) (prev_of h))
  run_steps-Shape i h [] = inl (unfold run_steps in (refl, (h, none_left)))
  run_steps-Shape i h (s ∷ rest) = elim (Option-cases (ran i s (context_of h) (prev_of h)).1) [
    | inr (e, fails) ↦ inr (stops_here i h s rest e fails)
    | inl fine ↦
        let sr = (ran i s (context_of h) (prev_of h)).0 in
        let on = goes_on i h s rest fine in
        elim (run_steps-Shape (i + 1) ((name_of s, sr.output) ∷ h) rest) [
          | inr x ↦ inr (stops_later i h s rest fine x)
          | inl (done, (h', all)) ↦ inl (
            ap (λ r. r.1) on ∙ done,
            (
              h',
              subst (λ srs. Passed i h (s ∷ rest) srs h') (sym (ap (λ r. r.0) on))
                  (passed (context_of h) (prev_of h) sr (history-Sees h) (ap (λ e. (sr, e)) fine)
                    all),
            ),
          )
        ]
  ]

  -- A pipeline either runs every step without an error and reports their results in order, or it stops
  -- at the first step that fails, behind steps that have run without an error: then the error is
  -- that step's, with its name and index, the results are those of the steps up to it, and neither
  -- depends on the steps behind it. Each of these top-level steps runs in a context in which "$steps.<name>.output" stands
  -- for the latest output of the step of that name, and "$prev.output" for the latest output that has
  -- a name.
  pub execute-Shape :
      (p : Pipeline)
      → ((execute atomic trace_id p).0.pipeline_id ≡ p.id)
        × ((execute atomic trace_id p).0.trace_id ≡ trace_id)
        × Shape 0 [] p.steps ((execute atomic trace_id p).0.steps, (execute atomic trace_id p).1)
  unfolding execute context_of prev_of
  execute-Shape p = (refl, refl, run_steps-Shape 0 [] p.steps)
