-- ===== src/SkillGateway/Pipeline/References.antt =====
-- pipeline.go: what a step's input refers to by "$steps.<name>.output" and "$prev.output".
use claw_hermes_ai_go.Base.{
  ℕ, suc, ◌+◌, ◌≡◌, refl, ◌∙◌, sym, ap, inl, inr, none, List, [], ◌∷◌, ◌++◌, String, arith, length,
  Option-cases,
}
use claw_hermes_ai_go.SkillGateway.Types.{Value, text, Result, SkillRequest, SkillResponse}
use claw_hermes_ai_go.SkillGateway.Pipeline.{
  Step, step, sequential, no_step, no_steps, name_of, StepContext, StepResult, run_steps,
  output_key, resolve_input, or_value, request, step_result, execute_step, execute_atomic,
}
use claw_hermes_ai_go.SkillGateway.Pipeline.History.{
  History, latest, latest_named, context_of, prev_of, history-Sees,
}
use claw_hermes_ai_go.SkillGateway.Pipeline.Run.{
  ran, run_steps-fails, run_steps-goes_on, context_after, prev_after,
}

-- The names of some steps with the outputs of their results, put before a history, the latest first.
pub history_after : History → List Step → List StepResult → History
history_after h [] rs = h
history_after h (s ∷ ss) [] = h
history_after h (s ∷ ss) (r ∷ rs) = history_after ((name_of s, r.output) ∷ h) ss rs

-- A step of the builder that calls a skill.
abbrev pub sequential_step : String → String → Value → Step
sequential_step name skill_id input =
    step name sequential skill_id input none no_step no_step no_steps

module _ (atomic : List ℕ → SkillRequest → Result SkillResponse) (trace_id : String) where
  run_steps-nil :
      (i : ℕ) (ctx : StepContext) (prev : String)
      → run_steps atomic trace_id i [] ctx prev ≡ ([], none)
  unfolding run_steps
  run_steps-nil i ctx prev = refl

  -- If the first steps all run, the rest runs behind them, from the context of their history.
  run_steps-append_from :
      (i : ℕ) (h : History) (before rest : List Step)
      → let first = run_steps atomic trace_id i before (context_of h) (prev_of h) in
        let h' = history_after h before first.0 in
        let later =
          run_steps atomic trace_id (i + length before) rest (context_of h') (prev_of h') in
        first.1 ≡ none
        → run_steps atomic trace_id i (before ++ rest) (context_of h) (prev_of h)
          ≡ (first.0 ++ later.0, later.1)
  unfolding history_after context_of prev_of context_after prev_after
  run_steps-append_from i h [] rest e =
      let here : i + 0 ≡ i = omega arith in
      rw (here, run_steps-nil i (context_of h) (prev_of h)) refl
  run_steps-append_from i h (s ∷ before) rest e =
      elim (Option-cases (ran atomic trace_id i s (context_of h) (prev_of h)).1) [
        | inr (x, failed) ↦
            cc (ap (λ r. r.1) (run_steps-fails atomic trace_id i s before _ _ x failed))
        | inl fine ↦
            let r = (ran atomic trace_id i s (context_of h) (prev_of h)).0 in
            let on = run_steps-goes_on atomic trace_id i s before (context_of h) (prev_of h) fine in
            let shift : i + suc (length before) ≡ i + 1 + length before = omega arith in
            rw (on, shift)
              (run_steps-goes_on atomic trace_id i s (before ++ rest) (context_of h) (prev_of h)
                  fine
                ∙ ap (λ x. (r ∷ x.0, x.1))
                    (run_steps-append_from (i + 1) ((name_of s, r.output) ∷ h) before rest
                      (sym (ap (λ r. r.1) on) ∙ e)))
      ]

  -- The same from the start of a pipeline.
  run_steps-append :
      (before rest : List Step)
      → let first = run_steps atomic trace_id 0 before [] "" in
        let h = history_after [] before first.0 in
        let later = run_steps atomic trace_id (length before) rest (context_of h) (prev_of h) in
        first.1 ≡ none
        → run_steps atomic trace_id 0 (before ++ rest) [] "" ≡ (first.0 ++ later.0, later.1)
  unfolding context_of prev_of
  run_steps-append before rest e =
      let start : 0 + length before ≡ length before = omega arith in
      rw start at (run_steps-append_from 0 [] before rest e)

  run_steps-first :
      (i : ℕ) (s : Step) (rest : List Step) (ctx : StepContext) (prev : String)
      → (later : List StepResult) × ((run_steps atomic trace_id i (s ∷ rest) ctx prev).0
          ≡ (ran atomic trace_id i s ctx prev).0 ∷ later)
  run_steps-first i s rest ctx prev = elim (Option-cases (ran atomic trace_id i s ctx prev).1) [
    | inr (e, fails) ↦
        ([], ap (λ r. r.0) (run_steps-fails atomic trace_id i s rest ctx prev e fails))
    | inl fine ↦ (_, ap (λ r. r.0) (run_steps-goes_on atomic trace_id i s rest ctx prev fine))
  ]

  -- The results of a run whose step behind `before` calls a skill with a given input.
  abbrev pub CalledWith :
      List Step → String → String → Value → List StepResult → List StepResult → Type 0
  CalledWith before name skill_id v first rs =
      (later : List StepResult) × (rs
        ≡ first
          ++ ((step_result atomic trace_id name
                (atomic (length before ∷ []) (request atomic trace_id skill_id v))).0
              ∷ later))

  called :
      (before rest : List Step) (name skill_id : String) (input v : Value)
      → let first = run_steps atomic trace_id 0 before [] "" in
        let h = history_after [] before first.0 in
        first.1 ≡ none
        → resolve_input input (context_of h) (prev_of h) ≡ v
        → CalledWith before name skill_id v first.0
            (run_steps atomic trace_id 0
              (before ++ sequential_step name skill_id input ∷ rest)
              []
              "").0
  unfolding execute_step execute_atomic
  called before rest name skill_id input v fine resolved =
      let s = sequential_step name skill_id input in
      let first = run_steps atomic trace_id 0 before [] "" in
      let h = history_after [] before first.0 in
      let (later, parts) = run_steps-first (length before) s rest (context_of h) (prev_of h) in
      (
        later,
        ap (λ r. r.0) (run_steps-append before (s ∷ rest) fine)
            ∙ ap (λ rs. first.0 ++ rs) parts
            ∙ ap
                (λ u.
                  first.0
                  ++ ((step_result atomic trace_id name
                        (atomic (length before ∷ []) (request atomic trace_id skill_id u))).0
                      ∷ later))
                resolved,
      )

  -- Behind steps that run without an error, a sequential step reports the engine's answer, at its place,
  -- to a request for its skill, and this result stands behind theirs, whatever follows the step. If its
  -- input is "$steps.<name>.output", the request carries the latest output among theirs of a step of
  -- that name, or "" if none has it or the name is empty. If it is "$prev.output", the request carries
  -- the latest output among theirs of a step that has a name, or the text "$prev.output" if none has
  -- one.
  pub references_resolve :
      (before rest : List Step) (name skill_id k : String)
      → (run_steps atomic trace_id 0 before [] "").1 ≡ none
      → let first = (run_steps atomic trace_id 0 before [] "").0 in
        let h = history_after [] before first in
        CalledWith before name skill_id
          (or_value (latest k h) (text ""))
          first
          (run_steps atomic trace_id 0
            (before ++ sequential_step name skill_id (text (output_key k)) ∷ rest)
            []
            "").0
        × CalledWith before name skill_id
            (or_value (latest_named h) (text "$prev.output"))
            first
            (run_steps atomic trace_id 0
              (before ++ sequential_step name skill_id (text "$prev.output") ∷ rest)
              []
              "").0
  references_resolve before rest name skill_id k fine =
      let h = history_after [] before (run_steps atomic trace_id 0 before [] "").0 in
      (
        called before rest name skill_id (text (output_key k)) _ fine ((history-Sees h).by_name k),
        called before rest name skill_id (text "$prev.output") _ fine (history-Sees h).by_prev,
      )
