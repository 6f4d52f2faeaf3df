-- ===== src/SkillGateway/Pipeline/Branches.antt =====
-- pipeline.go: what a parallel step makes of the results of its branches.
use claw_hermes_ai_go.Base.{
  ℕ, suc, ◌≡◌, refl, ap, ◌⊎◌, inl, inr, true, Option, none, some, List, [], ◌∷◌, ◌++◌, String,
  str_eq, if◌then◌else◌, All,
}
use claw_hermes_ai_go.Base.Dict.{is_some}
use claw_hermes_ai_go.SkillGateway.Types.{Value}
use claw_hermes_ai_go.SkillGateway.Pipeline.{Steps, no_steps, next, Ran, first_error}

-- The output of the last branch of a name.
pub last_output : String → List Ran → Option Value
last_output k [] = none
last_output k ((sr, e) ∷ rs) = elim (last_output k rs) [
  | some v ↦ some v
  | none ↦ if str_eq sr.name k then some sr.output else none
]

or_else : Option Value → Option Value → Option Value
or_else none o = o
or_else (some v) o = some v

-- The first error among the branches, by their order in the step.
pub first_error_cases :
    (rs : List Ran)
    → ((first_error rs ≡ none) × All (λ (r : Ran). r.1 ≡ none) rs)
      ⊎ ((before : List Ran) × (r : Ran) × (after : List Ran) × (rs ≡ before ++ (r ∷ after))
          × All (λ (r : Ran). r.1 ≡ none) before
          × (first_error rs ≡ r.1)
          × (is_some r.1 ≡ true))
unfolding first_error
first_error_cases [] = inl (refl, tt)
first_error_cases ((sr, some e) ∷ rs) = inr ([], (sr, some e), rs, refl, tt, refl, refl)
first_error_cases ((sr, none) ∷ rs) = elim (first_error_cases rs) [
  | inl (e, all) ↦ inl (e, (refl, all))
  | inr (before, r, after, parts, all, e, is) ↦
      inr ((sr, none) ∷ before, r, after, ap (λ l. (sr, none) ∷ l) parts, (refl, all), e, is)
]

pub size : Steps → ℕ
size no_steps = 0
size (next s rest) = suc (size rest)
