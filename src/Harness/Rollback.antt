-- ===== src/Harness/Rollback.antt =====
-- harness.go: the outcomes of a start, with what its rollback stops.
use claw_hermes_ai_go.Base.{
  ◌≡◌, refl, sym, ap, subst, ◌∙◌, ◌≢◌, ◌⊎◌, inl, inr, true, false, Option, none, some, List, [],
  ◌∷◌, ◌++◌, map, String, str_ne, str_eq, eq_iff, eq_refl, All, Bool-cases,
}
use mathlib.Core.List.{Perm, Mem, not-mem-nil, mem-cons_self, mem-append_right, mem_of_ne_of_mem}
use mathlib.Core.List.Perm
use claw_hermes_ai_go.Base.Dict.{lookup}
use claw_hermes_ai_go.SkillGateway.Types.{GoError}
use claw_hermes_ai_go.Harness.Components.{Component}
use claw_hermes_ai_go.Harness.{
  Harness, Did, starts, stops, HarnessError, start_failed, start_of, start_loop,
  stop_started_components, mark_started, start,
}
use claw_hermes_ai_go.Harness.Cycle.{StartsWell, FailsAt, start_loop-outcomes, start-idle}

-- Where a name stands in a list for the first time.
FirstAt : String → List String → Type 0
FirstAt name names =
    (before after : List String) × (names ≡ before ++ name ∷ after)
    × All (λ (n : String). n ≢ name) before

first_at :
    (name : String) (names : List String)
    → FirstAt name names ⊎ All (λ (n : String). n ≢ name) names
unfolding FirstAt
first_at name [] = inr tt
first_at name (n ∷ names) = elim (Bool-cases (str_eq n name)) [
  | inl same ↦ inl ([], names, ap (λ m. m ∷ names) ((eq_iff n name).0 same), tt)
  | inr other ↦
      let apart : n ≢ name = λ e. cc ((eq_iff n name).1 e, other) in
      elim (first_at name names) [
        | inl (before, after, parts, none_before) ↦
            inl (n ∷ before, after, ap (λ ns. n ∷ ns) parts, (apart, none_before))
        | inr nowhere ↦ inr (apart, nowhere)
      ]
]

not_there :
    (name : String) (names : List String)
    → All (λ (n : String). n ≢ name) names
    → ¬ (Mem name names)
not_there name [] h m = not-mem-nil m
not_there name (n ∷ names) h m = not_there name names h.1 (mem_of_ne_of_mem (λ e. h.0 (sym e)) m)

stops_until :
    (before after : List String) (name : String)
    → All (λ (n : String). n ≢ name) before
    → stop_started_components (before ++ name ∷ after) name ≡ map stops before
unfolding stop_started_components
stops_until [] after name apart = rw (eq_refl name) refl
stops_until (n ∷ before) after name apart =
    rw (str_ne n name apart.0) (ap (λ xs. stops n ∷ xs) (stops_until before after name apart.1))

-- The names of the registered components.
abbrev pub names_of : Harness → List String
names_of h = map (λ (entry : String × Component). entry.0) h.components

-- A start that fails at a name behind those that start well, and stops those that the rollback meets
-- before that name.
pub record RollsBack (h : Harness) (order rollback_order : List String)
    (r : Harness × List Did × Option HarnessError) : Type 0 where
  pub before : List String
  pub name : String
  pub after : List String
  pub undone : List String
  pub spared : List String
  pub cause : GoError
  pub splits : order ≡ before ++ name ∷ after
  pub well : All (StartsWell h.components) before
  pub fails : start_of (lookup name h.components) ≡ some cause
  pub rolls_back : rollback_order ≡ undone ++ name ∷ spared
  pub up_to_it : All (λ (n : String). n ≢ name) undone
  pub result :
      r ≡ (h, map starts before ++ starts name ∷ map stops undone, some (start_failed name cause))

FailsAt-RollsBack :
    (h : Harness) (order rb : List String) (r : List Did × Option HarnessError)
    → Perm rb order
    → FailsAt h.components order rb r
    → RollsBack h order rb (mark_started h r)
unfolding mark_started FirstAt
FailsAt-RollsBack h order rb (did, error) perm f = elim (first_at f.name rb) [
  | inr nowhere ↦
      let there : Mem f.name order =
        subst (Mem f.name) (sym f.splits) (mem-append_right f.before mem-cons_self) in
      absurd (not_there f.name rb nowhere ((Perm.mem_iff perm).1 there))
  | inl (undone, spared, parts, none_before) ↦
      let stopped : stop_started_components rb f.name ≡ map stops undone =
        subst (λ ns. stop_started_components ns f.name ≡ map stops undone) (sym parts)
          (stops_until undone spared f.name none_before) in
      record {
        before = f.before;
        name = f.name;
        after = f.after;
        undone = undone;
        spared = spared;
        cause = f.cause;
        splits = f.splits;
        well = f.well;
        fails = f.fails;
        rolls_back = parts;
        up_to_it = none_before;
        result =
            ap (λ e. mark_started h (did, e)) f.error
            ∙ ap (λ d. (h, d, some (start_failed f.name f.cause)))
                (f.did ∙ ap (λ xs. map starts f.before ++ starts f.name ∷ xs) stopped);
      }
]

-- Where both orders are those of the registered components, a start of a harness that is not started
-- does one of two things. Either it starts every component, in its order, and each starts without an
-- error: then the harness is started. Or it starts those that start well up to the first that fails,
-- and then asks exactly those to stop that the rollback's order has before the failed one, whether they
-- have been started or not: then it returns the error with that one's name, and leaves the harness as
-- it was.
pub start_outcomes :
    (h : Harness) (order rollback_order : List String)
    → h.started ≡ false
    → Perm order (names_of h)
    → Perm rollback_order (names_of h)
    → ((start h order rollback_order ≡ (record h { started = true }, map starts order, none))
        × All (StartsWell h.components) order)
      ⊎ RollsBack h order rollback_order (start h order rollback_order)
unfolding mark_started
start_outcomes h order rb idle all back = elim (start_loop-outcomes h.components rb order) [
  | inl (same, wells) ↦ inl (start-idle h order rb idle ∙ ap (mark_started h) same, wells)
  | inr f ↦ inr (
      subst (RollsBack h order rb) (sym (start-idle h order rb idle)) (
        FailsAt-RollsBack h order rb (start_loop h.components rb order)
          (Perm.trans back (Perm.symm all)) f))
]
