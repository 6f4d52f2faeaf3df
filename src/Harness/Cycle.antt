-- ===== src/Harness/Cycle.antt =====
-- harness.go: what a start and a whole run ask of the components.
use claw_hermes_ai_go.Base.{
  ◌≡◌, refl, sym, ap, subst, ◌∙◌, ◌⊎◌, inl, inr, true, false, Option, none, some, List, [], ◌∷◌,
  ◌++◌, map, String, All, Option-cases,
}
use mathlib.Core.List.{Perm, perm_append_comm}
use mathlib.Core.List.Perm
use claw_hermes_ai_go.Base.Dict.{Dict, lookup}
use claw_hermes_ai_go.SkillGateway.Types.{GoError}
use claw_hermes_ai_go.Harness.Components.{Component}
use claw_hermes_ai_go.Harness.{
  Harness, Did, starts, stops, HarnessError, start_failed, start_of, start_loop,
  stop_started_components, mark_started, start, stop_backwards, stop, run,
}

-- The component of a name starts without an error.
abbrev pub StartsWell : Dict Component → String → Type 0
StartsWell components name = start_of (lookup name components) ≡ none

-- A start fails at a name behind those that start well, and the rollback stops those that it meets
-- before it.
pub record FailsAt (components : Dict Component) (order rollback_order : List String)
    (r : List Did × Option HarnessError) : Type 0 where
  pub before : List String
  pub name : String
  pub after : List String
  pub cause : GoError
  pub splits : order ≡ before ++ name ∷ after
  pub well : All (StartsWell components) before
  pub fails : start_of (lookup name components) ≡ some cause
  pub did : r.0 ≡ map starts before ++ starts name ∷ stop_started_components rollback_order name
  pub error : r.1 ≡ some (start_failed name cause)

FailsAt-later :
    (components : Dict Component) (name : String) (order rb : List String)
    (r : List Did × Option HarnessError)
    → StartsWell components name
    → FailsAt components order rb r
    → FailsAt components (name ∷ order) rb (starts name ∷ r.0, r.1)
FailsAt-later components name order rb r well f = record {
  before = name ∷ f.before;
  name = f.name;
  after = f.after;
  cause = f.cause;
  splits = ap (λ xs. name ∷ xs) f.splits;
  well = (well, f.well);
  fails = f.fails;
  did = ap (λ xs. starts name ∷ xs) f.did;
  error = f.error;
}

pub start_loop-outcomes :
    (components : Dict Component) (rb order : List String)
    → ((start_loop components rb order ≡ (map starts order, none))
        × All (StartsWell components) order)
      ⊎ FailsAt components order rb (start_loop components rb order)
unfolding start_loop
start_loop-outcomes components rb [] = inl (refl, tt)
start_loop-outcomes components rb (name ∷ order) =
    elim (Option-cases (start_of (lookup name components))) [
      | inr (e, fails) ↦ inr (
          rw (fails, start_loop)
            (record {
              before = [];
              name = name;
              after = order;
              cause = e;
              splits = refl;
              well = tt;
              fails = fails;
              did = refl;
              error = refl;
            }))
      | inl well ↦ elim (start_loop-outcomes components rb order) [
        | inl (all, wells) ↦ inl (
          rw (well, start_loop)
              (ap (λ (r : List Did × Option HarnessError). (starts name ∷ r.0, r.1)) all),
          (well, wells),
        )
        | inr f ↦ inr (
            rw (well, start_loop)
              (FailsAt-later components name order rb (start_loop components rb order) well f))
      ]
    ]

pub start-idle :
    (h : Harness) (order rb : List String)
    → h.started ≡ false
    → start h order rb ≡ mark_started h (start_loop h.components rb order)
unfolding start
start-idle h order rb idle = simp idle

-- A start, by its loop.
start_either :
    (h : Harness) (order rollback_order : List String)
    → h.started ≡ false
    → ((start h order rollback_order ≡ (record h { started = true }, map starts order, none))
        × All (StartsWell h.components) order)
      ⊎ ((did : List Did) × (e : HarnessError) × (start h order rollback_order ≡ (h, did, some e))
          × FailsAt h.components order rollback_order (did, some e))
unfolding mark_started
start_either h order rb idle = elim (start_loop-outcomes h.components rb order) [
  | inl (all, wells) ↦ inl (start-idle h order rb idle ∙ ap (mark_started h) all, wells)
  | inr f ↦
      let parts : start_loop h.components rb order
          ≡ ((start_loop h.components rb order).0, some (start_failed f.name f.cause)) =
        ap (λ e. ((start_loop h.components rb order).0, e)) f.error in
      inr (
        (start_loop h.components rb order).0,
        start_failed f.name f.cause,
        start-idle h order rb idle ∙ ap (mark_started h) parts,
        subst (FailsAt h.components order rb) parts f,
      )
]

stop_backwards-Perm : (order : List String) → Perm (stop_backwards order) (map stops order)
unfolding stop_backwards
stop_backwards-Perm [] = Perm.refl []
stop_backwards-Perm (n ∷ order) =
    Perm.trans (perm_append_comm (stop_backwards order) (stops n ∷ []))
      (Perm.cons (stops n) (stop_backwards-Perm order))

-- A run of a harness that is not started either fails to start, and then leaves it as it was; or it
-- starts every component in the order in which it meets them, stops each of them once when the context
-- is done, in whatever order the stop meets them, leaves the harness as it was, and returns the
-- context's error.
pub run_cycles :
    (h : Harness) (order rollback_order stop_order : List String) (done : GoError)
    → h.started ≡ false
    → Perm stop_order order
    → ((e : HarnessError) × (did : List Did) × (run h order rollback_order stop_order done
          ≡ (h, did, some e, none)))
      ⊎ ((undid : List Did) × Perm undid (map stops order)
          × (run h order rollback_order stop_order done
              ≡ (h, map starts order ++ undid, none, some done)))
unfolding run stop
run_cycles h order rb stop_order done idle perm = elim (start_either h order rb idle) [
  | inr (did, e, same, f) ↦ inl (e, did, rw (same, run, same) refl)
  | inl (all, wells) ↦ inr (
    stop_backwards stop_order,
    Perm.trans (stop_backwards-Perm stop_order) (Perm.map stops perm),
    rw (all, run, all)
        (ap
          (λ b. (
            record h { started = b },
            map starts order ++ stop_backwards stop_order,
            none,
            some done,
          ))
          (sym idle)),
  )
]
