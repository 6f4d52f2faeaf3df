-- ===== src/Skill/Semaphore/Tests.antt =====
-- The semaphore at a concrete schedule of one global slot and two calls.
use claw_hermes_ai_go.Base.{ℕ, ◌≤◌, ◌≡◌, refl, true, [], ◌∷◌, String, arith}
use claw_hermes_ai_go.Base.Int.{pos, rounds}
use claw_hermes_ai_go.Base.Dict.{lookup, insert}
use claw_hermes_ai_go.Skill.Semaphore.{
  slots, Caps, holding, call_at, State, state, is_limited, try_tenant, still_leaving, free_tenant,
  takes, tries, leaves, frees, Reached, fresh, then_step,
}
use claw_hermes_ai_go.Skill.Semaphore.Slots.{total}
use claw_hermes_ai_go.Skill.Semaphore.Progress.{
  executing, executing_for, limits_hold, no_slot_leaks, work, Advance, calls-Advance,
}

abbrev caps : Caps
caps = record { global_cap = 1; per_tenant = pos 1 }

abbrev one_held : State
one_held = state (call_at "a" holding ∷ []) 1 (("a", 1) ∷ [])

held : Reached caps one_held
unfolding try_tenant lookup insert
held = then_step (then_step fresh (takes "a" (omega arith))) (tries [] [] "a")

ended : Reached caps (state [] 0 (("a", 0) ∷ []))
unfolding still_leaving free_tenant lookup insert
ended = then_step (then_step held (leaves [] [] "a")) (frees [] [] "a" refl)

limits_hold_example :
    (total executing (call_at "a" holding ∷ []) ≤ 1)
    × ((t : String)
        → is_limited caps t ≡ true
        → total (executing_for t) (call_at "a" holding ∷ []) ≤ rounds (pos 1))
limits_hold_example = limits_hold caps (call_at "a" holding ∷ []) 1 (("a", 1) ∷ []) held

no_slot_leaks_example :
    (◌≡◌ {A = ℕ} 0 0) × ((t : String) → is_limited caps t ≡ true → slots (("a", 0) ∷ []) t ≡ 0)
no_slot_leaks_example = no_slot_leaks caps 0 (("a", 0) ∷ []) ended

calls-Advance_example :
    (work (call_at "a" holding ∷ []) ≤ 3)
    × Advance caps [] [] (call_at "a" holding) 1 (("a", 1) ∷ [])
calls-Advance_example = calls-Advance caps [] [] (call_at "a" holding) 1 (("a", 1) ∷ []) held
