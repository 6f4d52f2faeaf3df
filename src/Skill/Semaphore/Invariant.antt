-- ===== src/Skill/Semaphore/Invariant.antt =====
-- semaphore.go: what each step does to the slots that are taken.
use claw_hermes_ai_go.Base.{
  ℕ, zero, suc, ◌+◌, ◌<◌, ◌≤◌, ◌≡◌, refl, sym, ap, ◌∙◌, some_inj, eq_refl, ◌-◌, true, Option, none,
  some, List, [], ◌∷◌, ◌++◌, String, arith, Bool-cases, subst, inl, inr,
}
use claw_hermes_ai_go.Base.Int.{rounds}
use claw_hermes_ai_go.Base.Dict.{Dict, lookup, insert}
use claw_hermes_ai_go.Skill.Semaphore.{
  Caps, admitted, refused, holding, leaving, Call, call_at, State, state, is_limited, slots,
  or_zero, try_tenant, still_leaving, take_out, free_tenant, Step, takes, turned_away, tries,
  gives_back, leaves, frees,
}
use claw_hermes_ai_go.Skill.Semaphore.Slots.{
  total, total-one, of_global, global_slot, of_tenant, tenant_slot, stray, stray_stage, Sound,
  sound, Balanced, Balanced-Sound,
}
use claw_hermes_ai_go.Skill.Semaphore.Tries.{
  tenant_moves, other_tenant, Tried-Balanced, try_tenant-Tried,
}

takes-Sound :
    (caps : Caps) (calls : List Call) (g : ℕ) (tenants : Dict ℕ) (t : String)
    → g < caps.global_cap
    → Sound caps (state calls g tenants)
    → Sound caps (state (call_at t admitted ∷ calls) (g + 1) tenants)
unfolding total of_global global_slot of_tenant tenant_slot stray stray_stage call_at
takes-Sound caps calls g tenants t lt (sound e le fits none_stray) =
    sound (omega arith) (omega arith) (λ k lim. let (a, b) = fits k lim in (ground arith, b))
      (omega arith)

refused-Balanced :
    (caps : Caps) (g : ℕ) (tenants : Dict ℕ) (t : String)
    → Balanced caps (call_at t refused) [] (suc g) g tenants tenants
unfolding total of_global global_slot of_tenant tenant_slot call_at
refused-Balanced caps g tenants t = record {
  fewer = omega arith;
  balance = omega arith;
  tenant_balance = λ k lim fit. (ground arith, fit);
  no_stray = refl;
}

holding-Balanced :
    (caps : Caps) (g : ℕ) (tenants : Dict ℕ) (t : String)
    → Balanced caps (call_at t holding) (still_leaving caps t) (suc g) g tenants tenants
unfolding still_leaving total of_global global_slot of_tenant tenant_slot stray stray_stage call_at
holding-Balanced caps g tenants t = elim (Bool-cases (is_limited caps t)) [
  | inl on ↦
      rw (on, still_leaving)
        (record {
          fewer = omega arith;
          balance = omega arith;
          tenant_balance = λ k lim fit. (ground arith, fit);
          no_stray = rw on (omega arith);
        })
  | inr off ↦
      rw (off, still_leaving)
        (record {
          fewer = omega arith;
          balance = omega arith;
          tenant_balance = λ k lim fit. (rw (other_tenant caps t k off lim) (omega arith), fit);
          no_stray = refl;
        })
]

pub free_tenant-slots :
    (tenants : Dict ℕ) (t : String)
    → 1 ≤ slots tenants t
    → free_tenant tenants t ≡ some (insert t (slots tenants t - 1) tenants)
unfolding free_tenant slots
free_tenant-slots tenants t le = by_lookup (lookup t tenants) le
  where
    by_lookup :
        (o : Option ℕ)
        → 1 ≤ or_zero o
        → take_out tenants t o ≡ some (insert t (or_zero o - 1) tenants)
    by_lookup none le = absurd (omega arith)
    by_lookup (some zero) le = absurd (omega arith)
    by_lookup (some (suc n)) le = ap (λ m. some (insert t m tenants)) (omega arith)

-- A call that waits for its tenant's channel finds an element in it.
pub waiting_slot :
    (caps : Caps) (g : ℕ) (tenants : Dict ℕ) (before after : List Call) (t : String)
    → Sound caps (state (before ++ call_at t leaving ∷ after) g tenants)
    → (is_limited caps t ≡ true)
      × (1 ≤ slots tenants t)
      × (slots tenants t ≤ rounds caps.per_tenant)
unfolding stray stray_stage of_tenant tenant_slot call_at
waiting_slot caps g tenants before after t (sound e le fits none_stray) =
    elim (Bool-cases (is_limited caps t)) [
      | inl on ↦
          let (same, fit) = fits t on in
          (
            on,
            ground (arith, total-one (of_tenant t) before (call_at t leaving) after, eq_refl t),
            fit,
          )
      | inr off ↦
          absurd (ground (arith, total-one (stray caps) before (call_at t leaving) after, off))
    ]

refused-none : (k t : String) → of_tenant k (call_at t refused) ≡ 0
unfolding of_tenant tenant_slot call_at
refused-none k t = ground arith

leaving-Balanced :
    (caps : Caps) (g : ℕ) (tenants : Dict ℕ) (t : String)
    → 1 ≤ slots tenants t
    → slots tenants t ≤ rounds caps.per_tenant
    → Balanced caps (call_at t leaving) [] g g tenants (insert t (slots tenants t - 1) tenants)
unfolding total of_global global_slot tenant_slot call_at
leaving-Balanced caps g tenants t le fits = record {
  fewer = omega arith;
  balance = omega arith;
  tenant_balance = λ k lim fit.
      let (a, b) =
        tenant_moves caps tenants t k leaving refused (slots tenants t - 1) (omega arith)
          (omega arith) fit in
      (a ∙ ap (λ n. slots tenants k + n) (refused-none k t), b);
  no_stray = refl;
}

pub Step-Sound : (caps : Caps) (s s' : State) → Step caps s s' → Sound caps s → Sound caps s'
Step-Sound caps s s' (takes {calls} {g} {tenants} t lt) h = takes-Sound caps calls g tenants t lt h
Step-Sound caps s s' (turned_away full) h = h
Step-Sound caps s s' (tries {g} {tenants} before after t) h =
    Balanced-Sound caps before after (call_at t (try_tenant caps t tenants).0 ∷ [])
      (call_at t admitted) g g tenants (try_tenant caps t tenants).1
      (Tried-Balanced caps g tenants t (try_tenant caps t tenants)
        (try_tenant-Tried caps t tenants))
      h
Step-Sound caps s s' (gives_back {g} {tenants} before after t) h =
    Balanced-Sound caps before after [] (call_at t refused) (suc g) g tenants tenants
      (refused-Balanced caps g tenants t) h
Step-Sound caps s s' (leaves {g} {tenants} before after t) h =
    Balanced-Sound caps before after (still_leaving caps t) (call_at t holding) (suc g) g tenants
      tenants (holding-Balanced caps g tenants t) h
Step-Sound caps s s' (frees {g} {tenants} {freed} before after t e) h =
    let (lim, le, fit) = waiting_slot caps g tenants before after t h in
    let same = some_inj (sym (free_tenant-slots tenants t le) ∙ e) in
    subst (λ ts. Sound caps (state (before ++ after) g ts)) same
      (Balanced-Sound caps before after [] (call_at t leaving) g g tenants
        (insert t (slots tenants t - 1) tenants) (leaving-Balanced caps g tenants t le fit) h)
