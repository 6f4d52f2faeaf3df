-- ===== src/Skill/Semaphore/Tries.antt =====
-- semaphore.go: what a try for a tenant's slot does to the slots that are taken.
use claw_hermes_ai_go.Base.{
  ℕ, ◌+◌, ◌<◌, ◌≤◌, ◌≡◌, refl, sym, ap, ◌∙◌, true, false, [], ◌∷◌, String, str_eq, eq_iff, ltb,
  if◌then◌else◌, arith, Bool-cases, ltb→lt, subst, ◌⊎◌, inl, inr,
}
use claw_hermes_ai_go.Base.Int.{rounds}
use claw_hermes_ai_go.Base.Dict.{Dict, insert}
use claw_hermes_ai_go.Skill.Semaphore.{
  Caps, Stage, admitted, refused, holding, Call, call_at, is_limited, slots, try_tenant,
}
use claw_hermes_ai_go.Skill.Semaphore.Slots.{
  total, of_global, global_slot, of_tenant, tenant_slot, stray, stray_stage, slots-insert, Balanced,
}

slots-insert_same :
    (tenants : Dict ℕ) (t k : String)
    → slots (insert t (slots tenants t) tenants) k ≡ slots tenants k
slots-insert_same tenants t k = elim (Bool-cases (str_eq t k)) [
  | inl e ↦
      rw (slots-insert tenants t k (slots tenants t), e) (ap (slots tenants) ((eq_iff t k).0 e))
  | inr e ↦ rw (slots-insert tenants t k (slots tenants t), e) refl
]

slots-insert_self :
    (tenants : Dict ℕ) (t k : String) (n : ℕ) → str_eq t k ≡ true → slots (insert t n tenants) k ≡ n
slots-insert_self tenants t k n e = rw (slots-insert tenants t k n, e) refl

slots-insert_ne :
    (tenants : Dict ℕ) (t k : String) (n : ℕ)
    → str_eq t k ≡ false
    → slots (insert t n tenants) k ≡ slots tenants k
slots-insert_ne tenants t k n e = rw (slots-insert tenants t k n, e) refl

of_tenant-call_at :
    (k t : String) (s : Stage)
    → of_tenant k (call_at t s) ≡ (if str_eq t k then tenant_slot s else 0)
unfolding of_tenant call_at
of_tenant-call_at k t s = refl

-- A call whose tenant's channel changes to what it takes or gives back.
pub tenant_moves :
    (caps : Caps) (tenants : Dict ℕ) (t k : String) (s s' : Stage) (n : ℕ)
    → n + tenant_slot s ≡ slots tenants t + tenant_slot s'
    → n ≤ rounds caps.per_tenant
    → slots tenants k ≤ rounds caps.per_tenant
    → (slots (insert t n tenants) k + of_tenant k (call_at t s)
        ≡ slots tenants k + of_tenant k (call_at t s'))
      × (slots (insert t n tenants) k ≤ rounds caps.per_tenant)
tenant_moves caps tenants t k s s' n moved fits fit = elim (Bool-cases (str_eq t k)) [
  | inl e ↦
      let same : t ≡ k = (eq_iff t k).0 e in
      rw (slots-insert_self tenants t k n e, of_tenant-call_at k t s, of_tenant-call_at k t s', e)
        (subst (λ x. n + tenant_slot s ≡ slots tenants x + tenant_slot s') same moved, fits)
  | inr e ↦
      rw (slots-insert_ne tenants t k n e, of_tenant-call_at k t s, of_tenant-call_at k t s', e)
        (refl, fit)
]

total-single : (f : Call → ℕ) (c : Call) → total f (c ∷ []) ≡ f c
unfolding total
total-single f c = omega arith

-- What a try makes of the tenant's channel.
pub Tried : Caps → String → Dict ℕ → Stage × Dict ℕ → Type 0
Tried caps t tenants r =
    ((is_limited caps t ≡ false) × (r ≡ (holding, tenants)))
    ⊎ ((slots tenants t < rounds caps.per_tenant)
        × (r ≡ (holding, insert t (slots tenants t + 1) tenants)))
    ⊎ ((rounds caps.per_tenant ≤ slots tenants t)
        × (r ≡ (refused, insert t (slots tenants t) tenants)))

pub try_tenant-Tried :
    (caps : Caps) (t : String) (tenants : Dict ℕ) → Tried caps t tenants (try_tenant caps t tenants)
unfolding try_tenant Tried
try_tenant-Tried caps t tenants = elim (Bool-cases (is_limited caps t)) [
  | inr off ↦ inl (off, rw off refl)
  | inl on ↦ elim (Bool-cases (ltb (slots tenants t) (rounds caps.per_tenant))) [
    | inl room ↦
        inr (inl (ltb→lt (slots tenants t) (rounds caps.per_tenant) room, rw (on, room) refl))
    | inr full ↦
        let le : rounds caps.per_tenant ≤ slots tenants t = ground arith in
        inr (inr (le, rw (on, full) refl))
  ]
]

-- One call gives way to another that has its global slot too.
one_for_one :
    (caps : Caps) (t : String) (g : ℕ) (tenants tenants' : Dict ℕ) (s s' : Stage)
    → global_slot s ≡ global_slot s'
    → stray caps (call_at t s') ≡ 0
    → ((k : String)
        → is_limited caps k ≡ true
        → slots tenants k ≤ rounds caps.per_tenant
        → (slots tenants' k + of_tenant k (call_at t s)
            ≡ slots tenants k + of_tenant k (call_at t s'))
          × (slots tenants' k ≤ rounds caps.per_tenant))
    → Balanced caps (call_at t s) (call_at t s' ∷ []) g g tenants tenants'
unfolding of_global call_at
one_for_one caps t g tenants tenants' s s' same kept moves = record {
  fewer = omega arith;
  balance = omega (arith, same, total-single of_global (call_at t s'));
  tenant_balance = λ k lim fit.
      let (a, b) = moves k lim fit in (omega (arith, total-single (of_tenant k) (call_at t s')), b);
  no_stray = total-single (stray caps) (call_at t s') ∙ kept;
}

pub other_tenant :
    (caps : Caps) (t k : String)
    → is_limited caps t ≡ false
    → is_limited caps k ≡ true
    → str_eq t k ≡ false
other_tenant caps t k off on = elim (Bool-cases (str_eq t k)) [
  | inl e ↦ absurd (cc (off, on, (eq_iff t k).0 e))
  | inr e ↦ e
]

pub Tried-Balanced :
    (caps : Caps) (g : ℕ) (tenants : Dict ℕ) (t : String) (r : Stage × Dict ℕ)
    → Tried caps t tenants r
    → Balanced caps (call_at t admitted) (call_at t r.0 ∷ []) g g tenants r.1
unfolding Tried global_slot tenant_slot stray stray_stage call_at of_tenant
Tried-Balanced caps g tenants t r (inl (off, e)) =
    subst
      (λ (x : Stage × Dict ℕ).
        Balanced caps (call_at t admitted) (call_at t x.0 ∷ []) g g tenants x.1)
      (sym e)
      (one_for_one caps t g tenants tenants admitted holding refl refl
        (λ k lim fit. (rw (other_tenant caps t k off lim) refl, fit)))
Tried-Balanced caps g tenants t r (inr (inl (room, e))) =
    subst
      (λ (x : Stage × Dict ℕ).
        Balanced caps (call_at t admitted) (call_at t x.0 ∷ []) g g tenants x.1)
      (sym e)
      (one_for_one caps t g tenants (insert t (slots tenants t + 1) tenants) admitted holding refl
        refl
        (λ k lim.
          tenant_moves caps tenants t k admitted holding (slots tenants t + 1) (omega arith)
            (omega arith)))
Tried-Balanced caps g tenants t r (inr (inr (full, e))) =
    subst
      (λ (x : Stage × Dict ℕ).
        Balanced caps (call_at t admitted) (call_at t x.0 ∷ []) g g tenants x.1)
      (sym e)
      (one_for_one caps t g tenants (insert t (slots tenants t) tenants) admitted refused refl refl
        (λ k lim fit.
          rw (slots-insert_same tenants t k) (rw (of_tenant-call_at k t admitted) refl, fit)))
