-- ===== src/Skill/Semaphore/Slots.antt =====
-- semaphore.go: the slots that the calls of a state have, and how they balance the channels.
use claw_hermes_ai_go.Base.{
  ℕ, ◌+◌, ◌≤◌, ◌≡◌, Bool, true, List, [], ◌∷◌, ◌++◌, String, str_eq, if◌then◌else◌, arith,
}
use claw_hermes_ai_go.Base.Int.{rounds}
use claw_hermes_ai_go.Base.Dict.{Dict, insert, lookup-insert}
use claw_hermes_ai_go.Skill.Semaphore.{
  Caps, Stage, admitted, refused, holding, leaving, Call, State, state, is_limited, slots, or_zero,
}

unfoldable pub total : (Call → ℕ) → List Call → ℕ
total f [] = 0
total f (c ∷ cs) = f c + total f cs

pub total-append : (f : Call → ℕ) (xs ys : List Call) → total f (xs ++ ys) ≡ total f xs + total f ys
unfolding total
total-append f [] ys = omega arith
total-append f (x ∷ xs) ys = omega (arith, total-append f xs ys)

pub total-one :
    (f : Call → ℕ) (xs : List Call) (c : Call) (ys : List Call)
    → total f (xs ++ c ∷ ys) ≡ total f xs + (f c + total f ys)
unfolding total
total-one f xs c ys = total-append f xs (c ∷ ys)

-- The slots that a stage has.
unfoldable pub global_slot : Stage → ℕ
global_slot admitted = 1
global_slot refused = 1
global_slot holding = 1
global_slot leaving = 0

unfoldable pub tenant_slot : Stage → ℕ
tenant_slot admitted = 0
tenant_slot refused = 0
tenant_slot holding = 1
tenant_slot leaving = 1

unfoldable pub of_global : Call → ℕ
unfolding global_slot
of_global c = global_slot c.stage

unfoldable pub of_tenant : String → Call → ℕ
unfolding tenant_slot
of_tenant t c = if str_eq c.tenant_id t then tenant_slot c.stage else 0

-- A call that waits for a channel that its tenant has not.
unfoldable pub stray_stage : Bool → Stage → ℕ
stray_stage limited admitted = 0
stray_stage limited refused = 0
stray_stage limited holding = 0
stray_stage limited leaving = if limited then 0 else 1

unfoldable pub stray : Caps → Call → ℕ
unfolding stray_stage
stray caps c = stray_stage (is_limited caps c.tenant_id) c.stage

pub data Sound (caps : Caps) : State → Type 0 where
  sound :
      {calls : List Call} {g : ℕ} {tenants : Dict ℕ}
      → g ≡ total of_global calls
      → g ≤ caps.global_cap
      → ((t : String)
          → is_limited caps t ≡ true
          → (slots tenants t ≡ total (of_tenant t) calls)
            × (slots tenants t ≤ rounds caps.per_tenant))
      → total (stray caps) calls ≡ 0
      → Sound caps (state calls g tenants)

pub slots-insert :
    (tenants : Dict ℕ) (t k : String) (n : ℕ)
    → slots (insert t n tenants) k ≡ (if str_eq t k then n else slots tenants k)
unfolding slots or_zero
slots-insert tenants t k n = ground (arith, lookup-insert t k n tenants)

-- A call gives way to some calls, and the slots change by what these have more or less.
pub record Balanced (caps : Caps) (c : Call) (cs : List Call) (g g' : ℕ) (tenants tenants' : Dict ℕ)
    : Type 0 where
  pub fewer : g' ≤ g
  pub balance : g' + of_global c ≡ g + total of_global cs
  pub tenant_balance :
      (k : String)
      → is_limited caps k ≡ true
      → slots tenants k ≤ rounds caps.per_tenant
      → (slots tenants' k + of_tenant k c ≡ slots tenants k + total (of_tenant k) cs)
        × (slots tenants' k ≤ rounds caps.per_tenant)
  pub no_stray : total (stray caps) cs ≡ 0

total-middle :
    (f : Call → ℕ) (xs ys zs : List Call)
    → total f (xs ++ (ys ++ zs)) ≡ total f xs + (total f ys + total f zs)
total-middle f xs ys zs = omega (arith, total-append f xs (ys ++ zs), total-append f ys zs)

pub Balanced-Sound :
    (caps : Caps) (before after cs : List Call) (c : Call) (g g' : ℕ) (tenants tenants' : Dict ℕ)
    → Balanced caps c cs g g' tenants tenants'
    → Sound caps (state (before ++ c ∷ after) g tenants)
    → Sound caps (state (before ++ (cs ++ after)) g' tenants')
Balanced-Sound caps before after cs c g g' tenants tenants' b (sound e le fits none_stray) =
    sound
      (omega (
        arith,
        b.balance,
        total-one of_global before c after,
        total-middle of_global before cs after,
      ))
      (omega (arith, b.fewer))
      (λ k lim.
        let (same, fit) = fits k lim in
        let (moved, fit') = b.tenant_balance k lim fit in
        (
          omega (
            arith,
            total-one (of_tenant k) before c after,
            total-middle (of_tenant k) before cs after,
          ),
          fit',
        ))
      (omega (
        arith,
        b.no_stray,
        total-one (stray caps) before c after,
        total-middle (stray caps) before cs after,
      ))
