-- ===== src/Skill/Semaphore/Progress.antt =====
-- semaphore.go: the limits, the progress of the calls, and what is left when they have ended.
use claw_hermes_ai_go.Base.{
  ℕ, zero, suc, ◌-◌, ◌<◌, ◌≤◌, ◌≡◌, refl, true, List, [], ◌∷◌, ◌++◌, String, str_eq, if◌then◌else◌,
  arith,
}
use claw_hermes_ai_go.Base.Int.{rounds}
use claw_hermes_ai_go.Base.Dict.{Dict, lookup, insert}
use claw_hermes_ai_go.Skill.Semaphore.{
  Caps, Stage, admitted, refused, holding, leaving, Call, call_at, State, state, is_limited, slots,
  try_tenant, still_leaving, Step, tries, gives_back, leaves, frees, Reached, fresh, then_step,
}
use claw_hermes_ai_go.Skill.Semaphore.Slots.{
  total, total-one, of_global, global_slot, of_tenant, tenant_slot, Sound, sound,
}
use claw_hermes_ai_go.Skill.Semaphore.Invariant.{Step-Sound, waiting_slot, free_tenant-slots}

pub Reached-Sound : (caps : Caps) (s : State) → Reached caps s → Sound caps s
unfolding slots lookup total
Reached-Sound caps s fresh = sound refl (omega arith) (λ t lim. (refl, omega arith)) refl
Reached-Sound caps s' (then_step {s} r step) = Step-Sound caps s s' step (Reached-Sound caps s r)

-- One for an execution that holds its slots, and for one of a tenant.
pub runs : Stage → ℕ
runs admitted = 0
runs refused = 0
runs holding = 1
runs leaving = 0

pub executing : Call → ℕ
unfolding runs
executing c = runs c.stage

pub executing_for : String → Call → ℕ
unfolding runs
executing_for t c = if str_eq c.tenant_id t then runs c.stage else 0

total_mono : (f h : Call → ℕ) (cs : List Call) → ((c : Call) → f c ≤ h c) → total f cs ≤ total h cs
unfolding total
total_mono f h [] le = omega arith
total_mono f h (c ∷ cs) le = omega (arith, le c, total_mono f h cs le)

runs-global_slot : (s : Stage) → (runs s ≤ global_slot s) × (runs s ≤ tenant_slot s)
unfolding runs global_slot tenant_slot
runs-global_slot admitted = (omega arith, omega arith)
runs-global_slot refused = (omega arith, omega arith)
runs-global_slot holding = (omega arith, omega arith)
runs-global_slot leaving = (omega arith, omega arith)

executing-of_global : (c : Call) → executing c ≤ of_global c
unfolding executing of_global
executing-of_global c = (runs-global_slot c.stage).0

executing_for-of_tenant : (t : String) (c : Call) → executing_for t c ≤ of_tenant t c
unfolding executing_for of_tenant
executing_for-of_tenant t c = ground (arith, runs-global_slot c.stage)

-- However acquisitions and releases interleave, no more executions hold their slots than the global
-- cap, and no more of a limited tenant than the cap on a tenant.
pub limits_hold :
    (caps : Caps) (calls : List Call) (g : ℕ) (tenants : Dict ℕ)
    → Reached caps (state calls g tenants)
    → (total executing calls ≤ caps.global_cap)
      × ((t : String)
          → is_limited caps t ≡ true
          → total (executing_for t) calls ≤ rounds caps.per_tenant)
limits_hold caps calls g tenants r = by_sound (Reached-Sound caps (state calls g tenants) r)
  where
    by_sound :
        Sound caps (state calls g tenants)
        → (total executing calls ≤ caps.global_cap)
          × ((t : String)
              → is_limited caps t ≡ true
              → total (executing_for t) calls ≤ rounds caps.per_tenant)
    by_sound (sound e le fits none_stray) = (
      omega (arith, total_mono executing of_global calls executing-of_global),
      λ t lim.
          let (same, fit) = fits t lim in
          omega
            (arith, total_mono (executing_for t) (of_tenant t) calls (executing_for-of_tenant t)),
    )

-- When no call is under way, all slots are free again: the global channel is empty, and so is that of
-- each limited tenant.
pub no_slot_leaks :
    (caps : Caps) (g : ℕ) (tenants : Dict ℕ)
    → Reached caps (state [] g tenants)
    → (g ≡ 0) × ((t : String) → is_limited caps t ≡ true → slots tenants t ≡ 0)
unfolding total
no_slot_leaks caps g tenants r = by_sound (Reached-Sound caps (state [] g tenants) r)
  where
    by_sound :
        Sound caps (state [] g tenants)
        → (g ≡ 0) × ((t : String) → is_limited caps t ≡ true → slots tenants t ≡ 0)
    by_sound (sound e le fits none_stray) = (e, λ t lim. (fits t lim).0)

-- The steps that a call has before it at most.
pub steps_left : Stage → ℕ
steps_left admitted = 3
steps_left refused = 1
steps_left holding = 2
steps_left leaving = 1

pub work : List Call → ℕ
unfolding steps_left
work cs = total (λ c. steps_left c.stage) cs

-- A step of the call in the middle, which leaves the others as they are and has less work behind it.
pub record Advance (caps : Caps) (before after : List Call) (c : Call) (g : ℕ) (tenants : Dict ℕ)
    : Type 0 where
  pub rest : List Call
  pub global_after : ℕ
  pub tenants_after : Dict ℕ
  pub step :
      Step caps
        (state (before ++ c ∷ after) g tenants)
        (state (before ++ (rest ++ after)) global_after tenants_after)
  pub less : work rest < work (c ∷ [])

some_global :
    (caps : Caps) (before after : List Call) (c : Call) (g : ℕ) (tenants : Dict ℕ)
    → Sound caps (state (before ++ c ∷ after) g tenants)
    → of_global c ≤ g
some_global caps before after c g tenants (sound e le fits none_stray) =
    omega (arith, total-one of_global before c after)

tried_less :
    (caps : Caps) (t : String) (tenants : Dict ℕ) → steps_left (try_tenant caps t tenants).0 ≤ 2
unfolding try_tenant steps_left
tried_less caps t tenants = ground arith

leaving_less : (caps : Caps) (t : String) → work (still_leaving caps t) ≤ 1
unfolding work still_leaving steps_left total call_at
leaving_less caps t = ground arith

at_most_three : (s : Stage) → steps_left s ≤ 3
unfolding steps_left
at_most_three admitted = omega arith
at_most_three refused = omega arith
at_most_three holding = omega arith
at_most_three leaving = omega arith

advance :
    (caps : Caps) (before after : List Call) (t : String) (s : Stage) (g : ℕ) (tenants : Dict ℕ)
    → Sound caps (state (before ++ call_at t s ∷ after) g tenants)
    → Advance caps before after (call_at t s) g tenants
unfolding work steps_left total call_at of_global global_slot
advance caps before after t admitted g tenants h = record {
  rest = call_at t (try_tenant caps t tenants).0 ∷ [];
  global_after = g;
  tenants_after = (try_tenant caps t tenants).1;
  step = tries before after t;
  less = omega (arith, tried_less caps t tenants);
}
advance caps before after t refused zero tenants h =
    absurd (omega (arith, some_global caps before after (call_at t refused) zero tenants h))
advance caps before after t refused (suc g) tenants h = record {
  rest = [];
  global_after = g;
  tenants_after = tenants;
  step = gives_back before after t;
  less = omega arith;
}
advance caps before after t holding zero tenants h =
    absurd (omega (arith, some_global caps before after (call_at t holding) zero tenants h))
advance caps before after t holding (suc g) tenants h = record {
  rest = still_leaving caps t;
  global_after = g;
  tenants_after = tenants;
  step = leaves before after t;
  less = omega (arith, leaving_less caps t);
}
advance caps before after t leaving g tenants h =
    let (lim, le, fit) = waiting_slot caps g tenants before after t h in
    record {
      rest = [];
      global_after = g;
      tenants_after = insert t (slots tenants t - 1) tenants;
      step = frees before after t (free_tenant-slots tenants t le);
      less = omega arith;
    }

-- No call ever blocks: in every reachable state each call that is under way can take a step, whatever
-- the others do. A call has at most three steps before it, and this step leaves it fewer.
pub calls-Advance :
    (caps : Caps) (before after : List Call) (c : Call) (g : ℕ) (tenants : Dict ℕ)
    → Reached caps (state (before ++ c ∷ after) g tenants)
    → (work (c ∷ []) ≤ 3) × Advance caps before after c g tenants
unfolding call_at work total
calls-Advance caps before after c g tenants r = (
  omega (arith, at_most_three c.stage),
  advance caps before after c.tenant_id c.stage g tenants
      (Reached-Sound caps (state (before ++ c ∷ after) g tenants) r),
)
