-- ===== src/Skill/Semaphore.antt =====
-- internal/skill/semaphore.go: the cap on all executions, and that on each tenant's. The state is the
-- two kinds of channels and the calls that are under way; a step is what one goroutine does between
-- two points where others may run. A channel is the number of its elements. Only a goroutine that has
-- acquired its slots releases them, once.
pub mod Slots
pub mod Tries
pub mod Invariant
pub mod Progress
mod Tests
use claw_hermes_ai_go.Base.{
  ℕ, zero, suc, ◌+◌, ◌<◌, ◌≤◌, ◌≡◌, Bool, true, false, not, ◌&&◌, Option, none, some, List, [], ◌∷◌,
  ◌++◌, String, str_eq, ltb, if◌then◌else◌,
}
use claw_hermes_ai_go.Base.Int.{ℤ, rounds, not_positive}
use claw_hermes_ai_go.Base.Dict.{Dict, lookup, insert}

-- `NewSemaphore(globalCap, perTenant)`
pub record Caps : Type 0 where
  pub global_cap : ℕ
  pub per_tenant : ℤ

-- Where a goroutine is: it has a global slot and wants the tenant's, it has not got that and has to give
-- back the global slot, it holds what it needs, or it has given back the global slot only.
pub data Stage : Type 0 where
  admitted refused holding leaving : Stage

pub record Call : Type 0 where
  pub tenant_id : String
  pub stage : Stage

-- The calls, the elements of the global channel, and those of each tenant's channel that is made.
pub data State : Type 0 where
  state : List Call → ℕ → Dict ℕ → State

pub call_at : String → Stage → Call
call_at t s = record { tenant_id = t; stage = s }

-- `s.perTenant > 0 && tenantID != ""`
pub is_limited : Caps → String → Bool
is_limited caps t = not (not_positive caps.per_tenant) && not (str_eq t "")

or_zero : Option ℕ → ℕ
or_zero none = 0
or_zero (some n) = n

-- The elements of a tenant's channel, which is empty when `LoadOrStore` makes it.
pub slots : Dict ℕ → String → ℕ
unfolding or_zero
slots tenants t = or_zero (lookup t tenants)

-- The second half of `Acquire`: its outcome and the channels behind it.
pub try_tenant : Caps → String → Dict ℕ → Stage × Dict ℕ
unfolding slots is_limited
try_tenant caps t tenants =
    if is_limited caps t
    then (if ltb (slots tenants t) (rounds caps.per_tenant)
        then (holding, insert t (slots tenants t + 1) tenants)
        else (refused, insert t (slots tenants t) tenants))
    else (holding, tenants)

-- What is left of a call that has given back its global slot.
pub still_leaving : Caps → String → List Call
unfolding call_at is_limited
still_leaving caps t = if is_limited caps t then call_at t leaving ∷ [] else []

take_out : Dict ℕ → String → Option ℕ → Option (Dict ℕ)
take_out tenants t none = some tenants
take_out tenants t (some zero) = none
take_out tenants t (some (suc n)) = some (insert t n tenants)

-- `<-v.(chan struct{})`, which blocks on an empty channel.
pub free_tenant : Dict ℕ → String → Option (Dict ℕ)
unfolding take_out
free_tenant tenants t = take_out tenants t (lookup t tenants)

pub data Step (caps : Caps) : State → State → Type 0 where
  -- `Acquire` takes a global slot, or is turned away where there is none.
  takes :
      {calls : List Call} {g : ℕ} {tenants : Dict ℕ} (t : String)
      → g < caps.global_cap
      → Step caps (state calls g tenants) (state (call_at t admitted ∷ calls) (g + 1) tenants)
  turned_away :
      {calls : List Call} {g : ℕ} {tenants : Dict ℕ}
      → caps.global_cap ≤ g
      → Step caps (state calls g tenants) (state calls g tenants)
  -- It tries the tenant's slot.
  tries :
      {g : ℕ} {tenants : Dict ℕ} (before after : List Call) (t : String)
      → Step caps (state (before ++ call_at t admitted ∷ after) g tenants) (
          state
            (before ++ call_at t (try_tenant caps t tenants).0 ∷ after)
            g
            (try_tenant caps t tenants).1)
  -- It gives back the global slot and fails.
  gives_back :
      {g : ℕ} {tenants : Dict ℕ} (before after : List Call) (t : String)
      → Step caps
          (state (before ++ call_at t refused ∷ after) (suc g) tenants)
          (state (before ++ after) g tenants)
  -- `Release` gives back the global slot, and then the tenant's.
  leaves :
      {g : ℕ} {tenants : Dict ℕ} (before after : List Call) (t : String)
      → Step caps
          (state (before ++ call_at t holding ∷ after) (suc g) tenants)
          (state (before ++ (still_leaving caps t ++ after)) g tenants)
  frees :
      {g : ℕ} {tenants freed : Dict ℕ} (before after : List Call) (t : String)
      → free_tenant tenants t ≡ some freed
      → Step caps
          (state (before ++ call_at t leaving ∷ after) g tenants)
          (state (before ++ after) g freed)

-- The states that the goroutines reach from a new semaphore.
pub data Reached (caps : Caps) : State → Type 0 where
  fresh : Reached caps (state [] 0 [])
  then_step : {s s' : State} → Reached caps s → Step caps s s' → Reached caps s'
