-- ===== src/LlmGateway/TenantCache.antt =====
-- internal/llmgateway/tenant_cache.go: the cache of each tenant's gateway and API keys. Each method
-- holds the mutex for its whole body. The gateway is of any type, times are nanoseconds, and the
-- clock is an argument.
pub mod Isolation
mod Tests
use claw_hermes_ai_go.Base.{ℕ, ◌+◌, Option, none, some, List, [], ◌∷◌, String, ltb, if◌then◌else◌}
use claw_hermes_ai_go.Base.Dict.{Dict, lookup, insert, erase}

pub record CacheEntry {ℓ} (G : Type ℓ) : Type ℓ where
  pub gateway : G
  pub api_keys : Dict String
  pub expires_at : ℕ

-- The entries by tenant.
abbrev pub TenantGatewayCache {ℓ} : Type ℓ → Type ℓ
TenantGatewayCache G = Dict (CacheEntry G)

module _ {ℓ} {G : Type ℓ} where
  abbrev pub new_tenant_gateway_cache : TenantGatewayCache G
  new_tenant_gateway_cache = []

  -- An entry that is found too late is deleted.
  pub get : TenantGatewayCache G → String → ℕ → TenantGatewayCache G × Option (G × Dict String)
  get c tenant_id now = elim (lookup tenant_id c) [
    | none ↦ (c, none)
    | some e ↦
        if ltb e.expires_at now
        then (erase tenant_id c, none)
        else (c, some (e.gateway, e.api_keys))
  ]

  pub set : TenantGatewayCache G → String → G → Dict String → ℕ → ℕ → TenantGatewayCache G
  set c tenant_id gw keys ttl now =
      insert tenant_id (record { gateway = gw; api_keys = keys; expires_at = now + ttl }) c

  pub invalidate : TenantGatewayCache G → String → TenantGatewayCache G
  invalidate c tenant_id = erase tenant_id c

-- A call of a method by some tenant's request; a time to live below 0 acts like 0, up to 1 ns.
pub data Op {ℓ} (G : Type ℓ) : Type ℓ where
  gets : String → ℕ → Op G
  sets : String → G → Dict String → ℕ → ℕ → Op G
  invalidates : String → Op G

abbrev pub tenant_of {ℓ} : {G : Type ℓ} → Op G → String
tenant_of (gets k now) = k
tenant_of (sets k gw keys ttl now) = k
tenant_of (invalidates k) = k

module _ {ℓ} {G : Type ℓ} where
  unfoldable pub step : TenantGatewayCache G → Op G → TenantGatewayCache G
  step c (gets k now) = (get c k now).0
  step c (sets k gw keys ttl now) = set c k gw keys ttl now
  step c (invalidates k) = invalidate c k

  unfoldable pub run : TenantGatewayCache G → List (Op G) → TenantGatewayCache G
  run c [] = c
  run c (op ∷ ops) = run (step c op) ops
