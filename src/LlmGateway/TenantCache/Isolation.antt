-- ===== src/LlmGateway/TenantCache/Isolation.antt =====
-- tenant_cache.go: what a tenant finds, whatever other tenants do.
use claw_hermes_ai_go.Base.{
  ℕ, ◌+◌, ◌≤◌, ◌≡◌, refl, ◌≢◌, ◌⊎◌, ◌∙◌, none, some, List, [], ◌∷◌, String, ltb, if◌then◌else◌,
  arith, Bool-cases, Option-cases, inl, inr, All, eq_iff,
}
use claw_hermes_ai_go.Base.Dict.{
  Dict, lookup, lookup-insert_self, lookup-insert_ne, lookup-erase_ne, lookup-erase,
}
use claw_hermes_ai_go.LlmGateway.TenantCache.{
  CacheEntry, TenantGatewayCache, get, set, invalidate, Op, gets, sets, invalidates, step, run,
}

module _ {ℓ} {G : Type ℓ} (k : String) where
  -- The operation is a read at most `t`, or another tenant's.
  abbrev pub Harmless : ℕ → Op G → Type 0
  Harmless t (gets j now) = (j ≢ k) ⊎ (now ≤ t)
  Harmless t (sets j gw keys ttl now) = j ≢ k
  Harmless t (invalidates j) = j ≢ k

  get-entry :
      (c : TenantGatewayCache G) (j : String) (now : ℕ) (e : CacheEntry G)
      → lookup k c ≡ some e
      → (j ≢ k) ⊎ (now ≤ e.expires_at)
      → lookup k (get c j now).0 ≡ some e
  unfolding get
  get-entry c j now e there h = elim (Option-cases (lookup j c)) [
    | inl missing ↦ rw (missing, get) there
    | inr (d, found) ↦
        rw (found, get)
          (elim (Bool-cases (ltb d.expires_at now)) [
            | inr fresh ↦ rw fresh there
            | inl late ↦
                rw late (ground (arith, lookup-erase j k c, eq_iff j k, late, found, there, h))
          ])
  ]

  step-entry :
      (c : TenantGatewayCache G) (op : Op G) (e : CacheEntry G)
      → lookup k c ≡ some e
      → Harmless e.expires_at op
      → lookup k (step c op) ≡ some e
  unfolding step set invalidate
  step-entry c (gets j now) e there h = get-entry c j now e there h
  step-entry c (sets j gw keys ttl now) e there h = lookup-insert_ne j k _ c h ∙ there
  step-entry c (invalidates j) e there h = lookup-erase_ne j k c h ∙ there

  run-entry :
      (c : TenantGatewayCache G) (ops : List (Op G)) (e : CacheEntry G)
      → lookup k c ≡ some e
      → All (Harmless e.expires_at) ops
      → lookup k (run c ops) ≡ some e
  unfolding run
  run-entry c [] e there h = there
  run-entry c (op ∷ ops) e there h = run-entry (step c op) ops e (step-entry c op e there h.0) h.1

  set-entry :
      (c : TenantGatewayCache G) (gw : G) (keys : Dict String) (ttl now : ℕ)
      → lookup k (set c k gw keys ttl now)
        ≡ some (record { gateway = gw; api_keys = keys; expires_at = now + ttl })
  unfolding set
  set-entry c gw keys ttl now = lookup-insert_self k _ c

  get-found :
      (c : TenantGatewayCache G) (e : CacheEntry G) (now : ℕ)
      → lookup k c ≡ some e
      → (get c k now).1 ≡ (if ltb e.expires_at now then none else some (e.gateway, e.api_keys))
  unfolding get
  get-found c e now there =
      rw (there, get)
        (elim (Bool-cases (ltb e.expires_at now)) [
          | inl late ↦ rw late refl
          | inr fresh ↦ rw fresh refl
        ])

  -- What a tenant sets it finds until the time to live is over, and nothing later, whatever other
  -- tenants do in between, and if its own requests in between are reads within that time.
  pub set-run-get :
      (c : TenantGatewayCache G) (gw : G) (keys : Dict String) (ttl now later : ℕ)
      (ops : List (Op G))
      → All (Harmless (now + ttl)) ops
      → (get (run (set c k gw keys ttl now) ops) k later).1
        ≡ (if ltb (now + ttl) later then none else some (gw, keys))
  set-run-get c gw keys ttl now later ops h =
      get-found (run (set c k gw keys ttl now) ops) _ later
        (run-entry (set c k gw keys ttl now) ops _ (set-entry c gw keys ttl now) h)
