-- ===== src/LlmGateway/TenantCache/Tests.antt =====
-- tenant_cache.go: a tenant's entry beside those of others.
use claw_hermes_ai_go.Base.{
  ◌+◌, ◌≡◌, ◌≢◌, inl, inr, none, some, List, [], ◌∷◌, String, ltb, if◌then◌else◌, arith, eq_iff,
  All,
}
use claw_hermes_ai_go.LlmGateway.TenantCache.{
  get, set, Op, gets, sets, invalidates, run, new_tenant_gateway_cache,
}
use claw_hermes_ai_go.LlmGateway.TenantCache.Isolation.{Harmless, set-run-get}

abbrev others : List (Op String)
others = sets "b" "gw-b" [] 1 2 ∷ gets "b" 9 ∷ gets "a" 8 ∷ invalidates "b" ∷ []

b-ne-a : ◌≢◌ {A = String} "b" "a"
b-ne-a e = ground (arith, eq_iff "b" "a")

others-Harmless : All (Harmless "a" (1 + 10)) others
others-Harmless = (b-ne-a, (inl b-ne-a, (inr (omega arith), (b-ne-a, tt))))

set-run-get_example :
    (get (run (set new_tenant_gateway_cache "a" "gw-a" [] 10 1) others) "a" 11).1
    ≡ (if ltb (1 + 10) 11 then none else some ("gw-a", []))
set-run-get_example =
    set-run-get "a" new_tenant_gateway_cache "gw-a" [] 10 1 11 others others-Harmless
