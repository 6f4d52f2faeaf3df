-- ===== src/Mcp/Cache/Tests.antt =====
-- cache.go: the theorems at a cache of two entries that evicts the first entry of its list.
use claw_hermes_ai_go.Base.{
  ◌≤◌, ◌<◌, ◌≡◌, refl, ◌≢◌, true, List, [], ◌∷◌, String, length, arith, eq_iff, eq_refl, max,
}
use claw_hermes_ai_go.Base.Dict.{Dict, lookup, has}
use claw_hermes_ai_go.Mcp.Cache.{
  CacheEntry, CapabilityCache, new_capability_cache, Op, stores, stores_tools, size, run,
}
use claw_hermes_ai_go.Mcp.Cache.Laws.{size_bounded}

abbrev first_of : Dict (CacheEntry String String) → String
first_of [] = ""
first_of (entry ∷ rest) = entry.0

first_of-has : (m : Dict (CacheEntry String String)) → 0 < length m → has (first_of m) m ≡ true
unfolding has lookup
first_of-has [] h = absurd (omega arith)
first_of-has (entry ∷ rest) h = rw (eq_refl entry.0) refl

abbrev filling : List (Op String String)
filling = stores "a" ("read" ∷ []) [] 1 ∷ stores_tools "b" [] 2 ∷ stores "c" [] ("page" ∷ []) 3 ∷ []

size_bounded_example : size (run first_of (new_capability_cache 2 10) filling) ≤ max 1 2
size_bounded_example = size_bounded first_of first_of-has 2 10 filling

abbrev page : CacheEntry String String
page = record { tools = []; resources = "page" ∷ []; expires_at = 5 }

abbrev cache : CapabilityCache String String
cache = record { entries = ("a", page) ∷ ("b", page) ∷ []; max_size = 2; ttl = 10 }

a-ne-b : ◌≢◌ {A = String} "a" "b"
a-ne-b e = ground (arith, eq_iff "a" "b")
