-- ===== src/Mcp/Cache.antt =====
-- internal/mcp/cache.go: the cache of the tools and resources of each server. Each method holds the
-- mutex for its whole body. Tools and resources are of any type, times are nanoseconds, and the clock
-- is an argument. A maximum below 0 acts like 0. Which entry `range` meets first, and so which one is
-- evicted, Go leaves open: it is a parameter.
pub mod Laws
mod Tests
use claw_hermes_ai_go.Base.{
  ℕ, ◌+◌, Bool, true, false, Option, none, some, List, [], ◌∷◌, String, leb, ltb, if◌then◌else◌,
  length,
}
use claw_hermes_ai_go.Base.Dict.{Dict, lookup, insert, erase}

pub record CacheEntry {ℓ} (T R : Type ℓ) : Type ℓ where
  pub tools : List T
  pub resources : List R
  pub expires_at : ℕ

pub record CapabilityCache {ℓ} (T R : Type ℓ) : Type ℓ where
  pub entries : Dict (CacheEntry T R)
  pub max_size : ℕ
  pub ttl : ℕ

module _ {ℓ} {T R : Type ℓ} where
  pub new_capability_cache : ℕ → ℕ → CapabilityCache T R
  new_capability_cache max_size ttl = record { entries = []; max_size = max_size; ttl = ttl }

  -- `&CacheEntry{}`
  abbrev pub empty_entry : CacheEntry T R
  empty_entry = record { tools = []; resources = []; expires_at = 0 }

  -- `!exists || time.Now().After(entry.ExpiresAt)` in the readers; an entry is read through its end.
  unfoldable pub live : ℕ → Option (CacheEntry T R) → Option (CacheEntry T R)
  live now none = none
  live now (some e) = if ltb e.expires_at now then none else some e

  pub get : CapabilityCache T R → String → ℕ → Option (CacheEntry T R)
  get c server_id now = live now (lookup server_id c.entries)

  abbrev pub tools_in : Option (CacheEntry T R) → Option (List T)
  tools_in none = none
  tools_in (some e) = some e.tools

  abbrev pub resources_in : Option (CacheEntry T R) → Option (List R)
  resources_in none = none
  resources_in (some e) = some e.resources

  unfoldable pub get_tools : CapabilityCache T R → String → ℕ → Option (List T)
  get_tools c server_id now = tools_in (live now (lookup server_id c.entries))

  pub get_resources : CapabilityCache T R → String → ℕ → Option (List R)
  get_resources c server_id now = resources_in (live now (lookup server_id c.entries))

  pub delete : CapabilityCache T R → String → CapabilityCache T R
  delete c server_id = record c { entries = erase server_id c.entries }

  pub clear : CapabilityCache T R → CapabilityCache T R
  clear c = record c { entries = [] }

  pub size : CapabilityCache T R → ℕ
  size c = length c.entries

-- The methods that change the cache.
pub data Op {ℓ} (T R : Type ℓ) : Type ℓ where
  stores : String → List T → List R → ℕ → Op T R
  stores_tools : String → List T → ℕ → Op T R
  stores_resources : String → List R → ℕ → Op T R
  deletes : String → Op T R
  clears : Op T R

module _ {ℓ} {T R : Type ℓ} (range_first : Dict (CacheEntry T R) → String) where
  -- Room for one more entry: at the maximum, the first entry of the range is deleted.
  pub make_room : CapabilityCache T R → Dict (CacheEntry T R)
  make_room c =
      if leb c.max_size (length c.entries)
      then erase (range_first c.entries) c.entries
      else c.entries

  pub store : CapabilityCache T R → String → List T → List R → ℕ → CapabilityCache T R
  store c server_id tools resources now = record c {
    entries =
        insert server_id (record { tools = tools; resources = resources; expires_at = now + c.ttl })
          (make_room c);
  }

  -- The entry that a partial store fills, and the entries beside it.
  pub entry_for : CapabilityCache T R → String → Dict (CacheEntry T R) × CacheEntry T R
  entry_for c server_id = elim (lookup server_id c.entries) [
    | some e ↦ (c.entries, e)
    | none ↦ (make_room c, empty_entry)
  ]

  pub store_tools : CapabilityCache T R → String → List T → ℕ → CapabilityCache T R
  store_tools c server_id tools now =
      let (entries, e) = entry_for c server_id in
      record c {
        entries = insert server_id (record e { tools = tools; expires_at = now + c.ttl }) entries;
      }

  pub store_resources : CapabilityCache T R → String → List R → ℕ → CapabilityCache T R
  store_resources c server_id resources now =
      let (entries, e) = entry_for c server_id in
      record c {
        entries =
            insert server_id (record e { resources = resources; expires_at = now + c.ttl }) entries;
      }

  unfoldable pub step : CapabilityCache T R → Op T R → CapabilityCache T R
  step c (stores k ts rs now) = store c k ts rs now
  step c (stores_tools k ts now) = store_tools c k ts now
  step c (stores_resources k rs now) = store_resources c k rs now
  step c (deletes k) = delete c k
  step c clears = clear c

  unfoldable pub run : CapabilityCache T R → List (Op T R) → CapabilityCache T R
  run c [] = c
  run c (op ∷ ops) = run (step c op) ops
