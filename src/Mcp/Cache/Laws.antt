-- ===== src/Mcp/Cache/Laws.antt =====
-- cache.go: the size of the cache, and what a reader finds behind a store.
use claw_hermes_ai_go.Base.{
  ℕ, ◌+◌, ◌≤◌, ◌<◌, ◌≡◌, refl, ap, true, none, some, List, [], ◌∷◌, String, leb, ltb, if◌then◌else◌,
  length, arith, Bool-cases, Option-cases, inl, inr, ◌≢◌, ◌⊎◌, subst, sym, max, le→not_ltb, lt→ltb,
}
use claw_hermes_ai_go.Base.Dict.{
  Dict, lookup, insert, has, is_some, length-insert-le, length-erase-le, lookup-insert_self,
  lookup-erase_self, length-erase-has, length-insert-has, lookup-insert_ne, lookup-erase,
}
use claw_hermes_ai_go.Mcp.Cache.{
  tools_in, CacheEntry, CapabilityCache, new_capability_cache, live, get, get_tools, get_resources,
  delete, clear, size, make_room, store, entry_for, store_tools, store_resources, Op, stores,
  stores_tools, stores_resources, deletes, clears, step, run,
}

module _ {ℓ} {T R : Type ℓ} (range_first : Dict (CacheEntry T R) → String)
    (meets : (m : Dict (CacheEntry T R)) → 0 < length m → has (range_first m) m ≡ true) where
  -- Behind `make_room` there is room for one more, unless the maximum is 0.
  length-make_room :
      (c : CapabilityCache T R)
      → length c.entries ≤ max 1 c.max_size
      → length (make_room range_first c) + 1 ≤ max 1 c.max_size
  unfolding make_room
  length-make_room c h = elim (Bool-cases (leb c.max_size (length c.entries))) [
    | inr room ↦ rw room (ground arith)
    | inl full ↦ rw full (elim (Bool-cases (ltb 0 (length c.entries))) [
      | inl some_entry ↦ ground (
        arith,
        length-erase-has (range_first c.entries) c.entries,
        meets c.entries,
        h,
        some_entry,
      )
      | inr no_entry ↦ ground (arith, length-erase-le (range_first c.entries) c.entries, no_entry)
    ])
  ]

  length-entry_for :
      (c : CapabilityCache T R) (k : String) (e : CacheEntry T R)
      → length c.entries ≤ max 1 c.max_size
      → length (insert k e (entry_for range_first c k).0) ≤ max 1 c.max_size
  unfolding has entry_for
  length-entry_for c k e h = elim (Option-cases (lookup k c.entries)) [
    | inl none_yet ↦
        rw (none_yet, entry_for)
          (omega (arith, length-insert-le k e (make_room range_first c), length-make_room c h))
    | inr (old, there) ↦
        rw (there, entry_for) (omega (arith, length-insert-has k e c.entries (ap is_some there), h))
  ]

  step-size :
      (c : CapabilityCache T R) (op : Op T R)
      → size c ≤ max 1 c.max_size
      → (size (step range_first c op) ≤ max 1 c.max_size)
        × ((step range_first c op).max_size ≡ c.max_size)
  unfolding size store store_tools store_resources delete clear step
  step-size c (stores k ts rs now) h =
      (omega (arith, length-insert-le k _ (make_room range_first c), length-make_room c h), refl)
  step-size c (stores_tools k ts now) h = (length-entry_for c k _ h, refl)
  step-size c (stores_resources k rs now) h = (length-entry_for c k _ h, refl)
  step-size c (deletes k) h = (omega (arith, length-erase-le k c.entries, h), refl)
  step-size c clears h = (omega arith, refl)

  run-size :
      (c : CapabilityCache T R) (ops : List (Op T R))
      → size c ≤ max 1 c.max_size
      → size (run range_first c ops) ≤ max 1 c.max_size
  unfolding run
  run-size c [] h = h
  run-size c (op ∷ ops) h =
      let (le, same) = step-size c op h in
      subst (λ m. size (run range_first (step range_first c op) ops) ≤ max 1 m) same
        (run-size (step range_first c op) ops
          (subst (λ m. size (step range_first c op) ≤ max 1 m) (sym same) le))

  -- Whatever entry the range meets first, as long as it is one of the map, no operations bring a new
  -- cache above its maximum, or above one entry if that is 0.
  pub size_bounded :
      (max_size ttl : ℕ) (ops : List (Op T R))
      → size (run range_first (new_capability_cache max_size ttl) ops) ≤ max 1 max_size
  unfolding new_capability_cache size
  size_bounded max_size ttl ops = run-size (new_capability_cache max_size ttl) ops (omega arith)

module _ {ℓ} {T R : Type ℓ} (range_first : Dict (CacheEntry T R) → String) where
  lookup-make_room :
      (c : CapabilityCache T R) (k : String)
      → (lookup k (make_room range_first c) ≡ lookup k c.entries)
        ⊎ (lookup k (make_room range_first c) ≡ none)
  unfolding make_room
  lookup-make_room c k = ground (arith, lookup-erase (range_first c.entries) k c.entries)

  -- Behind a store a reader finds the stored entry until its time is over, and for another server
  -- what it found before, or nothing if that entry was evicted.
  pub store-get :
      (c : CapabilityCache T R) (k j : String) (tools : List T) (resources : List R) (now later : ℕ)
      → k ≢ j
      → let c' = store range_first c k tools resources now in
        (get c' k later ≡ (
          if ltb (now + c.ttl) later
          then none
          else some (record { tools = tools; resources = resources; expires_at = now + c.ttl })))
        × ((get c' j later ≡ get c j later) ⊎ (get c' j later ≡ none))
  unfolding get store live
  store-get c k j tools resources now later h = (
    rw (lookup-insert_self k _ (make_room range_first c)) refl,
    elim (lookup-make_room c j) [
      | inl kept ↦ inl (rw (lookup-insert_ne k j _ (make_room range_first c) h, kept) refl)
      | inr gone ↦ inr (rw (lookup-insert_ne k j _ (make_room range_first c) h, gone) refl)
    ],
  )

  store_tools-kept :
      (c : CapabilityCache T R) (k : String) (old : CacheEntry T R) (tools : List T) (now : ℕ)
      → lookup k c.entries ≡ some old
      → lookup k (store_tools range_first c k tools now).entries
        ≡ some (record old { tools = tools; expires_at = now + c.ttl })
  unfolding store_tools entry_for
  store_tools-kept c k old tools now there =
      rw (there, entry_for) (lookup-insert_self k _ c.entries)

  -- A store of the tools alone keeps the resources that the server's entry has, and gives them a new
  -- time to live, even if it had run out: a reader then finds resources that it did not find before.
  pub store_tools-renews :
      (c : CapabilityCache T R) (k : String) (old : CacheEntry T R) (tools : List T) (now later : ℕ)
      → lookup k c.entries ≡ some old
      → old.expires_at < now
      → later ≤ now + c.ttl
      → (get_resources c k now ≡ none)
        × (get_resources (store_tools range_first c k tools now) k later ≡ some old.resources)
        × (get_tools (store_tools range_first c k tools now) k later ≡ some tools)
  unfolding get_resources get_tools live
  store_tools-renews c k old tools now later there over in_time = (
    rw (there, lt→ltb old.expires_at now over) refl,
    rw (store_tools-kept c k old tools now there, le→not_ltb (now + c.ttl) later in_time) refl,
    rw (store_tools-kept c k old tools now there, le→not_ltb (now + c.ttl) later in_time) refl,
  )

pub get_tools-get {ℓ} :
    {T R : Type ℓ} (c : CapabilityCache T R) (k : String) (now : ℕ)
    → get_tools c k now ≡ tools_in (get c k now)
unfolding get_tools get
get_tools-get c k now = refl

pub get-delete {ℓ} :
    {T R : Type ℓ} (c : CapabilityCache T R) (k : String) (now : ℕ) → get (delete c k) k now ≡ none
unfolding get delete live
get-delete c k now = rw (lookup-erase_self k c.entries) refl

pub get-store {ℓ} :
    {T R : Type ℓ} (range_first : Dict (CacheEntry T R) → String) (c : CapabilityCache T R)
    (k : String) (tools : List T) (resources : List R) (now later : ℕ)
    → later ≤ now + c.ttl
    → get (store range_first c k tools resources now) k later
      ≡ some (record { tools = tools; resources = resources; expires_at = now + c.ttl })
unfolding get store live
get-store range_first c k tools resources now later in_time =
    rw (lookup-insert_self k _ (make_room range_first c), le→not_ltb (now + c.ttl) later in_time)
      refl
