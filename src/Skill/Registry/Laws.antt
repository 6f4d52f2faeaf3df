-- ===== src/Skill/Registry/Laws.antt =====
-- registry.go: what the operations leave in the two maps.
use claw_hermes_ai_go.Base.{
  ℕ, ◌≡◌, refl, ◌⊎◌, inl, inr, Option, none, some, List, [], ◌∷◌, String, str_eq, if◌then◌else◌,
  Bool-cases, arith,
}
use claw_hermes_ai_go.Base.Dict.{lookup-insert, lookup-erase, lookup, insert, has, is_some}
use claw_hermes_ai_go.Skill.Registry.{
  Skill, DbError, Pool, Registry, RegistryError, name_conflict, persist, new_registry, has_code,
  put, forget, settle, persisted, register, get, get_created_at, drop_skill, deleted, remove,
}

-- An operation, with the database as it is then.
pub data Op : Type 0 where
  registers : Option Pool → ℕ → String → Skill → Op
  removes : Option Pool → String → Op

pub run : Registry → List Op → Registry
unfolding register remove
run r [] = r
run r (registers pool now id s ∷ ops) = run (register (record r { pool = pool }) now id s).0 ops
run r (removes pool id ∷ ops) = run (remove (record r { pool = pool }) id).0 ops

abbrev SameKeys : Registry → Type 0
SameKeys r = (key : String) → has key r.skills ≡ has key r.created_at

put-SameKeys :
    (r : Registry) (id : String) (s : Skill) (now : ℕ) → SameKeys r → SameKeys (put r id s now)
unfolding put has
put-SameKeys r id s now h key =
    ground (arith, h key, lookup-insert id key s r.skills, lookup-insert id key now r.created_at)

forget-SameKeys : (r : Registry) (id : String) → SameKeys r → SameKeys (forget r id)
unfolding forget has
forget-SameKeys r id h key =
    ground (arith, h key, lookup-erase id key r.skills, lookup-erase id key r.created_at)

settle-SameKeys :
    (r : Registry) (id : String) (s : Skill) (e : Option DbError)
    → SameKeys r
    → SameKeys (settle r id s e).0
unfolding settle
settle-SameKeys r id s none h = h
settle-SameKeys r id s (some e) h = elim (Bool-cases (has_code "23505" e)) [
  | inl conflict ↦ rw conflict (forget-SameKeys r id h)
  | inr no_conflict ↦ rw no_conflict h
]

drop_skill-SameKeys :
    (r : Registry) (id : String) (e : Option DbError) → SameKeys r → SameKeys (drop_skill r id e).0
unfolding drop_skill
drop_skill-SameKeys r id none h = forget-SameKeys r id h
drop_skill-SameKeys r id (some e) h = elim (Bool-cases (has_code "23503" e)) [
  | inl linked ↦ rw linked h
  | inr not_linked ↦ rw not_linked h
]

remove-SameKeys : (r : Registry) (id : String) → SameKeys r → SameKeys (remove r id).0
unfolding remove
remove-SameKeys r id h = elim (Bool-cases (has id r.skills)) [
  | inl there ↦ rw there (drop_skill-SameKeys r id (deleted r.pool id) h)
  | inr not_there ↦ rw not_there h
]

run-SameKeys : (r : Registry) (ops : List Op) → SameKeys r → SameKeys (run r ops)
unfolding run register
run-SameKeys r [] h = h
run-SameKeys r (registers pool now id s ∷ ops) h =
    run-SameKeys (register (record r { pool = pool }) now id s).0 ops (
      settle-SameKeys (put (record r { pool = pool }) id s now) id s (persisted pool id s)
        (put-SameKeys (record r { pool = pool }) id s now h))
run-SameKeys r (removes pool id ∷ ops) h =
    run-SameKeys (remove (record r { pool = pool }) id).0 ops
      (remove-SameKeys (record r { pool = pool }) id h)

-- After any operations, whatever the database has answered to each, `Get` finds a skill under an ID
-- exactly when `GetCreatedAt` finds a time.
pub run-get-get_created_at :
    (pool : Option Pool) (ops : List Op) (key : String)
    → is_some (get (run (new_registry pool) ops) key)
      ≡ is_some (get_created_at (run (new_registry pool) ops) key)
unfolding get get_created_at new_registry has lookup
run-get-get_created_at pool ops key = run-SameKeys (new_registry pool) ops (λ k. refl) key

-- The outcome of a registration, as `Get` sees it under a key.
pub Registered : Registry → String → Skill → String → Registry × Option RegistryError → Type 0
unfolding get
Registered r id s key o =
    ((o.1 ≡ some (name_conflict s.name))
      × (get o.0 key ≡ (if str_eq id key then none else get r key)))
    ⊎ (((o.1 ≡ none) ⊎ ((e : DbError) × (o.1 ≡ some (persist id e))))
        × (get o.0 key ≡ (if str_eq id key then some s else get r key)))

settle-Registered :
    (r : Registry) (now : ℕ) (id : String) (s : Skill) (key : String) (e : Option DbError)
    → Registered r id s key (settle (put r id s now) id s e)
unfolding settle put forget get Registered
settle-Registered r now id s key none = inr (inl refl, lookup-insert id key s r.skills)
settle-Registered r now id s key (some e) = elim (Bool-cases (has_code "23505" e)) [
  | inl conflict ↦ rw conflict (
      inl (
        refl,
        ground (arith, lookup-erase id key (insert id s r.skills), lookup-insert id key s r.skills),
      ))
  | inr no_conflict ↦ rw no_conflict (inr (inr (e, refl), lookup-insert id key s r.skills))
]

-- A registration ends in one of two ways. When it reports a conflict of names, `Get` no longer finds a
-- skill under the ID, also when it found one before. When it reports nothing, or that the database has
-- failed, `Get` finds the new skill. In both cases it finds under every other ID what it found before.
pub register_outcomes :
    (r : Registry) (now : ℕ) (id : String) (s : Skill) (key : String)
    → Registered r id s key (register r now id s)
unfolding register
register_outcomes r now id s key = settle-Registered r now id s key (persisted r.pool id s)
