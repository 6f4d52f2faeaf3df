-- ===== src/Skill/Registry.antt =====
-- internal/orchestrator/registry.go: the skills of a tenant, in memory and in its database. Each method
-- takes the mutex for every access to the maps, and the database works between two of them; here a
-- method is one operation. The database is a parameter: its two statements answer with an error or
-- none. Of a skill its name, description, type and configuration are kept.
pub mod Laws
mod Tests
use claw_hermes_ai_go.Base.{
  ℕ, Bool, true, false, Option, none, some, List, [], ◌∷◌, String, str_eq, map, if◌then◌else◌,
}
use claw_hermes_ai_go.Base.Dict.{Dict, lookup, insert, erase, has}
use claw_hermes_ai_go.SkillGateway.Types.{Value}

-- The configuration of a skill that has `GetConfig`.
pub record Skill : Type 0 where
  pub name : String
  pub description : String
  pub kind : String
  pub config : Option Value

-- An error of the database has a code of PostgreSQL or not.
pub data DbError : Type 0 where
  pg_error : String → DbError
  other_error : String → DbError

-- The statements, and `json.Marshal`.
pub record Pool : Type 0 where
  pub insert_skill : String → String → String → String → String → Option DbError
  pub delete_skill : String → Option DbError
  pub marshal : Value → Option String

pub record Registry : Type 0 where
  pub skills : Dict Skill
  pub created_at : Dict ℕ
  pub pool : Option Pool

pub data RegistryError : Type 0 where
  name_conflict : String → RegistryError
  persist : String → DbError → RegistryError
  skill_not_found : String → RegistryError
  skill_in_use : String → RegistryError
  of_database : DbError → RegistryError

pub new_registry : Option Pool → Registry
new_registry pool = record { skills = []; created_at = []; pool = pool }

has_code : String → DbError → Bool
has_code code (pg_error c) = str_eq c code
has_code code (other_error text) = false

-- What is written as the configuration.
config_json : Pool → Option Value → String
config_json pool none = "{}"
config_json pool (some config) = elim (pool.marshal config) [ none ↦ "{}" | some json ↦ json ]

pub put : Registry → String → Skill → ℕ → Registry
put r id s now = record r { skills = insert id s r.skills; created_at = insert id now r.created_at }

pub forget : Registry → String → Registry
forget r id = record r { skills = erase id r.skills; created_at = erase id r.created_at }

-- A skill that is in memory already, and what the database said of it.
settle : Registry → String → Skill → Option DbError → Registry × Option RegistryError
unfolding has_code forget
settle r id s none = (r, none)
settle r id s (some e) =
    if has_code "23505" e
    then (forget r id, some (name_conflict s.name))
    else (r, some (persist id e))

persisted : Option Pool → String → Skill → Option DbError
unfolding config_json
persisted none id s = none
persisted (some pool) id s =
    pool.insert_skill id s.name s.description s.kind (config_json pool s.config)

pub register : Registry → ℕ → String → Skill → Registry × Option RegistryError
unfolding settle persisted put
register r now id s = settle (put r id s now) id s (persisted r.pool id s)

pub get : Registry → String → Option Skill
get r id = lookup id r.skills

pub get_created_at : Registry → String → Option ℕ
get_created_at r id = lookup id r.created_at

pub get_all : Registry → List Skill
get_all r = map (λ (entry : String × Skill). entry.1) r.skills

deleted : Option Pool → String → Option DbError
deleted none id = none
deleted (some pool) id = pool.delete_skill id

drop_skill : Registry → String → Option DbError → Registry × Option RegistryError
unfolding has_code forget
drop_skill r id none = (forget r id, none)
drop_skill r id (some e) =
    if has_code "23503" e then (r, some (skill_in_use id)) else (r, some (of_database e))

pub remove : Registry → String → Registry × Option RegistryError
unfolding drop_skill deleted
remove r id =
    if has id r.skills then drop_skill r id (deleted r.pool id) else (r, some (skill_not_found id))
