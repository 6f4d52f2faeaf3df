-- ===== src/SkillGateway/Registry.antt =====
-- internal/skillgateway/provider.go: the registry that routes a skill ID to its provider. What a
-- provider does when it runs a skill belongs to the environment of a request (SkillGateway/Atomic).
pub mod Laws
mod Tests
use claw_hermes_ai_go.Base.{
  Option, none, some, Bool, true, false, List, [], ◌∷◌, ◌++◌, String, str_append, if◌then◌else◌,
  ◌||◌,
}
use claw_hermes_ai_go.Base.Dict.{Dict, lookup, insert, has}
use claw_hermes_ai_go.SkillGateway.Types.{SkillError, skill_already_exists}

pub record SkillProvider : Type 0 where
  pub name : String
  pub skill_ids : List String
  pub skill_type : String

abbrev pub ProviderRegistry : Type 0
ProviderRegistry = Dict SkillProvider

-- The first loop of `Register`: the first ID that is taken.
pub taken : ProviderRegistry → List String → Option String
taken r [] = none
taken r (id ∷ ids) = if has id r then some id else taken r ids

-- The second loop.
pub put_all : ProviderRegistry → SkillProvider → List String → ProviderRegistry
put_all r p [] = r
put_all r p (id ∷ ids) = put_all (insert id p r) p ids

pub already_registered : String → SkillError
already_registered id = record {
  code = skill_already_exists;
  message = str_append "skill already registered: " id;
  trace_id = "";
  cause = none;
}

pub register : ProviderRegistry → SkillProvider → ProviderRegistry × Option SkillError
register r p = elim (taken r p.skill_ids) [
  | some id ↦ (r, some (already_registered id))
  | none ↦ (put_all r p p.skill_ids, none)
]

unfoldable pub resolve : ProviderRegistry → String → Option SkillProvider
resolve r skill_id = lookup skill_id r

type_or_unknown : Option SkillProvider → String
type_or_unknown (some p) = p.skill_type
type_or_unknown none = "unknown"

pub type_of : ProviderRegistry → String → String
unfolding type_or_unknown
type_of r skill_id = type_or_unknown (lookup skill_id r)
