-- ===== src/SkillGateway/Registry/Tests.antt =====
-- provider.go: registration at a registry that holds one provider.
use claw_hermes_ai_go.Base.{refl}
use claw_hermes_ai_go.Base.Dict.{lookup}
use claw_hermes_ai_go.SkillGateway.Registry.{type_of, type_or_unknown}
use claw_hermes_ai_go.Base.{none, some, true, [], ◌∷◌, String, if◌then◌else◌, ◌≡◌, ◌⊎◌, All}
use claw_hermes_ai_go.Base.Dict.{has}
use claw_hermes_ai_go.SkillGateway.Registry.{
  SkillProvider, ProviderRegistry, register, resolve, already_registered,
}
use claw_hermes_ai_go.SkillGateway.Registry.Laws.{contains, register_whole_or_nothing}

abbrev files : SkillProvider
files = record { name = "files"; skill_ids = "read" ∷ "write" ∷ []; skill_type = "builtin" }

abbrev web : SkillProvider
web = record { name = "web"; skill_ids = "fetch" ∷ "read" ∷ []; skill_type = "mcp" }

abbrev registry : ProviderRegistry
registry = ("read", files) ∷ ("write", files) ∷ []

register_whole_or_nothing_example :
    ((k : String) × (contains k web.skill_ids ≡ true)
      × (has k registry ≡ true)
      × (register registry web ≡ (registry, some (already_registered k))))
    ⊎ (((register registry web).1 ≡ none)
        × All (λ (k : String). resolve registry k ≡ none) web.skill_ids
        × ((k : String)
            → resolve (register registry web).0 k
              ≡ (if contains k web.skill_ids then some web else resolve registry k)))
register_whole_or_nothing_example = register_whole_or_nothing registry web

types_of_skills : (type_of registry "read" ≡ "builtin") × (type_of registry "fetch" ≡ "unknown")
unfolding type_of type_or_unknown lookup
types_of_skills = (refl, refl)
