-- ===== src/Skill/Registry/Tests.antt =====
-- registry.go: runs, and the instances of the theorems.
use claw_hermes_ai_go.Base.{◌≡◌, refl, none, some, List, [], ◌∷◌, str_eq, if◌then◌else◌}
use claw_hermes_ai_go.Base.Dict.{is_some, lookup, insert, erase, has}
use claw_hermes_ai_go.Skill.Registry.{
  Skill, Pool, Registry, pg_error, name_conflict, skill_in_use, new_registry, register, get,
  get_created_at, remove,
}
use claw_hermes_ai_go.Skill.Registry.Laws.{
  Op, registers, removes, run, run-get-get_created_at, Registered, register_outcomes,
}

-- A database in which the name "search" is taken, and the skill "a" is linked to an agent.
abbrev database : Pool
database = record {
  insert_skill = λ id name description kind config.
      if str_eq name "search" then some (pg_error "23505") else none;
  delete_skill = λ id. if str_eq id "a" then some (pg_error "23503") else none;
  marshal = λ v. none;
}

abbrev named_search : Skill
named_search = record { name = "search"; description = ""; kind = "code"; config = none }

abbrev named_sum : Skill
named_sum = record { name = "sum"; description = ""; kind = "code"; config = none }

abbrev with_sum : Registry
with_sum = record {
  skills = ("a", named_sum) ∷ [];
  created_at = ("a", 1) ∷ [];
  pool = some database;
}

conflict_run : (register with_sum 5 "a" named_search).1 ≡ some (name_conflict "search")
unfolding register insert erase
conflict_run = refl

-- The skill that was there before is gone.
forgotten_run : get (register with_sum 5 "a" named_search).0 "a" ≡ none
unfolding register get insert erase lookup
forgotten_run = refl

in_use_run : (remove with_sum "a").1 ≡ some (skill_in_use "a")
unfolding remove has lookup
in_use_run = refl

abbrev both_ways : List Op
both_ways =
    registers (some database) 3 "b" named_sum
    ∷ registers (some database) 4 "a" named_search
    ∷ removes none "b"
    ∷ []

run-get-get_created_at_example :
    is_some (get (run (new_registry none) both_ways) "b")
    ≡ is_some (get_created_at (run (new_registry none) both_ways) "b")
run-get-get_created_at_example = run-get-get_created_at none both_ways "b"

register_outcomes_example :
    Registered with_sum "a" named_search "a" (register with_sum 5 "a" named_search)
register_outcomes_example = register_outcomes with_sum 5 "a" named_search "a"
