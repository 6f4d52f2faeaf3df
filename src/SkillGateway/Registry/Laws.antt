-- ===== src/SkillGateway/Registry/Laws.antt =====
-- provider.go: what a registration does to the registry.
use claw_hermes_ai_go.Base.{
  none, some, Bool, true, false, List, [], ◌∷◌, String, if◌then◌else◌, ◌||◌, ◌≡◌, refl, arith,
  str_eq, eq_refl, All, ◌⊎◌, inl, inr, Option-cases, some-ne-none,
}
use claw_hermes_ai_go.Base.Dict.{lookup, insert, has, lookup-insert}
use claw_hermes_ai_go.SkillGateway.Registry.{
  SkillProvider, ProviderRegistry, taken, put_all, register, resolve, already_registered,
}

pub contains : String → List String → Bool
contains k [] = false
contains k (id ∷ ids) = str_eq id k || contains k ids

resolve-put_all :
    (r : ProviderRegistry) (p : SkillProvider) (ids : List String) (k : String)
    → resolve (put_all r p ids) k ≡ (if contains k ids then some p else resolve r k)
unfolding put_all contains resolve
resolve-put_all r p [] k = refl
resolve-put_all r p (id ∷ ids) k =
    ground (arith, resolve-put_all (insert id p r) p ids k, lookup-insert id k p r)

taken-some :
    (r : ProviderRegistry) (ids : List String) (k : String)
    → taken r ids ≡ some k
    → (contains k ids ≡ true) × (has k r ≡ true)
unfolding taken contains
taken-some r [] k e = cc
taken-some r (id ∷ ids) k e = ground (arith, taken-some r ids k, eq_refl k)

taken-fresh :
    (r : ProviderRegistry) (ids : List String)
    → taken r ids ≡ none
    → All (λ (k : String). resolve r k ≡ none) ids
unfolding taken resolve has
taken-fresh r [] e = tt
taken-fresh r (id ∷ ids) e = elim (Option-cases (lookup id r)) [
  | inl h ↦ (h, taken-fresh r ids (rest h))
  | inr (p, h) ↦ absurd (some-ne-none (held p h))
]
  where
    rest : lookup id r ≡ none → taken r ids ≡ none
    rest h = ground (arith, e, h)

    held : (p : SkillProvider) → lookup id r ≡ some p → some id ≡ none
    held p h = ground (arith, e, h)

-- A registration does one of two things. Either some ID of the provider is taken: then it fails for
-- that ID and changes nothing. Or none of its IDs was taken: then it succeeds, each of them resolves
-- to the provider from now on, and every other ID resolves as before.
pub register_whole_or_nothing :
    (r : ProviderRegistry) (p : SkillProvider)
    → ((k : String) × (contains k p.skill_ids ≡ true)
        × (has k r ≡ true)
        × (register r p ≡ (r, some (already_registered k))))
      ⊎ (((register r p).1 ≡ none)
          × All (λ (k : String). resolve r k ≡ none) p.skill_ids
          × ((k : String)
              → resolve (register r p).0 k
                ≡ (if contains k p.skill_ids then some p else resolve r k)))
unfolding register
register_whole_or_nothing r p = elim (Option-cases (taken r p.skill_ids)) [
  | inl e ↦ inr (
    rw (e, register) refl,
    taken-fresh r p.skill_ids e,
    λ k. rw (e, register) (resolve-put_all r p p.skill_ids k),
  )
  | inr (k, e) ↦ let (c, h) = taken-some r p.skill_ids k e in inl (k, c, h, rw (e, register) refl)
]
