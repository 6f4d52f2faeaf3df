-- ===== src/Agent/Discovery/Found.antt =====
-- discovery.go: a search for peers finds those that are registered.
use claw_hermes_ai_go.Base.{
  ℕ, ◌≡◌, refl, sym, subst, inl, inr, true, some, List, [], ◌∷◌, String, str_eq, eq_iff, Bool-cases,
  some_inj, some-ne-none, All,
}
use mathlib.Core.List.{Mem, mem-cons_self, mem-cons_of_mem}
use claw_hermes_ai_go.Base.Dict.{Dict, lookup, has, is_some}
use claw_hermes_ai_go.Agent.Discovery.{
  Op, run, DiscoveryService, new_discovery_service, or_empty, intersect, narrow, candidates_for,
  get_peers_with_capabilities, get_all_peers, pointers,
}
use claw_hermes_ai_go.Agent.Discovery.Index.{indexed, listed, indexed-some}
use claw_hermes_ai_go.Agent.Discovery.Complete.{IsComplete, run-IsComplete, new-IsComplete}

lookup-intersect :
    (caps candidates : Dict ℕ) (id : String) (p q : ℕ)
    → lookup id caps ≡ some q
    → lookup id candidates ≡ some p
    → lookup id (intersect caps candidates) ≡ some p
unfolding intersect has lookup
lookup-intersect caps [] id p q there e = e
lookup-intersect caps ((i, r) ∷ rest) id p q there e = elim (Bool-cases (str_eq i id)) [
  | inl same ↦
      let is_in : is_some (lookup i caps) ≡ true = rw ((eq_iff i id).0 same, there) refl in
      rw (is_in, same) (rw same at e)
  | inr other ↦
      let later = lookup-intersect caps rest id p q there (rw other at e) in
      elim (Bool-cases (is_some (lookup i caps))) [
        | inl y ↦ rw (y, other) later
        | inr n ↦ rw n later
      ]
]

lookup-narrow :
    (d : DiscoveryService) (candidates : Dict ℕ) (caps : List String) (id : String) (p : ℕ)
    → lookup id candidates ≡ some p
    → All (λ (c : String). indexed d.capabilities c id ≡ some p) caps
    → lookup id (narrow d candidates caps) ≡ some p
unfolding narrow
lookup-narrow d candidates [] id p e h = e
lookup-narrow d candidates (c ∷ caps) id p e h =
    let (there, found, at) = indexed-some d.capabilities c id p h.0 in
    rw (found, narrow)
      (lookup-narrow d (intersect there candidates) caps id p
        (lookup-intersect there candidates id p p at e) h.1)

Mem-pointers : (m : Dict ℕ) (id : String) (p : ℕ) → lookup id m ≡ some p → Mem p (pointers m)
unfolding pointers lookup
Mem-pointers [] id p e = absurd (some-ne-none (sym e))
Mem-pointers ((i, q) ∷ m) id p e = elim (Bool-cases (str_eq i id)) [
  | inl same ↦
      let r : q ≡ p = some_inj (rw same at e) in
      subst (λ x. Mem p (x ∷ pointers m)) (sym r) mem-cons_self
  | inr other ↦ mem-cons_of_mem q (Mem-pointers m id p (rw other at e))
]

each_required_indexed :
    (d : DiscoveryService) (id : String) (p : ℕ) (required : List String)
    → IsComplete d
    → lookup id d.peers ≡ some p
    → All (λ (c : String). listed c (d.heap p).capabilities ≡ true) required
    → All (λ (c : String). indexed d.capabilities c id ≡ some p) required
each_required_indexed d id p [] h there has_all = tt
each_required_indexed d id p (c ∷ required) h there has_all =
    (h.in_index id c p there has_all.0, each_required_indexed d id p required h there has_all.1)

complete_search :
    (d : DiscoveryService) (required : List String) (id : String) (p : ℕ)
    → IsComplete d
    → lookup id d.peers ≡ some p
    → All (λ (c : String). listed c (d.heap p).capabilities ≡ true) required
    → Mem p (get_peers_with_capabilities d required)
unfolding get_peers_with_capabilities get_all_peers candidates_for or_empty
complete_search d [] id p h there has_all = Mem-pointers d.peers id p there
complete_search d (c ∷ required) id p h there has_all =
    let (first, others) = each_required_indexed d id p (c ∷ required) h there has_all in
    let (caps, found, at) = indexed-some d.capabilities c id p first in
    Mem-pointers (candidates_for d c required) id p (
      lookup-narrow d (or_empty (lookup c d.capabilities)) required id p (rw (found, or_empty) at)
        others)

-- Whatever methods have been called on a new service, a search for peers finds each registered peer
-- that has all required capabilities; where nothing is required, it finds every registered peer.
pub search_finds :
    (ops : List Op) (required : List String) (id : String) (p : ℕ)
    → lookup id (run new_discovery_service ops).peers ≡ some p
    → All
        (λ (c : String). listed c ((run new_discovery_service ops).heap p).capabilities ≡ true)
        required
    → Mem p (get_peers_with_capabilities (run new_discovery_service ops) required)
search_finds ops required id p there has_all =
    complete_search (run new_discovery_service ops) required id p
      (run-IsComplete new_discovery_service ops new-IsComplete) there has_all
