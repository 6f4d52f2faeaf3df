-- ===== src/Agent/Discovery/Index.antt =====
-- discovery.go: the index of the capabilities against the peers.
use claw_hermes_ai_go.Base.{
  ℕ, ◌≡◌, refl, sym, ap, ◌∙◌, inl, inr, Bool, true, false, ◌&&◌, ◌||◌, Option, none, some, List, [],
  ◌∷◌, String, str_eq, eq_iff, if◌then◌else◌, arith, Bool-cases, Option-cases, some-ne-none,
}
use claw_hermes_ai_go.Base.Dict.{Dict, lookup, insert, erase, lookup-insert, lookup-erase}
use claw_hermes_ai_go.Agent.Discovery.{or_empty, index_all, put_or_drop, unindex, unindex_all}

look_in : String → Option (Dict ℕ) → Option ℕ
look_in id none = none
look_in id (some caps) = lookup id caps

-- The peer that the index has under a capability and an ID.
pub indexed : Dict (Dict ℕ) → String → String → Option ℕ
unfolding look_in
indexed index cap id = look_in id (lookup cap index)

look_in-or_empty : (id : String) (o : Option (Dict ℕ)) → look_in id o ≡ lookup id (or_empty o)
unfolding look_in or_empty lookup
look_in-or_empty id none = refl
look_in-or_empty id (some caps) = refl

-- The index behind a new map of a capability.
indexed-insert :
    (index : Dict (Dict ℕ)) (cap c i : String) (caps : Dict ℕ)
    → indexed (insert cap caps index) c i
      ≡ (if str_eq cap c then lookup i caps else indexed index c i)
unfolding indexed look_in
indexed-insert index cap c i caps = elim (Bool-cases (str_eq cap c)) [
  | inl e ↦ rw (lookup-insert cap c caps index, e) refl
  | inr n ↦ rw (lookup-insert cap c caps index, n) refl
]

indexed-put_or_drop :
    (index : Dict (Dict ℕ)) (cap c i : String) (caps : Dict ℕ)
    → indexed (put_or_drop cap caps index) c i
      ≡ (if str_eq cap c then lookup i caps else indexed index c i)
unfolding put_or_drop
indexed-put_or_drop index cap c i (e ∷ caps) = indexed-insert index cap c i (e ∷ caps)
indexed-put_or_drop index cap c i [] =
    unfold indexed in
    unfold look_in in
    elim (Bool-cases (str_eq cap c)) [
      | inl e ↦ rw (lookup-erase cap c index, e) (unfold lookup in refl)
      | inr n ↦ rw (lookup-erase cap c index, n) refl
    ]

-- The map of a capability, read under an ID, is the index.
indexed-at :
    (index : Dict (Dict ℕ)) (cap c i : String)
    → str_eq cap c ≡ true
    → lookup i (or_empty (lookup cap index)) ≡ indexed index c i
unfolding indexed
indexed-at index cap c i e =
    sym (look_in-or_empty i (lookup cap index))
    ∙ ap (λ k. look_in i (lookup k index)) ((eq_iff cap c).0 e)

indexed-add :
    (index : Dict (Dict ℕ)) (id cap i c : String) (p : ℕ)
    → indexed (insert cap (insert id p (or_empty (lookup cap index))) index) c i
      ≡ (if str_eq cap c && str_eq id i then some p else indexed index c i)
indexed-add index id cap i c p = elim (Bool-cases (str_eq cap c)) [
  | inr n ↦ rw (indexed-insert index cap c i (insert id p (or_empty (lookup cap index))), n) refl
  | inl e ↦
      rw
        (
          indexed-insert index cap c i (insert id p (or_empty (lookup cap index))),
          e,
          lookup-insert id i p (or_empty (lookup cap index)),
          indexed-at index cap c i e,
        )
        refl
]

no_change : (b : Bool) → ◌≡◌ {A = Option ℕ} (if b then none else none) none
no_change true = refl
no_change false = refl

empty-lookup : (i : String) → lookup i (or_empty none) ≡ none
unfolding or_empty lookup
empty-lookup i = refl

full-lookup : (i : String) (caps : Dict ℕ) → lookup i (or_empty (some caps)) ≡ lookup i caps
unfolding or_empty
full-lookup i caps = refl

indexed-unindex :
    (index : Dict (Dict ℕ)) (id cap i c : String)
    → indexed (unindex id cap (lookup cap index) index) c i
      ≡ (if str_eq cap c && str_eq id i then none else indexed index c i)
unfolding unindex
indexed-unindex index id cap i c = elim (Option-cases (lookup cap index)) [
  | inl e ↦ elim (Bool-cases (str_eq cap c)) [
    | inr n ↦ rw (e, unindex, n) refl
    | inl y ↦
        let gone : indexed index c i ≡ none =
          sym (indexed-at index cap c i y) ∙ ap (λ o. lookup i (or_empty o)) e ∙ empty-lookup i in
        rw (e, unindex, y, gone) (sym (no_change (str_eq id i)))
  ]
  | inr (caps, e) ↦ elim (Bool-cases (str_eq cap c)) [
    | inr n ↦ rw (e, unindex, indexed-put_or_drop index cap c i (erase id caps), n) refl
    | inl y ↦
        let there : indexed index c i ≡ lookup i caps =
          sym (indexed-at index cap c i y)
          ∙ ap (λ o. lookup i (or_empty o)) e
          ∙ full-lookup i caps in
        rw
          (
            e,
            unindex,
            indexed-put_or_drop index cap c i (erase id caps),
            y,
            there,
            lookup-erase id i caps,
          )
          refl
  ]
]

-- A capability is one of the list.
unfoldable pub listed : String → List String → Bool
listed c [] = false
listed c (cap ∷ caps) = str_eq cap c || listed c caps

pub indexed-index_all :
    (index : Dict (Dict ℕ)) (id i c : String) (p : ℕ) (caps : List String)
    → indexed (index_all id p caps index) c i
      ≡ (if listed c caps && str_eq id i then some p else indexed index c i)
unfolding index_all listed
indexed-index_all index id i c p [] = refl
indexed-index_all index id i c p (cap ∷ caps) =
    let added = insert cap (insert id p (or_empty (lookup cap index))) index in
    ground (arith, indexed-index_all added id i c p caps, indexed-add index id cap i c p)

pub indexed-unindex_all :
    (index : Dict (Dict ℕ)) (id i c : String) (caps : List String)
    → indexed (unindex_all id caps index) c i
      ≡ (if listed c caps && str_eq id i then none else indexed index c i)
unfolding unindex_all listed
indexed-unindex_all index id i c [] = refl
indexed-unindex_all index id i c (cap ∷ caps) =
    let removed = unindex id cap (lookup cap index) index in
    ground (arith, indexed-unindex_all removed id i c caps, indexed-unindex index id cap i c)

look_in-some :
    (o : Option (Dict ℕ)) (id : String) (p : ℕ)
    → look_in id o ≡ some p
    → (caps : Dict ℕ) × (o ≡ some caps) × (lookup id caps ≡ some p)
unfolding look_in
look_in-some none id p e = absurd (some-ne-none (sym e))
look_in-some (some caps) id p e = (caps, refl, e)

-- An indexed peer stands in the map of the capability.
pub indexed-some :
    (index : Dict (Dict ℕ)) (c id : String) (p : ℕ)
    → indexed index c id ≡ some p
    → (caps : Dict ℕ) × (lookup c index ≡ some caps) × (lookup id caps ≡ some p)
unfolding indexed
indexed-some index c id p e = look_in-some (lookup c index) id p e
