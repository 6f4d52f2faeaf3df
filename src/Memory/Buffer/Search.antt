-- ===== src/Memory/Buffer/Search.antt =====
-- short_term.go: `Search` against the list of all hits.
use claw_hermes_ai_go.Base.{
  ℕ, zero, suc, ◌+◌, ◌≡◌, refl, ap, true, false, none, some, List, [], ◌∷◌, take, arith, Bool-cases,
  Option-cases, inl, inr, if◌then◌else◌, le→leb, lt→not_leb,
}
use claw_hermes_ai_go.Base.Int.{ℤ, pos, negsuc, not_positive, rounds}
use claw_hermes_ai_go.Memory.Buffer.{
  MemoryEntry, ConversationBufferMemory, MemorySearchRequest, Score, score_of, search_from, search,
}

-- Every entry that passes the filters, with its score, in the order of the memory.
pub hits : MemorySearchRequest → List MemoryEntry → List (MemoryEntry × Score)
hits req [] = []
hits req (e ∷ es) = elim (score_of req e) [
  | none ↦ hits req es
  | some score ↦ (e, score) ∷ hits req es
]

module _ (req : MemorySearchRequest) where
  search_from-unlimited :
      (found : ℕ) (es : List MemoryEntry)
      → not_positive req.limit ≡ true
      → search_from req found es ≡ hits req es
  unfolding search_from hits
  search_from-unlimited found [] h = refl
  search_from-unlimited found (e ∷ es) h = elim (Option-cases (score_of req e)) [
    | inl no_hit ↦ rw (no_hit, search_from, hits) (search_from-unlimited found es h)
    | inr (score, hit) ↦
        rw (hit, search_from, hits, h)
          (ap (λ rest. (e, score) ∷ rest) (search_from-unlimited (found + 1) es h))
  ]

  search_from-limited :
      (left found : ℕ) (es : List MemoryEntry)
      → not_positive req.limit ≡ false
      → found + suc left ≡ rounds req.limit
      → search_from req found es ≡ take (suc left) (hits req es)
  unfolding search_from hits
  search_from-limited left found [] h e = refl
  search_from-limited zero found (entry ∷ es) h e = elim (Option-cases (score_of req entry)) [
    | inl no_hit ↦ rw (no_hit, search_from, hits) (search_from-limited zero found es h e)
    | inr (score, hit) ↦
        rw (hit, search_from, hits, h, le→leb (rounds req.limit) (found + 1) (omega arith)) refl
  ]
  search_from-limited (suc left) found (entry ∷ es) h e = elim (Option-cases (score_of req entry)) [
    | inl no_hit ↦ rw (no_hit, search_from, hits) (search_from-limited (suc left) found es h e)
    | inr (score, hit) ↦
        rw (hit, search_from, hits, h, lt→not_leb (rounds req.limit) (found + 1) (omega arith))
          (ap (λ rest. (entry, score) ∷ rest)
            (search_from-limited left (found + 1) es h (omega arith)))
  ]

  positive-rounds : (n : ℤ) → not_positive n ≡ false → (k : ℕ) × (rounds n ≡ suc k)
  positive-rounds (pos zero) h = absurd (cc)
  positive-rounds (pos (suc k)) h = (k, refl)
  positive-rounds (negsuc k) h = absurd (cc)

-- What the caller asks for: the first `limit` elements, or all of them without a positive limit.
abbrev pub up_to {ℓ} : {A : Type ℓ} → ℤ → List A → List A
up_to limit xs = if not_positive limit then xs else take (rounds limit) xs

-- A search finds the first hits of the memory, as many as the limit, or all without a limit.
pub search-hits :
    (m : ConversationBufferMemory) (req : MemorySearchRequest)
    → search m req ≡ up_to req.limit (hits req m.memory)
unfolding search
search-hits m req = elim (Bool-cases (not_positive req.limit)) [
  | inl unlimited ↦ rw unlimited (search_from-unlimited req 0 m.memory unlimited)
  | inr limited ↦
      let (left, e) = positive-rounds req req.limit limited in
      rw (limited, e) (search_from-limited req left 0 m.memory limited (omega arith))
]
