-- ===== src/TextChunk/Breaks/Searching.antt =====
-- `strings.HasPrefix` and `strings.Index`, as chunker.go and analyzer.go call them.
use claw_hermes_ai_go.Base.{
  ℕ, zero, suc, ◌+◌, ◌<◌, ◌≡◌, refl, subst, true, false, none, some, some_inj, [], ◌∷◌, ◌++◌, ◌==◌,
  arith, drop, Bool-cases, Option-cases, inl, inr,
}
use claw_hermes_ai_go.TextChunk.Runes.{Bytes}
use claw_hermes_ai_go.TextChunk.Breaks.{has_prefix, index_of}

-- A prefix is what a text begins with.
pub has_prefix-append :
    (s name : Bytes) → has_prefix s name ≡ true → (rest : Bytes) × (s ≡ name ++ rest)
unfolding has_prefix
has_prefix-append s [] e = (s, refl)
has_prefix-append [] (b ∷ bs) e = absurd (cc)
has_prefix-append (a ∷ s) (b ∷ bs) e = elim (Bool-cases (a == b)) [
  | inl same ↦
      let (rest, cut) = has_prefix-append s bs (rw same at e) in
      let eq : a ≡ b = ground (arith, same) in (rest, rw (eq, cut) refl)
  | inr other ↦ absurd (cc (rw other at e))
]

pub append-has_prefix : (name rest : Bytes) → has_prefix (name ++ rest) name ≡ true
unfolding has_prefix
append-has_prefix [] rest = refl
append-has_prefix (b ∷ bs) rest = ground (arith, append-has_prefix bs rest)

-- The first place at which a text has a prefix.
pub record First (s name : Bytes) (i : ℕ) : Type 0 where
  pub here : has_prefix (drop i s) name ≡ true
  pub not_before : (j : ℕ) → j < i → has_prefix (drop j s) name ≡ false

First-zero : (s name : Bytes) → has_prefix s name ≡ true → First s name 0
First-zero s name e = record { here = e; not_before = λ j lt. absurd (omega (arith, lt)) }

First-later :
    (a : ℕ) (s name : Bytes) (k : ℕ)
    → has_prefix (a ∷ s) name ≡ false
    → First s name k
    → First (a ∷ s) name (suc k)
First-later a s name k e f = record { here = f.here; not_before = before }
  where
    before : (j : ℕ) → j < suc k → has_prefix (drop j (a ∷ s)) name ≡ false
    before zero lt = e
    before (suc j) lt = f.not_before j (omega (arith, lt))

pub index_of-First : (s name : Bytes) (i : ℕ) → index_of s name ≡ some i → First s name i
unfolding index_of
index_of-First [] name i e = elim (Bool-cases (has_prefix [] name)) [
  | inl here ↦ subst (First [] name) (some_inj (rw here at e)) (First-zero [] name here)
  | inr later ↦ absurd (cc (rw later at e))
]
index_of-First (a ∷ s) name i e = elim (Bool-cases (has_prefix (a ∷ s) name)) [
  | inl here ↦ subst (First (a ∷ s) name) (some_inj (rw here at e)) (First-zero (a ∷ s) name here)
  | inr later ↦ elim (Option-cases (index_of s name)) [
    | inl absent ↦ absurd (cc (rw (later, absent) at e))
    | inr (k, found) ↦
        let f = First-later a s name k later (index_of-First s name k found) in
        let same : k + 1 ≡ i = some_inj (rw (later, found) at e) in
        let eq : suc k ≡ i = omega (arith, same) in subst (First (a ∷ s) name) eq f
  ]
]

elsewhere :
    (j a : ℕ) (s name : Bytes)
    → has_prefix (a ∷ s) name ≡ false
    → ((k : ℕ) → has_prefix (drop k s) name ≡ false)
    → has_prefix (drop j (a ∷ s)) name ≡ false
elsewhere zero a s name later absent = later
elsewhere (suc j) a s name later absent = absent j

-- Without an index there is no such place.
pub index_of-none :
    (s : Bytes) (b : ℕ) (bs : Bytes) (j : ℕ)
    → index_of s (b ∷ bs) ≡ none
    → has_prefix (drop j s) (b ∷ bs) ≡ false
unfolding index_of has_prefix
index_of-none [] b bs zero e = refl
index_of-none [] b bs (suc j) e = refl
index_of-none (a ∷ s) b bs j e = elim (Bool-cases (has_prefix (a ∷ s) (b ∷ bs))) [
  | inl here ↦ absurd (cc (rw here at e))
  | inr later ↦ elim (Option-cases (index_of s (b ∷ bs))) [
    | inl absent ↦ elsewhere j a s (b ∷ bs) later (λ k. index_of-none s b bs k absent)
    | inr (k, found) ↦ absurd (cc (rw (later, found) at e))
  ]
]

pub index_of-empty : (s : Bytes) → index_of s [] ≡ some 0
unfolding index_of has_prefix
index_of-empty [] = refl
index_of-empty (b ∷ bs) = refl
