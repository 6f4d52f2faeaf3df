-- ===== src/Skill/Analyzer/Tokens.antt =====
-- analyzer.go: what `containsToken` finds.
use claw_hermes_ai_go.Base.{
  ℕ, zero, suc, ◌+◌, ◌-◌, ◌≤◌, ◌<◌, ◌≡◌, refl, sym, ap, ◌∙◌, subst, ◌↔◌, ◌≢◌, inl, inr, Bool, true,
  false, ◌&&◌, Option, none, some, [], ◌∷◌, ◌++◌, leb, ltb, leb→le, le→leb, ltb→lt, arith, length,
  drop, last?, take, drop-drop, length-drop, length-take, length-append, append_assoc, Bool-cases,
  Option-cases,
}
use claw_hermes_ai_go.TextChunk.Runes.{Bytes, byte_at}
use claw_hermes_ai_go.TextChunk.Breaks.{has_prefix, index_of}
use claw_hermes_ai_go.TextChunk.Breaks.Searching.{
  First, has_prefix-append, append-has_prefix, index_of-First, index_of-none,
}
use claw_hermes_ai_go.Skill.Analyzer.{
  is_ident_char, before_ok, after_ok, token_loop, contains_token,
}

-- No byte, or one that belongs to no identifier.
abbrev pub Apart : Option ℕ → Type 0
Apart none = Unit
Apart (some b) = is_ident_char b ≡ false

abbrev pub head? : Bytes → Option ℕ
head? [] = none
head? (b ∷ bs) = some b

-- The name stands in the code as an identifier of its own.
pub Token : Bytes → Bytes → Type 0
Token code name =
    (pre : Bytes) × (post : Bytes) × (code ≡ pre ++ (name ++ post))
    × Apart (last? pre)
    × Apart (head? post)

-- A place where the loop accepts the name.
record Accepted (code name : Bytes) (i : ℕ) : Type 0 where
  pub here : has_prefix (drop i code) name ≡ true
  pub clean : before_ok code i && after_ok code name i ≡ true

module _ (code : Bytes) (b : ℕ) (bs : Bytes) where
  loop-accepts :
      (fuel idx : ℕ) → token_loop fuel code (b ∷ bs) idx ≡ true → (i : ℕ) × Accepted code (b ∷ bs) i
  unfolding token_loop
  loop-accepts zero idx e = absurd (cc)
  loop-accepts (suc fuel) idx e = elim (Option-cases (index_of (drop idx code) (b ∷ bs))) [
    | inl absent ↦ absurd (cc (rw (absent, token_loop) at e))
    | inr (pos, found) ↦
        elim (Bool-cases (before_ok code (idx + pos) && after_ok code (b ∷ bs) (idx + pos))) [
          | inl ok ↦ (
            idx + pos,
            record {
              here =
                  subst (λ s. has_prefix s (b ∷ bs) ≡ true) (drop-drop pos idx code)
                    (index_of-First (drop idx code) (b ∷ bs) pos found).here;
              clean = ok;
            },
          )
          | inr bad ↦ loop-accepts fuel (idx + pos + 1) (rw (found, bad, token_loop) at e)
        ]
  ]

  from_idx :
      (idx i : ℕ)
      → idx ≤ i
      → Accepted code (b ∷ bs) i
      → has_prefix (drop (i - idx) (drop idx code)) (b ∷ bs) ≡ true
  from_idx idx i le a =
      ap (λ s. has_prefix s (b ∷ bs)) (drop-drop (i - idx) idx code)
      ∙ ap (λ k. has_prefix (drop k code) (b ∷ bs)) (omega (arith, le))
      ∙ a.here

  not_passed :
      (idx i pos : ℕ)
      → idx ≤ i
      → Accepted code (b ∷ bs) i
      → First (drop idx code) (b ∷ bs) pos
      → idx + pos ≤ i
  not_passed idx i pos le a f = elim (Bool-cases (ltb (i - idx) pos)) [
    | inl lt ↦ absurd (cc (f.not_before (i - idx) (ltb→lt (i - idx) pos lt), from_idx idx i le a))
    | inr ge ↦ ground (arith, ge, le)
  ]

  nothing : (s : Bytes) → length s ≡ 0 → has_prefix s (b ∷ bs) ≡ false
  unfolding has_prefix
  nothing [] z = refl
  nothing (x ∷ xs) z = absurd (omega (arith, z))

  inside : (i : ℕ) → Accepted code (b ∷ bs) i → i < length code
  inside i a = elim (Bool-cases (leb (length code) i)) [
    | inl out ↦ absurd (
        cc (
          nothing (drop i code) (omega (arith, length-drop i code, leb→le (length code) i out)),
          a.here,
        ))
    | inr within ↦ ground (arith, within)
  ]

  rejected_before :
      (i at : ℕ)
      → Accepted code (b ∷ bs) i
      → before_ok code at && after_ok code (b ∷ bs) at ≡ false
      → at ≢ i
  rejected_before i at a bad same =
      absurd
        (cc (subst (λ k. before_ok code k && after_ok code (b ∷ bs) k ≡ false) same bad, a.clean))

  loop-finds :
      (fuel idx i : ℕ)
      → Accepted code (b ∷ bs) i
      → idx ≤ i
      → length code < fuel + idx
      → token_loop fuel code (b ∷ bs) idx ≡ true
  unfolding token_loop
  loop-finds zero idx i a le enough = absurd (omega (arith, inside i a, le, enough))
  loop-finds (suc fuel) idx i a le enough =
      elim (Option-cases (index_of (drop idx code) (b ∷ bs))) [
        | inl absent ↦
            absurd (cc (index_of-none (drop idx code) b bs (i - idx) absent, from_idx idx i le a))
        | inr (pos, found) ↦
            let reached =
              not_passed idx i pos le a (index_of-First (drop idx code) (b ∷ bs) pos found) in
            elim (Bool-cases (before_ok code (idx + pos) && after_ok code (b ∷ bs) (idx + pos))) [
              | inl ok ↦ rw (found, ok, token_loop) refl
              | inr bad ↦
                  let other = rejected_before i (idx + pos) a bad in
                  rw (found, bad, token_loop)
                    (loop-finds fuel (idx + pos + 1) i a (omega (arith, reached, other))
                      (omega (arith, enough)))
            ]
      ]

last_at :
    (x : ℕ) (pre rest : Bytes) → last? (x ∷ pre) ≡ some (byte_at ((x ∷ pre) ++ rest) (length pre))
last_at x [] rest = refl
last_at x (y ∷ ys) rest = last_at y ys rest

at_append : (pre rest : Bytes) → byte_at (pre ++ rest) (length pre) ≡ byte_at rest 0
at_append [] rest = refl
at_append (x ∷ xs) rest = at_append xs rest

pub cut_at : (i : ℕ) (code : Bytes) → take i code ++ drop i code ≡ code
cut_at zero code = refl
cut_at (suc i) [] = refl
cut_at (suc i) (b ∷ bs) = ap (λ bs. b ∷ bs) (cut_at i bs)

pub drop-length : (pre rest : Bytes) → drop (length pre) (pre ++ rest) ≡ rest
drop-length [] rest = refl
drop-length (x ∷ xs) rest = drop-length xs rest

and-true : {a b : Bool} → a && b ≡ true → (a ≡ true) × (b ≡ true)
and-true {a = true} e = (refl, e)
and-true {a = false} e = absurd (cc)

true-and : {a b : Bool} → a ≡ true → b ≡ true → a && b ≡ true
true-and h h' = rw (h, h') refl

before_ok-Apart :
    (pre rest : Bytes) → (before_ok (pre ++ rest) (length pre) ≡ true) ↔ Apart (last? pre)
unfolding before_ok
before_ok-Apart [] rest = (λ e. tt, λ h. refl)
before_ok-Apart (x ∷ xs) rest =
    rw (last_at x xs rest) (λ e. ground (arith, less_one, e), λ h. ground (arith, less_one, h))
  where
    less_one : suc (length xs) - 1 ≡ length xs
    less_one = omega arith

after_ok-Apart :
    (pre name post : Bytes)
    → (after_ok (pre ++ (name ++ post)) name (length pre) ≡ true) ↔ Apart (head? post)
unfolding after_ok
after_ok-Apart pre name [] = (
  λ e. tt,
  λ h. rw (le→leb (length (pre ++ (name ++ []))) (length pre + length name) at_end) refl,
)
  where
    at_end : length (pre ++ (name ++ [])) ≤ length pre + length name
    at_end = omega (arith, length-append pre (name ++ []), length-append name [])
after_ok-Apart pre name (b ∷ bs) =
    (λ e. ground (arith, short, next, e), λ h. ground (arith, short, next, h))
  where
    short : length pre + length name < length (pre ++ (name ++ b ∷ bs))
    short = omega (arith, length-append pre (name ++ b ∷ bs), length-append name (b ∷ bs))

    next : byte_at (pre ++ (name ++ b ∷ bs)) (length pre + length name) ≡ b
    next =
        rw (sym (length-append pre name), sym (append_assoc pre name (b ∷ bs)))
          (at_append (pre ++ name) (b ∷ bs))

Accepted-Token :
    (code name : Bytes) (i : ℕ) → i ≤ length code → Accepted code name i → Token code name
unfolding Token
Accepted-Token code name i le a =
    let (post, cut) = has_prefix-append (drop i code) name a.here in
    let whole : code ≡ take i code ++ (name ++ post) =
      sym (cut_at i code) ∙ ap (λ s. take i code ++ s) cut in
    let counted : i ≡ length (take i code) = omega (arith, length-take i code, le) in
    let clean : before_ok (take i code ++ (name ++ post)) (length (take i code))
          && after_ok (take i code ++ (name ++ post)) name (length (take i code))
        ≡ true =
      subst
        (λ k.
          before_ok (take i code ++ (name ++ post)) k
            && after_ok (take i code ++ (name ++ post)) name k
          ≡ true)
        counted (subst (λ c. before_ok c i && after_ok c name i ≡ true) whole a.clean) in
    (
      take i code,
      post,
      whole,
      (before_ok-Apart (take i code) (name ++ post)).0 (and-true clean).0,
      (after_ok-Apart (take i code) name post).0 (and-true clean).1,
    )

Token-Accepted : (code name : Bytes) → Token code name → (i : ℕ) × Accepted code name i
unfolding Token
Token-Accepted code name (pre, post, whole, before, after) = (
  length pre,
  subst (λ c. Accepted c name (length pre)) (sym whole)
      (record {
        here = rw (drop-length pre (name ++ post)) (append-has_prefix name post);
        clean =
            true-and ((before_ok-Apart pre (name ++ post)).1 before)
              ((after_ok-Apart pre name post).1 after);
      }),
)

-- For a name that is not empty, `containsToken` finds it in the code exactly when the code has an
-- occurrence of it that neither follows nor precedes a letter, a digit or an underscore. The loop
-- has enough fuel.
pub contains_token-Token :
    (code : Bytes) (b : ℕ) (bs : Bytes)
    → (contains_token code (b ∷ bs) ≡ true) ↔ Token code (b ∷ bs)
unfolding contains_token
contains_token-Token code b bs = (
  λ e.
      let (i, a) = loop-accepts code b bs (length code + 1) 0 e in
      Accepted-Token code (b ∷ bs) i (omega (arith, inside code b bs i a)) a,
  λ t.
      let (i, a) = Token-Accepted code (b ∷ bs) t in
      loop-finds code b bs (length code + 1) 0 i a (omega arith) (omega arith),
)
