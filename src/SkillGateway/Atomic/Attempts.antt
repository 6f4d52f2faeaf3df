-- ===== src/SkillGateway/Atomic/Attempts.antt =====
-- atomic.go: the attempt loop.
use claw_hermes_ai_go.Base.{
  ℕ, zero, suc, ◌+◌, ◌≤◌, ◌<◌, ◌≡◌, refl, ◌∙◌, sym, ap, ◌⊎◌, inl, inr, Option, none, some, List, [],
  ◌∷◌, ◌++◌, append_assoc, arith, ltb, if◌then◌else◌, All, Bool-cases, Option-cases, subst,
}
use claw_hermes_ai_go.Base.Int.{rounds, add_one}
use claw_hermes_ai_go.SkillGateway.Types.{GoError, SkillRequest}
use claw_hermes_ai_go.SkillGateway.Registry.{SkillProvider}
use claw_hermes_ai_go.SkillGateway.Atomic.{
  Environment, Event, waits, calls, Ending, exhausted, Round, ends, again, call, wait_and_call,
  round, attempts, delay_before, base_delay_of, max_retry_delay, max_attempts_of,
}

-- What the loop does if nothing stops it: the attempts in order, each but the first behind its wait.
pub plan : ℕ → ℕ → ℕ → List Event
plan base zero attempt = []
plan base (suc left) attempt =
    (if ltb 0 attempt
      then waits (delay_before base attempt) ∷ calls attempt ∷ []
      else calls attempt ∷ [])
    ++ plan base left (attempt + 1)

abbrev pub IsShort : Event → Type 0
IsShort (waits d) = d ≤ max_retry_delay
IsShort (calls a) = Unit

unfoldable pub calls_in : List Event → ℕ
calls_in [] = 0
calls_in (calls a ∷ es) = suc (calls_in es)
calls_in (waits d ∷ es) = calls_in es

pub delay_capped : (base attempt : ℕ) → delay_before base attempt ≤ max_retry_delay
unfolding delay_before
delay_capped base attempt = ground arith

plan-IsShort : (base left attempt : ℕ) → All IsShort (plan base left attempt)
unfolding plan
plan-IsShort base zero attempt = tt
plan-IsShort base (suc left) attempt = elim (Bool-cases (ltb 0 attempt)) [
  | inl e ↦ rw e (delay_capped base attempt, (tt, plan-IsShort base left (attempt + 1)))
  | inr e ↦ rw e (tt, plan-IsShort base left (attempt + 1))
]

calls_in-plan : (base left attempt : ℕ) → calls_in (plan base left attempt) ≡ left
unfolding plan calls_in
calls_in-plan base zero attempt = refl
calls_in-plan base (suc left) attempt = elim (Bool-cases (ltb 0 attempt)) [
  | inl e ↦ rw e (ap suc (calls_in-plan base left (attempt + 1)))
  | inr e ↦ rw e (ap suc (calls_in-plan base left (attempt + 1)))
]

-- `xs` is how `ys` begins.
abbrev pub Begins : List Event → List Event → Type 0
Begins xs ys = (rest : List Event) × (xs ++ rest ≡ ys)

All-begins : (P : Event → Type 0) (xs rest : List Event) → All P (xs ++ rest) → All P xs
All-begins P [] rest h = tt
All-begins P (x ∷ xs) rest h = (h.0, All-begins P xs rest h.1)

pub calls_in-append : (xs ys : List Event) → calls_in (xs ++ ys) ≡ calls_in xs + calls_in ys
unfolding calls_in
calls_in-append [] ys = omega arith
calls_in-append (calls a ∷ xs) ys = omega (arith, calls_in-append xs ys)
calls_in-append (waits d ∷ xs) ys = omega (arith, calls_in-append xs ys)

module _ (env : Environment) (p : SkillProvider) (req : SkillRequest) where
  round_events : ℕ → List Event
  round_events attempt =
      if ltb 0 attempt
      then waits (delay_before (base_delay_of req) attempt) ∷ calls attempt ∷ []
      else calls attempt ∷ []

  round-Begins : (attempt : ℕ) → Begins (round env p req attempt).1 (round_events attempt)
  unfolding round wait_and_call call round_events
  round-Begins attempt = elim (Option-cases (env.ctx_err attempt)) [
    | inr (e, h) ↦ (round_events attempt, rw (h, round) refl)
    | inl h ↦ elim (Bool-cases (ltb 0 attempt)) [
      | inr first ↦ ([], rw (h, round) (rw first refl))
      | inl later ↦ elim (Option-cases (env.ctx_done_in_backoff attempt)) [
        | inl on ↦ ([], rw (h, round) (rw later (rw (on, wait_and_call) refl)))
        | inr (e, off) ↦
            (calls attempt ∷ [], rw (h, round) (rw later (rw (off, wait_and_call) refl)))
      ]
    ]
  ]

  round_again :
      (attempt : ℕ) (e : GoError)
      → (round env p req attempt).0 ≡ again e
      → (round env p req attempt).1 ≡ round_events attempt
  unfolding round wait_and_call call round_events
  round_again attempt e h = ground arith

  Round-cases : (r : Round) → ((e : Ending) × (r ≡ ends e)) ⊎ ((e : GoError) × (r ≡ again e))
  Round-cases (ends e) = inl (e, refl)
  Round-cases (again e) = inr (e, refl)

  attempts-ends :
      (left attempt : ℕ) (last : Option GoError) (e : Ending)
      → (round env p req attempt).0 ≡ ends e
      → attempts env p req (suc left) attempt last ≡ (e, (round env p req attempt).1)
  unfolding attempts
  attempts-ends left attempt last e h = rw (h, attempts) refl

  attempts-again :
      (left attempt : ℕ) (last : Option GoError) (e : GoError)
      → (round env p req attempt).0 ≡ again e
      → attempts env p req (suc left) attempt last ≡ (
        (attempts env p req left (attempt + 1) (some e)).0,
        round_events attempt ++ (attempts env p req left (attempt + 1) (some e)).1,
      )
  unfolding attempts
  attempts-again left attempt last e h = rw (← round_again attempt e h) (rw (h, attempts) refl)

  -- The events of the loop begin its plan.
  attempts-Begins :
      (left attempt : ℕ) (last : Option GoError)
      → Begins (attempts env p req left attempt last).1 (plan (base_delay_of req) left attempt)
  unfolding plan round_events
  attempts-Begins zero attempt last = ([], unfold attempts in refl)
  attempts-Begins (suc left) attempt last = elim (Round-cases (round env p req attempt).0) [
    | inl (e, h) ↦
        let (rest, same) = round-Begins attempt in
        let later = plan (base_delay_of req) left (attempt + 1) in
        (
          rest ++ later,
          rw (attempts-ends left attempt last e h) (
              sym (append_assoc (round env p req attempt).1 rest later)
              ∙ ap (λ es. es ++ later) same),
        )
    | inr (e, h) ↦
        let (rest, same) = attempts-Begins left (attempt + 1) (some e) in
        (
          rest,
          rw (attempts-again left attempt last e h) (
              append_assoc (round_events attempt) (attempts env p req left (attempt + 1) (some e)).1
                rest
              ∙ ap (λ es. round_events attempt ++ es) same),
        )
  ]

  -- The loop makes at most `left` calls, in order and from the first attempt on, each call but that
  -- of attempt 0 behind its backoff wait, and stops somewhere in this plan; no wait is above 10 s.
  pub attempts_follow_plan :
      (left : ℕ)
      → Begins (attempts env p req left 0 none).1 (plan (base_delay_of req) left 0)
        × (calls_in (attempts env p req left 0 none).1 ≤ left)
        × All IsShort (attempts env p req left 0 none).1
  attempts_follow_plan left =
      let es = (attempts env p req left 0 none).1 in
      let (rest, same) = attempts-Begins left 0 none in
      (
        (rest, same),
        omega (
          arith,
          ap calls_in same,
          calls_in-append es rest,
          calls_in-plan (base_delay_of req) left 0,
        ),
        All-begins IsShort es rest
            (subst (All IsShort) (sym same) (plan-IsShort (base_delay_of req) left 0)),
      )

  -- The loop ends as its first round that does not ask for another.
  pub attempts_until :
      (k left attempt : ℕ) (last : Option GoError) (e : Ending)
      → ((j : ℕ) → j < k → (g : GoError) × ((round env p req (attempt + j)).0 ≡ again g))
      → k < left
      → (round env p req (attempt + k)).0 ≡ ends e
      → (attempts env p req left attempt last).0 ≡ e
  attempts_until k zero attempt last e before h end = elim h [ ]
  attempts_until zero (suc left) attempt last e before h end =
      let here : attempt + 0 ≡ attempt = omega arith in
      rw (attempts-ends left attempt last e (rw here at end)) refl
  attempts_until (suc k) (suc left) attempt last e before h end =
      let here : attempt + 0 ≡ attempt = omega arith in
      let (g, first) = before 0 (omega arith) in
      rw (attempts-again left attempt last g (rw here at first)) (
        attempts_until k left (attempt + 1) (some g) e
          (λ j lt.
            let shift : attempt + suc j ≡ attempt + 1 + j = omega arith in
            let (g', later) = before (suc j) (omega arith) in (g', rw shift at later))
          (omega arith)
          (let shift : attempt + suc k ≡ attempt + 1 + k = omega arith in rw shift at end))

  -- If every round asks for another, the loop ends with the error of the last.
  pub attempts_all_fail :
      (n attempt : ℕ) (last : Option GoError) (g : GoError)
      → ((j : ℕ) → j < n → (g : GoError) × ((round env p req (attempt + j)).0 ≡ again g))
      → (round env p req (attempt + n)).0 ≡ again g
      → (attempts env p req (suc n) attempt last).0 ≡ exhausted (some g)
  attempts_all_fail zero attempt last g before final =
      let here : attempt + 0 ≡ attempt = omega arith in
      rw (attempts-again zero attempt last g (rw here at final)) (unfold attempts in refl)
  attempts_all_fail (suc n) attempt last g before final =
      let here : attempt + 0 ≡ attempt = omega arith in
      let (g₀, first) = before 0 (omega arith) in
      rw (attempts-again (suc n) attempt last g₀ (rw here at first)) (
        attempts_all_fail n (attempt + 1) (some g₀) g
          (λ j lt.
            let shift : attempt + suc j ≡ attempt + 1 + j = omega arith in
            let (g', later) = before (suc j) (omega arith) in (g', rw shift at later))
          (let shift : attempt + suc n ≡ attempt + 1 + n = omega arith in rw shift at final))

-- A request never makes more than 11 attempts, nor more than one above its retry count.
pub max_attempts_bounds :
    (req : SkillRequest)
    → (max_attempts_of req ≤ 11) × (max_attempts_of req ≤ rounds (add_one req.retry.max_attempts))
unfolding max_attempts_of
max_attempts_bounds req = ground arith
