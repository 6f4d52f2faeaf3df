-- ===== src/SkillGateway/Breaker/Threshold.antt =====
-- circuit_breaker.go: when consecutive failures open a breaker, and what closes it again.
use claw_hermes_ai_go.Base.{
  ℕ, ◌+◌, ◌≤◌, ◌<◌, ◌≡◌, ◌≢◌, List, [], ◌∷◌, String, arith, str_eq, eq_iff, eq_refl, if◌then◌else◌,
  sym, All, subst, ◌∙◌, refl, ◌⊎◌, inl, inr, leb, Bool-cases,
}
use claw_hermes_ai_go.SkillGateway.Breaker.{
  cb_closed, cb_open, Breaker, CircuitBreakerConfig, CircuitBreakerManager, allow_in, fail_in,
  breaker_step, Op, allows, succeeds, fails, step, run, breaker_of,
}
use claw_hermes_ai_go.SkillGateway.Breaker.Invariant.{breaker_of-step, config-step}

-- No request for skill `k` succeeds.
abbrev pub NoSuccess : String → Op → Type 0
NoSuccess k (allows j now) = Unit
NoSuccess k (succeeds j) = j ≢ k
NoSuccess k (fails j now) = Unit

-- The failures of skill `k` among some operations.
unfoldable pub failures_of : String → List Op → ℕ
failures_of k [] = 0
failures_of k (fails j now ∷ ops) = (if str_eq j k then 1 else 0) + failures_of k ops
failures_of k (op ∷ ops) = failures_of k ops

closed_step :
    (k : String) (m : CircuitBreakerManager) (op : Op) (n : ℕ)
    → NoSuccess k op
    → (breaker_of m k).state ≡ cb_closed
    → (breaker_of m k).failures ≡ n
    → n + failures_of k (op ∷ []) < m.config.failure_threshold
    → ((breaker_of (step m op) k).state ≡ cb_closed)
      × ((breaker_of (step m op) k).failures ≡ n + failures_of k (op ∷ []))
unfolding failures_of breaker_step allow_in fail_in
closed_step k m (allows j now) n q h e lt = ground (arith, breaker_of-step m (allows j now) k)
closed_step k m (succeeds j) n q h e lt =
    ground (arith, breaker_of-step m (succeeds j) k, eq_iff j k)
closed_step k m (fails j now) n q h e lt = ground (arith, breaker_of-step m (fails j now) k)

failures_of-cons :
    (k : String) (op : Op) (ops : List Op)
    → failures_of k (op ∷ ops) ≡ failures_of k (op ∷ []) + failures_of k ops
unfolding failures_of
failures_of-cons k (allows j now) ops = omega arith
failures_of-cons k (succeeds j) ops = omega arith
failures_of-cons k (fails j now) ops = omega arith

-- A closed breaker stays closed, and counts every failure, as long as its skill has no success and
-- its failures stay below the threshold; operations on other skills may come between.
pub below_threshold_stays_closed :
    (k : String) (m : CircuitBreakerManager) (ops : List Op) (n : ℕ)
    → All (NoSuccess k) ops
    → (breaker_of m k).state ≡ cb_closed
    → (breaker_of m k).failures ≡ n
    → n + failures_of k ops < m.config.failure_threshold
    → ((breaker_of (run m ops) k).state ≡ cb_closed)
      × ((breaker_of (run m ops) k).failures ≡ n + failures_of k ops)
unfolding run
below_threshold_stays_closed k m [] n q h e lt = (h, unfold failures_of in omega arith)
below_threshold_stays_closed k m (op ∷ ops) n q h e lt =
    let split = failures_of-cons k op ops in
    let (h', e') = closed_step k m op n q.0 h e (omega (arith, split)) in
    let fits : n + failures_of k (op ∷ []) + failures_of k ops < m.config.failure_threshold =
      omega (arith, split) in
    let (h'', e'') =
      below_threshold_stays_closed k (step m op) ops (n + failures_of k (op ∷ [])) q.1 h' e' (
        subst
          (λ (c : CircuitBreakerConfig).
            n + failures_of k (op ∷ []) + failures_of k ops < c.failure_threshold)
          (sym (config-step m op)) fits) in
    (h'', omega (arith, e'', split))

-- What a failure makes of a closed breaker that counts the given failures.
abbrev pub Counted : CircuitBreakerConfig → ℕ → ℕ → Breaker → Type 0
Counted cfg now counted b =
    ((counted + 1 < cfg.failure_threshold) × (b.state ≡ cb_closed) × (b.failures ≡ counted + 1))
    ⊎ ((cfg.failure_threshold ≤ counted + 1) × (b.state ≡ cb_open) × (b.last_failure_at ≡ now))

next_failure :
    (k : String) (m : CircuitBreakerManager) (now counted : ℕ)
    → (breaker_of m k).state ≡ cb_closed
    → (breaker_of m k).failures ≡ counted
    → Counted m.config now counted (breaker_of (step m (fails k now)) k)
unfolding breaker_step fail_in
next_failure k m now counted h e =
    elim (Bool-cases (leb m.config.failure_threshold (counted + 1))) [
      | inl trips ↦ inr (
        ground (arith, trips),
        ground (arith, trips, h, e, breaker_of-step m (fails k now) k, eq_refl k),
        ground (arith, trips, h, e, breaker_of-step m (fails k now) k, eq_refl k),
      )
      | inr stays ↦ inl (
        ground (arith, stays),
        ground (arith, stays, h, e, breaker_of-step m (fails k now) k, eq_refl k),
        ground (arith, stays, h, e, breaker_of-step m (fails k now) k, eq_refl k),
      )
    ]

config-run : (m : CircuitBreakerManager) (ops : List Op) → (run m ops).config ≡ m.config
unfolding run
config-run m [] = refl
config-run m (op ∷ ops) = config-run (step m op) ops ∙ config-step m op

-- A closed breaker with `n` failures meets any operations in which its skill has no success and fewer
-- failures than the threshold leaves: then the next failure of the skill, at time `now`, counts one
-- more and leaves it closed if `n`, the failures met and this one stay below the threshold, and opens
-- it and stamps its time if they reach it. A success right behind closes it with no failures.
pub trip_and_reset :
    (k : String) (m : CircuitBreakerManager) (ops : List Op) (n now : ℕ)
    → All (NoSuccess k) ops
    → (breaker_of m k).state ≡ cb_closed
    → (breaker_of m k).failures ≡ n
    → n + failures_of k ops < m.config.failure_threshold
    → Counted m.config now (n + failures_of k ops) (breaker_of (step (run m ops) (fails k now)) k)
      × ((breaker_of (step (step (run m ops) (fails k now)) (succeeds k)) k).state ≡ cb_closed)
      × ((breaker_of (step (step (run m ops) (fails k now)) (succeeds k)) k).failures ≡ 0)
unfolding breaker_step
trip_and_reset k m ops n now q h e lt =
    let (closed, counted) = below_threshold_stays_closed k m ops n q h e lt in
    let after = step (run m ops) (fails k now) in
    (
      subst (λ cfg. Counted cfg now (n + failures_of k ops) (breaker_of after k)) (config-run m ops)
          (next_failure k (run m ops) now (n + failures_of k ops) closed counted),
      ground (arith, breaker_of-step after (succeeds k) k, eq_refl k),
      ground (arith, breaker_of-step after (succeeds k) k, eq_refl k),
    )
