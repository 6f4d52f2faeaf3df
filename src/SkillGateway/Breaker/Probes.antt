-- ===== src/SkillGateway/Breaker/Probes.antt =====
-- circuit_breaker.go: how many requests pass while a breaker is not closed.
use claw_hermes_ai_go.Base.{
  ℕ, ◌+◌, ◌≤◌, ◌<◌, ◌≡◌, refl, ◌≢◌, ◌⊎◌, inl, inr, true, List, [], ◌∷◌, String, arith, str_eq,
  eq_iff, if◌then◌else◌, sym, ap, ◌∙◌, All, ◌&&◌, subst,
}
use claw_hermes_ai_go.SkillGateway.Breaker.{
  CbState, cb_closed, cb_open, cb_half_open, CircuitBreakerConfig, CircuitBreakerManager, allow_in,
  allow, breaker_step, Op, allows, succeeds, fails, step, run, breaker_of,
}
use claw_hermes_ai_go.SkillGateway.Breaker.Invariant.{
  got-breaker_of, breaker_of-step, config-step, IsSound,
}

pub allowed_by_breaker :
    (m : CircuitBreakerManager) (k : String) (now : ℕ)
    → (allow m k now).1 ≡ (allow_in (breaker_of m k).state m.config now (breaker_of m k)).1
unfolding allow
allowed_by_breaker m k now = rw got-breaker_of refl

-- Whether an operation is a request for skill `k` that passes.
granted : String → CircuitBreakerManager → Op → ℕ
granted k m (allows j now) = if str_eq j k && (allow m j now).1 then 1 else 0
granted k m (succeeds j) = 0
granted k m (fails j now) = 0

pub grants : String → CircuitBreakerManager → List Op → ℕ
grants k m [] = 0
grants k m (op ∷ ops) = granted k m op + grants k (step m op) ops

-- No outcome is recorded for skill `k`.
abbrev pub Unrecorded : String → Op → Type 0
Unrecorded k (allows j now) = Unit
Unrecorded k (succeeds j) = j ≢ k
Unrecorded k (fails j now) = j ≢ k

-- A request for `k` is at a time before `t`.
abbrev pub Before : ℕ → String → Op → Type 0
Before t k (allows j now) = now < t
Before t k (succeeds j) = j ≢ k
Before t k (fails j now) = j ≢ k

module _ (k : String) (m : CircuitBreakerManager) where
  blocked_step :
      (op : Op)
      → Unrecorded k op
      → (breaker_of m k).state ≡ cb_half_open
      → (breaker_of m k).probing ≡ true
      → (granted k m op ≡ 0) × (breaker_of (step m op) k ≡ breaker_of m k)
  unfolding granted breaker_step allow_in
  blocked_step (allows j now) q h p =
      ground (arith, breaker_of-step m (allows j now) k, allowed_by_breaker m j now, eq_iff j k)
  blocked_step (succeeds j) q h p = ground (arith, breaker_of-step m (succeeds j) k, eq_iff j k)
  blocked_step (fails j now) q h p = ground (arith, breaker_of-step m (fails j now) k, eq_iff j k)

  open_step :
      (op : Op)
      → Unrecorded k op
      → (breaker_of m k).state ≡ cb_open
      → ((granted k m op ≡ 0) × (breaker_of (step m op) k ≡ breaker_of m k))
        ⊎ ((granted k m op ≡ 1)
            × ((breaker_of (step m op) k).state ≡ cb_half_open)
            × ((breaker_of (step m op) k).probing ≡ true))
  unfolding granted breaker_step allow_in
  open_step (allows j now) q h =
      ground (arith, breaker_of-step m (allows j now) k, allowed_by_breaker m j now, eq_iff j k)
  open_step (succeeds j) q h = ground (arith, breaker_of-step m (succeeds j) k, eq_iff j k)
  open_step (fails j now) q h = ground (arith, breaker_of-step m (fails j now) k, eq_iff j k)

  cooling_step :
      (op : Op) (t : ℕ)
      → Before (t + m.config.recovery_timeout) k op
      → (breaker_of m k).state ≡ cb_open
      → (breaker_of m k).last_failure_at ≡ t
      → 0 < m.config.recovery_timeout
      → (granted k m op ≡ 0) × (breaker_of (step m op) k ≡ breaker_of m k)
  unfolding granted breaker_step allow_in
  cooling_step (allows j now) t q h e p =
      ground (arith, breaker_of-step m (allows j now) k, allowed_by_breaker m j now, eq_iff j k)
  cooling_step (succeeds j) t q h e p = ground (arith, breaker_of-step m (succeeds j) k, eq_iff j k)
  cooling_step (fails j now) t q h e p =
      ground (arith, breaker_of-step m (fails j now) k, eq_iff j k)

blocked_run :
    (k : String) (m : CircuitBreakerManager) (ops : List Op)
    → All (Unrecorded k) ops
    → (breaker_of m k).state ≡ cb_half_open
    → (breaker_of m k).probing ≡ true
    → grants k m ops ≡ 0
unfolding grants
blocked_run k m [] q h p = refl
blocked_run k m (op ∷ ops) q h p =
    let (none_granted, same) = blocked_step k m op q.0 h p in
    omega (
      arith,
      none_granted,
      blocked_run k (step m op) ops q.1 (ap (λ b. b.state) same ∙ h) (ap (λ b. b.probing) same ∙ p),
    )

open_run :
    (k : String) (m : CircuitBreakerManager) (ops : List Op)
    → All (Unrecorded k) ops
    → (breaker_of m k).state ≡ cb_open
    → grants k m ops ≤ 1
unfolding grants
open_run k m [] q h = omega arith
open_run k m (op ∷ ops) q h = elim (open_step k m op q.0 h) [
  | inl (g, same) ↦ omega (arith, g, open_run k (step m op) ops q.1 (ap (λ b. b.state) same ∙ h))
  | inr (g, half, probing) ↦ omega (arith, g, blocked_run k (step m op) ops q.1 half probing)
]

-- From a manager whose breaker for skill `k` is sound and not closed, any operations that record no
-- outcome for `k`, whatever they do to other skills, let at most one request for `k` pass.
pub one_probe :
    (k : String) (m : CircuitBreakerManager) (ops : List Op)
    → IsSound m.config (breaker_of m k)
    → (breaker_of m k).state ≢ cb_closed
    → All (Unrecorded k) ops
    → grants k m ops ≤ 1
one_probe k m ops v h q = by_state (breaker_of m k).state refl
  where
    by_state : (s : CbState) → (breaker_of m k).state ≡ s → grants k m ops ≤ 1
    by_state cb_closed e = absurd (h e)
    by_state cb_open e = open_run k m ops q e
    by_state cb_half_open e = omega (arith, blocked_run k m ops q e (ground (arith, v.probe)))

-- With a positive recovery timeout, while a breaker is open, no request before the end of the recovery timeout passes, and the breaker
-- does not change, as long as no outcome is recorded for its skill.
pub cooling_down :
    (k : String) (m : CircuitBreakerManager) (ops : List Op) (t : ℕ)
    → (breaker_of m k).state ≡ cb_open
    → (breaker_of m k).last_failure_at ≡ t
    → 0 < m.config.recovery_timeout
    → All (Before (t + m.config.recovery_timeout) k) ops
    → (grants k m ops ≡ 0) × (breaker_of (run m ops) k ≡ breaker_of m k)
unfolding grants run
cooling_down k m [] t h e p q = (refl, refl)
cooling_down k m (op ∷ ops) t h e p q =
    let (g, same) = cooling_step k m op t q.0 h e p in
    let c = config-step m op in
    let (gs, sames) =
      cooling_down k (step m op) ops t (ap (λ b. b.state) same ∙ h)
        (ap (λ b. b.last_failure_at) same ∙ e)
        (subst (λ (c : CircuitBreakerConfig). 0 < c.recovery_timeout) (sym c) p)
        (subst (λ (c : CircuitBreakerConfig). All (Before (t + c.recovery_timeout) k) ops) (sym c)
          q.1) in
    (omega (arith, g, gs), sames ∙ same)
