-- ===== src/Agent/Retry/Laws.antt =====
-- retry.go: which call's result is returned, and how long the waits are.
use native.Mathlib.Nat.{pow-suc}
use native.Mathlib.Numerals.{add-one}
use claw_hermes_ai_go.Base.{
  ℕ, zero, suc, ◌+◌, ◌*◌, ◌^◌, ◌<◌, ◌≤◌, ◌≡◌, refl, ◌∙◌, ap, Option, none, some, List, [], ◌∷◌,
  arith, min,
}
use claw_hermes_ai_go.Base.Int.{rounds}
use claw_hermes_ai_go.Agent.Retry.{
  RetryConfig, gives, throws, RetryError, of_call, World, doubled, fail, behind, retry_loop,
  retry_fn,
}

-- The delays from one on, `n` of them.
pub delays : RetryConfig → ℕ → ℕ → List ℕ
delays cfg zero delay = []
delays cfg (suc n) delay = delay ∷ delays cfg n (doubled cfg delay)

module _ {ℓ} {T Err : Type ℓ} (w : World T Err) (cfg : RetryConfig) where
  loop-gives :
      (left i delay : ℕ) (last : Option (RetryError Err)) (t : T)
      → w.fn i ≡ gives t
      → retry_loop w cfg (suc left) i delay last ≡ record { value = t; error = none; waits = [] }
  unfolding retry_loop
  loop-gives zero i delay last t e = rw (e, retry_loop) refl
  loop-gives (suc left) i delay last t e = rw (e, retry_loop) refl

  loop-throws :
      (left i delay : ℕ) (last : Option (RetryError Err)) (e : Err)
      → w.fn i ≡ throws e
      → w.done_in_wait i ≡ none
      → retry_loop w cfg (suc (suc left)) i delay last
        ≡ behind w cfg delay
            (retry_loop w cfg (suc left) (i + 1) (doubled cfg delay) (some (of_call e)))
  unfolding retry_loop
  loop-throws left i delay last e h live = rw (h, retry_loop) (rw live refl)

  loop_until :
      (k left i delay : ℕ) (last : Option (RetryError Err)) (t : T)
      → ((j : ℕ) → w.done_in_wait j ≡ none)
      → ((j : ℕ) → j < k → (e : Err) × (w.fn (i + j) ≡ throws e))
      → k < left
      → w.fn (i + k) ≡ gives t
      → retry_loop w cfg left i delay last
        ≡ record { value = t; error = none; waits = delays cfg k delay }
  unfolding delays behind
  loop_until k zero i delay last t live before lt at_k = elim lt [ ]
  loop_until zero (suc left) i delay last t live before lt at_k =
      let here : i + 0 ≡ i = omega arith in loop-gives left i delay last t (rw here at at_k)
  loop_until (suc k) (suc zero) i delay last t live before lt at_k = absurd (omega arith)
  loop_until (suc k) (suc (suc left)) i delay last t live before lt at_k =
      let here : i + 0 ≡ i = omega arith in
      let shift : i + suc k ≡ i + 1 + k = omega arith in
      let (e, first) = before 0 (omega arith) in
      loop-throws left i delay last e (rw here at first) (live i)
      ∙ ap (behind w cfg delay) (
          loop_until k (suc left) (i + 1) (doubled cfg delay) (some (of_call e)) t live
            (λ j below.
              let shift' : i + suc j ≡ i + 1 + j = omega arith in
              let (e', later) = before (suc j) (omega arith) in (e', rw shift' at later))
            (omega arith) (rw shift at at_k))

  -- If the context is never done, the first `k` calls fail and call `k` gives a value, and `k` is
  -- below the attempts, that value is returned without an error behind exactly `k` waits.
  pub retry_until :
      (k : ℕ) (t : T)
      → w.done_at_start ≡ none
      → ((j : ℕ) → w.done_in_wait j ≡ none)
      → ((j : ℕ) → j < k → (e : Err) × (w.fn j ≡ throws e))
      → w.fn k ≡ gives t
      → k < rounds cfg.attempts
      → retry_fn w cfg ≡ record { value = t; error = none; waits = delays cfg k cfg.base }
  unfolding retry_fn
  retry_until k t started live before at_k lt =
      rw (started, retry_fn)
        (loop_until k (rounds cfg.attempts) 0 cfg.base none t live
          (λ j below. let here : 0 + j ≡ j = omega arith in rw here (before j below)) lt
          (let here : 0 + k ≡ k = omega arith in rw here at_k))

  -- With no attempts, or a negative number of them, nothing is called, and the zero value is returned
  -- without an error.
  pub no_attempts :
      w.done_at_start ≡ none
      → rounds cfg.attempts ≡ 0
      → retry_fn w cfg ≡ record { value = w.zero_value; error = none; waits = [] }
  unfolding retry_fn retry_loop fail
  no_attempts started zero_rounds = rw (started, retry_fn) (rw zero_rounds refl)

-- Wait `n`, where the base is within the maximum.
pub delay_of : RetryConfig → ℕ → ℕ
delay_of cfg n = min (cfg.base * 2 ^ n) cfg.max

pub backoff : RetryConfig → ℕ → ℕ → List ℕ
backoff cfg zero k = []
backoff cfg (suc n) k = delay_of cfg k ∷ backoff cfg n (k + 1)

double_power : (b k : ℕ) → b * 2 ^ (k + 1) ≡ b * 2 ^ k * 2
double_power b k = rw (add-one, pow-suc) (omega arith)

doubled-delay_of : (cfg : RetryConfig) (k : ℕ) → doubled cfg (delay_of cfg k) ≡ delay_of cfg (k + 1)
unfolding doubled delay_of
doubled-delay_of cfg k = ground (arith, double_power cfg.base k)

delays-backoff : (cfg : RetryConfig) (n k : ℕ) → delays cfg n (delay_of cfg k) ≡ backoff cfg n k
unfolding delays backoff
delays-backoff cfg zero k = refl
delays-backoff cfg (suc n) k =
    ap (λ ds. delay_of cfg k ∷ ds)
      (ap (delays cfg n) (doubled-delay_of cfg k) ∙ delays-backoff cfg n (k + 1))

-- The waits double from the base on and stop growing at the maximum, if the base is within it.
pub waits_exact :
    (cfg : RetryConfig) (n : ℕ) → cfg.base ≤ cfg.max → delays cfg n cfg.base ≡ backoff cfg n 0
unfolding delay_of
waits_exact cfg n h =
    let start : cfg.base ≡ min (cfg.base * 2 ^ 0) cfg.max = omega arith in
    ap (delays cfg n) start ∙ delays-backoff cfg n 0
