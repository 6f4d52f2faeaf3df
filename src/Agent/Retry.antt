-- ===== src/Agent/Retry.antt =====
-- internal/agent/graph/retry.go: a call with retries and exponential backoff. The result of each call
-- and the moments at which the context is done are arguments; durations are nanoseconds that stay
-- below 2^62, so that doubling one does not wrap.
pub mod Laws
mod Tests
use claw_hermes_ai_go.Base.{
  ℕ, zero, suc, ◌+◌, ◌*◌, Bool, true, false, Option, none, some, List, [], ◌∷◌, ltb, if◌then◌else◌,
}
use claw_hermes_ai_go.Base.Int.{ℤ, pos, rounds}

pub record RetryConfig : Type 0 where
  pub attempts : ℤ
  pub base : ℕ
  pub max : ℕ

abbrev pub default_retry : RetryConfig
default_retry = record { attempts = pos 3; base = 100_000_000; max = 10_000_000_000 }

pub data Called {ℓ} (T Err : Type ℓ) : Type ℓ where
  gives : T → Called T Err
  throws : Err → Called T Err

-- The error of the context, that of the last call, or both joined.
pub data RetryError {ℓ} (Err : Type ℓ) : Type ℓ where
  of_context : Err → RetryError Err
  of_call : Err → RetryError Err
  joined : Err → Err → RetryError Err

-- What `fn` does at its calls, the context at the start, and its end during the wait behind a call.
pub record World {ℓ} (T Err : Type ℓ) : Type ℓ where
  pub zero_value : T
  pub fn : ℕ → Called T Err
  pub done_at_start : Option Err
  pub done_in_wait : ℕ → Option Err

-- The value, the error, and the waits that were begun.
pub record Outcome {ℓ} (T Err : Type ℓ) : Type ℓ where
  pub value : T
  pub error : Option (RetryError Err)
  pub waits : List ℕ

-- The new delay behind a wait.
pub doubled : RetryConfig → ℕ → ℕ
doubled cfg delay = if ltb cfg.max (delay * 2) then cfg.max else delay * 2

module _ {ℓ} {T Err : Type ℓ} (w : World T Err) (cfg : RetryConfig) where
  unfoldable pub fail : Option (RetryError Err) → List ℕ → Outcome T Err
  fail e waits = record { value = w.zero_value; error = e; waits = waits }

  pub behind : ℕ → Outcome T Err → Outcome T Err
  behind delay o = record o { waits = delay ∷ o.waits }

  -- The loop from call `i` on, with `left` calls left.
  unfoldable pub retry_loop : ℕ → ℕ → ℕ → Option (RetryError Err) → Outcome T Err
  unfolding fail behind
  retry_loop zero i delay last = fail last []
  retry_loop (suc zero) i delay last = elim (w.fn i) [
    | gives t ↦ record { value = t; error = none; waits = [] }
    | throws e ↦ fail (some (of_call e)) []
  ]
  retry_loop (suc (suc left)) i delay last = elim (w.fn i) [
    | gives t ↦ record { value = t; error = none; waits = [] }
    | throws e ↦ elim (w.done_in_wait i) [
      | some c ↦ fail (some (joined e c)) (delay ∷ [])
      | none ↦ behind delay (retry_loop (suc left) (i + 1) (doubled cfg delay) (some (of_call e)))
    ]
  ]

  unfoldable pub retry_fn : Outcome T Err
  unfolding fail retry_loop
  retry_fn = elim w.done_at_start [
    | some e ↦ fail (some (of_context e)) []
    | none ↦ retry_loop (rounds cfg.attempts) 0 cfg.base none
  ]
