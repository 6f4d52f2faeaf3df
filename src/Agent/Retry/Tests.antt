-- ===== src/Agent/Retry/Tests.antt =====
-- retry.go: the theorems at a function that fails twice.
use claw_hermes_ai_go.Base.{ℕ, zero, suc, ◌<◌, ◌≡◌, refl, none, String, arith}
use claw_hermes_ai_go.Base.Int.{negsuc}
use claw_hermes_ai_go.Agent.Retry.{
  RetryConfig, default_retry, Called, gives, throws, World, retry_fn,
}
use claw_hermes_ai_go.Agent.Retry.Laws.{delays, retry_until}

abbrev third_time : ℕ → Called String String
third_time zero = throws "busy"
third_time (suc zero) = throws "busy"
third_time (suc (suc n)) = gives "done"

abbrev world : World String String
world = record { zero_value = ""; fn = third_time; done_at_start = none; done_in_wait = λ j. none }

fails_twice : (j : ℕ) → j < 2 → (e : String) × (world.fn j ≡ throws e)
fails_twice zero lt = ("busy", refl)
fails_twice (suc zero) lt = ("busy", refl)
fails_twice (suc (suc n)) lt = absurd (omega arith)

retry_until_example :
    retry_fn world default_retry
    ≡ record { value = "done"; error = none; waits = delays default_retry 2 100_000_000 }
retry_until_example =
    retry_until world default_retry 2 "done" refl (λ j. refl) fails_twice refl (omega arith)

abbrev never : RetryConfig
never = record { attempts = negsuc 0; base = 1; max = 8 }
