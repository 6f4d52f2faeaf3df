-- ===== src/Agent/Negotiation.antt =====
-- internal/agent/a2a/negotiation.go: the negotiations of task offers. Each method holds the service's
-- mutex for its whole body, and so does the expiration timer of an offer, which is an operation of its
-- own here. Times are nanoseconds since some moment, and the clock is an argument; a clock that does
-- not run backwards gives a duration that is not negative. The message ID is generated outside and is
-- an argument. Identities, requirements and priorities are not looked at, and are left out, like the
-- log lines. So is what a caller sees later through a pointer that it got before.
pub mod Answers
pub mod Expiry
mod Tests
use claw_hermes_ai_go.Base.{
  ℕ, ◌+◌, ◌-◌, ◌*◌, ◌/◌, Bool, true, false, not, ◌&&◌, ◌||◌, Option, none, some, List, [], ◌∷◌,
  String, ltb, ◌==◌, if◌then◌else◌,
}
use claw_hermes_ai_go.Base.Dict.{Dict, lookup, insert, erase}

pub data NegotiationState : Type 0 where
  pending negotiating accepted rejected cancelled : NegotiationState

abbrev pub is_pending : NegotiationState → Bool
is_pending pending = true
is_pending _ = false

pub record TaskOffer : Type 0 where
  pub id : String
  pub description : String
  pub timeout : ℕ

pub record TaskResponse : Type 0 where
  pub is_accepted : Bool
  pub reason : String

pub record Negotiation : Type 0 where
  pub id : String
  pub offer : TaskOffer
  pub response : Option TaskResponse
  pub state : NegotiationState
  pub created_at : ℕ
  pub updated_at : ℕ

pub record NegotiationStats : Type 0 where
  pub total_proposed : ℕ
  pub total_accepted : ℕ
  pub total_rejected : ℕ
  pub average_duration : ℕ

pub record NegotiationService : Type 0 where
  pub negotiations : Dict Negotiation
  pub stats : NegotiationStats

pub data NegotiationError : Type 0 where
  negotiation_not_found invalid_negotiation_state : NegotiationError

abbrev pub new_negotiation_service : NegotiationService
new_negotiation_service = record {
  negotiations = [];
  stats = record {
    total_proposed = 0;
    total_accepted = 0;
    total_rejected = 0;
    average_duration = 0;
  };
}

-- The new negotiation of an offer.
abbrev pub proposed : String → TaskOffer → ℕ → Negotiation
proposed new_id offer now = record {
  id = new_id;
  offer = offer;
  response = none;
  state = pending;
  created_at = now;
  updated_at = now;
}

pub propose_task : NegotiationService → String → TaskOffer → ℕ → NegotiationService
propose_task n new_id offer now = record {
  negotiations = insert new_id (proposed new_id offer now) n.negotiations;
  stats = record n.stats { total_proposed = n.stats.total_proposed + 1 };
}

-- What the timer does: a negotiation that is still pending is cancelled and deleted.
pub expire : NegotiationService → String → NegotiationService
expire n id = elim (lookup id n.negotiations) [
  | none ↦ n
  | some neg ↦
      if is_pending neg.state then record n { negotiations = erase id n.negotiations } else n
]

-- The moving average of the time to acceptance.
pub averaged : ℕ → ℕ → ℕ
averaged average duration = if average == 0 then duration else (average * 3 + duration) / 4

-- The negotiation and the statistics behind a response to a pending negotiation.
abbrev pub answered : Negotiation → TaskResponse → ℕ → Negotiation
answered neg response now = record neg {
  response = some response;
  updated_at = now;
  state = if response.is_accepted then accepted else rejected;
}

pub counted : NegotiationStats → Bool → ℕ → NegotiationStats
unfolding averaged
counted stats true duration = record stats {
  total_accepted = stats.total_accepted + 1;
  average_duration = averaged stats.average_duration duration;
}
counted stats false duration = record stats { total_rejected = stats.total_rejected + 1 }

pub respond_to_offer :
    NegotiationService → String → TaskResponse → ℕ → NegotiationService × Option NegotiationError
respond_to_offer n id response now = elim (lookup id n.negotiations) [
  | none ↦ (n, some negotiation_not_found)
  | some neg ↦
      if not (is_pending neg.state)
      then (n, some invalid_negotiation_state)
      else ((
        record {
          negotiations = insert id (answered neg response now) n.negotiations;
          stats = counted n.stats response.is_accepted (now - neg.created_at);
        },
        none,
      ))
]

pub get_negotiation : NegotiationService → String → Option Negotiation
get_negotiation n id = lookup id n.negotiations

pub pending_among : Dict Negotiation → List Negotiation
pending_among [] = []
pending_among ((id, neg) ∷ rest) =
    let others = pending_among rest in if is_pending neg.state then neg ∷ others else others

pub get_pending_negotiations : NegotiationService → List Negotiation
get_pending_negotiations n = pending_among n.negotiations

pub cancel_negotiation :
    NegotiationService → String → ℕ → NegotiationService × Option NegotiationError
cancel_negotiation n id now = elim (lookup id n.negotiations) [
  | none ↦ (n, some negotiation_not_found)
  | some neg ↦ (
    record n {
      negotiations = insert id (record neg { state = cancelled; updated_at = now }) n.negotiations;
    },
    none,
  )
]

abbrev pub is_final : NegotiationState → Bool
is_final accepted = true
is_final rejected = true
is_final cancelled = true
is_final _ = false

abbrev pub is_stale : ℕ → ℕ → Negotiation → Bool
is_stale max_age now neg = ltb max_age (now - neg.created_at) && is_final neg.state

-- The loop of `Cleanup`.
pub without_stale : ℕ → ℕ → Dict Negotiation → Dict Negotiation
without_stale max_age now [] = []
without_stale max_age now ((id, neg) ∷ rest) =
    let others = without_stale max_age now rest in
    if is_stale max_age now neg then others else (id, neg) ∷ others

pub cleanup : NegotiationService → ℕ → ℕ → NegotiationService
cleanup n max_age now = record n { negotiations = without_stale max_age now n.negotiations }

-- What requests and timers do to the service, in the order in which they take the mutex.
pub data Op : Type 0 where
  proposes : String → TaskOffer → ℕ → Op
  expires : String → Op
  responds : String → TaskResponse → ℕ → Op
  cancels : String → ℕ → Op
  cleans : ℕ → ℕ → Op

unfoldable pub step : NegotiationService → Op → NegotiationService
step n (proposes new_id offer now) = propose_task n new_id offer now
step n (expires id) = expire n id
step n (responds id response now) = (respond_to_offer n id response now).0
step n (cancels id now) = (cancel_negotiation n id now).0
step n (cleans max_age now) = cleanup n max_age now

unfoldable pub run : NegotiationService → List Op → NegotiationService
run n [] = n
run n (op ∷ ops) = run (step n op) ops
