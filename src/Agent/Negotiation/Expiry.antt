-- ===== src/Agent/Negotiation/Expiry.antt =====
-- negotiation.go: what can still become of an answered negotiation, and what `Cleanup` keeps.
use claw_hermes_ai_go.Base.{
  ℕ, ◌≡◌, refl, true, false, none, some, String, Bool-cases, Option-cases, inl, inr, some-ne-none,
}
use claw_hermes_ai_go.Base.Dict.{lookup, lookup-insert_self}
use claw_hermes_ai_go.Agent.Negotiation.{
  is_pending, Negotiation, TaskResponse, NegotiationService, invalid_negotiation_state, expire,
  answered, respond_to_offer, get_pending_negotiations, get_negotiation, cancel_negotiation,
  cancelled, cleanup,
}
use claw_hermes_ai_go.Agent.Negotiation.Answers.{pending_among-without_stale, answered_not_pending}

-- `Cleanup` drops no pending negotiation, however old.
pub cleanup_keeps_pending :
    (n : NegotiationService) (max_age now : ℕ)
    → get_pending_negotiations (cleanup n max_age now) ≡ get_pending_negotiations n
unfolding get_pending_negotiations cleanup
cleanup_keeps_pending n max_age now = pending_among-without_stale max_age now n.negotiations

respond-accepted :
    (n : NegotiationService) (k : String) (r : TaskResponse) (now : ℕ)
    → (respond_to_offer n k r now).1 ≡ none
    → (neg : Negotiation) × (lookup k n.negotiations ≡ some neg)
      × (is_pending neg.state ≡ true)
      × (lookup k (respond_to_offer n k r now).0.negotiations ≡ some (answered neg r now))
unfolding respond_to_offer
respond-accepted n k r now e = elim (Option-cases (lookup k n.negotiations)) [
  | inl missing ↦ absurd (some-ne-none (rw (missing, respond_to_offer) at e))
  | inr (neg, there) ↦ elim (Bool-cases (is_pending neg.state)) [
    | inr over ↦ absurd (some-ne-none (rw (there, respond_to_offer, over) at e))
    | inl waiting ↦ (
      neg,
      there,
      waiting,
      rw (there, respond_to_offer)
          (rw waiting (lookup-insert_self k (answered neg r now) n.negotiations)),
    )
  ]
]

settled :
    (n : NegotiationService) (k : String) (neg : Negotiation) (r' : TaskResponse) (later : ℕ)
    → lookup k n.negotiations ≡ some neg
    → is_pending neg.state ≡ false
    → (respond_to_offer n k r' later ≡ (n, some invalid_negotiation_state))
      × (expire n k ≡ n)
      × ((cancel_negotiation n k later).1 ≡ none)
      × ((left : Negotiation) × (get_negotiation (cancel_negotiation n k later).0 k ≡ some left)
          × (left.state ≡ cancelled)
          × (left.response ≡ neg.response))
unfolding respond_to_offer expire cancel_negotiation get_negotiation
settled n k neg r' later there over = (
  rw (there, respond_to_offer) (rw over refl),
  rw (there, expire) (rw over refl),
  rw (there, cancel_negotiation) refl,
  (
    record neg { state = cancelled; updated_at = later },
    rw (there, cancel_negotiation) (lookup-insert_self k _ n.negotiations),
    refl,
    refl,
  ),
)

-- Behind a response that is taken, every further response to the same offer fails for its state and
-- changes nothing, and the expiration changes nothing; but a cancellation still succeeds, and leaves
-- the negotiation cancelled with the response in it.
pub answered_once :
    (n : NegotiationService) (k : String) (r r' : TaskResponse) (now later : ℕ)
    → (respond_to_offer n k r now).1 ≡ none
    → let n' = (respond_to_offer n k r now).0 in
      (respond_to_offer n' k r' later ≡ (n', some invalid_negotiation_state))
      × (expire n' k ≡ n')
      × ((cancel_negotiation n' k later).1 ≡ none)
      × ((neg : Negotiation) × (get_negotiation (cancel_negotiation n' k later).0 k ≡ some neg)
          × (neg.state ≡ cancelled)
          × (neg.response ≡ some r))
answered_once n k r r' now later e =
    let (neg, there, waiting, taken) = respond-accepted n k r now e in
    settled (respond_to_offer n k r now).0 k (answered neg r now) r' later taken
      (answered_not_pending neg r now)
