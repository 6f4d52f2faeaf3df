-- ===== src/Agent/Negotiation/Answers.antt =====
-- negotiation.go: the statistics against the proposals.
use claw_hermes_ai_go.Base.{
  ℕ, ◌+◌, ◌-◌, ◌≤◌, ◌≡◌, refl, Bool, true, false, some, List, [], ◌∷◌, String, length, arith,
  if◌then◌else◌, Bool-cases, Option-cases, inl, inr, ap,
}
use claw_hermes_ai_go.Base.Dict.{Dict, lookup, insert, erase}
use claw_hermes_ai_go.Agent.Negotiation.{
  NegotiationState, pending, negotiating, accepted, rejected, is_pending, Negotiation, TaskResponse,
  NegotiationStats, NegotiationService, new_negotiation_service, proposed, propose_task, expire,
  answered, counted, respond_to_offer, pending_among, cancel_negotiation, cancelled, is_final,
  without_stale, cleanup, Op, proposes, expires, responds, cancels, cleans, step, run,
}

pub pendings : Dict Negotiation → ℕ
pendings m = length (pending_among m)

pendings-insert-le :
    (k : String) (v : Negotiation) (m : Dict Negotiation)
    → pendings (insert k v m) ≤ pendings m + (if is_pending v.state then 1 else 0)
unfolding pendings pending_among insert
pendings-insert-le k v [] = ground arith
pendings-insert-le k v (entry ∷ rest) = ground (arith, pendings-insert-le k v rest)

-- A pending negotiation is replaced by one that is not.
pendings-settle :
    (k : String) (v neg : Negotiation) (m : Dict Negotiation)
    → lookup k m ≡ some neg
    → is_pending neg.state ≡ true
    → is_pending v.state ≡ false
    → pendings (insert k v m) + 1 ≤ pendings m
unfolding pendings pending_among insert lookup
pendings-settle k v neg [] e p q = absurd (cc)
pendings-settle k v neg (entry ∷ rest) e p q = ground (arith, pendings-settle k v neg rest, e, p, q)

pendings-erase-le : (k : String) (m : Dict Negotiation) → pendings (erase k m) ≤ pendings m
unfolding pendings pending_among erase
pendings-erase-le k [] = omega arith
pendings-erase-le k (entry ∷ rest) = ground (arith, pendings-erase-le k rest)

final_not_pending : (s : NegotiationState) → is_final s ≡ true → is_pending s ≡ false
final_not_pending pending h = absurd (cc)
final_not_pending negotiating h = refl
final_not_pending accepted h = refl
final_not_pending rejected h = refl
final_not_pending cancelled h = refl

pub pending_among-without_stale :
    (max_age now : ℕ) (m : Dict Negotiation)
    → pending_among (without_stale max_age now m) ≡ pending_among m
unfolding pending_among without_stale
pending_among-without_stale max_age now [] = refl
pending_among-without_stale max_age now (entry ∷ rest) =
    ground (arith, pending_among-without_stale max_age now rest, final_not_pending entry.1.state)

-- The answers counted, with the negotiations that still wait for one, are no more than the proposals.
abbrev pub IsCounted : NegotiationService → Type 0
IsCounted n =
    n.stats.total_accepted + n.stats.total_rejected + pendings n.negotiations
    ≤ n.stats.total_proposed

pub answered_not_pending :
    (neg : Negotiation) (r : TaskResponse) (now : ℕ) → is_pending (answered neg r now).state ≡ false
answered_not_pending neg r now = ground arith

counted_once :
    (stats : NegotiationStats) (b : Bool) (d : ℕ)
    → ((counted stats b d).total_accepted + (counted stats b d).total_rejected
        ≡ stats.total_accepted + stats.total_rejected + 1)
      × ((counted stats b d).total_proposed ≡ stats.total_proposed)
unfolding counted
counted_once stats true d = (omega arith, refl)
counted_once stats false d = (omega arith, refl)

respond-IsCounted :
    (n : NegotiationService) (k : String) (r : TaskResponse) (now : ℕ)
    → IsCounted n
    → IsCounted (respond_to_offer n k r now).0
unfolding respond_to_offer
respond-IsCounted n k r now h = elim (Option-cases (lookup k n.negotiations)) [
  | inl missing ↦ rw (missing, respond_to_offer) h
  | inr (neg, there) ↦
      rw (there, respond_to_offer)
        (elim (Bool-cases (is_pending neg.state)) [
          | inr over ↦ rw over h
          | inl waiting ↦ rw waiting (
              omega (
                arith,
                pendings-settle k (answered neg r now) neg n.negotiations there waiting
                    (answered_not_pending neg r now),
                counted_once n.stats r.is_accepted (now - neg.created_at),
                h,
              ))
        ])
]

cancel-IsCounted :
    (n : NegotiationService) (k : String) (now : ℕ)
    → IsCounted n
    → IsCounted (cancel_negotiation n k now).0
unfolding cancel_negotiation
cancel-IsCounted n k now h = elim (Option-cases (lookup k n.negotiations)) [
  | inl missing ↦ rw (missing, cancel_negotiation) h
  | inr (neg, there) ↦
      rw (there, cancel_negotiation)
        (omega (
          arith,
          pendings-insert-le k (record neg { state = cancelled; updated_at = now }) n.negotiations,
          h,
        ))
]

expire-IsCounted : (n : NegotiationService) (k : String) → IsCounted n → IsCounted (expire n k)
unfolding expire
expire-IsCounted n k h = elim (Option-cases (lookup k n.negotiations)) [
  | inl missing ↦ rw (missing, expire) h
  | inr (neg, there) ↦
      rw (there, expire)
        (elim (Bool-cases (is_pending neg.state)) [
          | inl waiting ↦ rw waiting (omega (arith, pendings-erase-le k n.negotiations, h))
          | inr over ↦ rw over h
        ])
]

step-IsCounted : (n : NegotiationService) (op : Op) → IsCounted n → IsCounted (step n op)
unfolding step propose_task cleanup pendings
step-IsCounted n (proposes k offer now) h =
    omega (arith, pendings-insert-le k (proposed k offer now) n.negotiations, h)
step-IsCounted n (expires k) h = expire-IsCounted n k h
step-IsCounted n (responds k r now) h = respond-IsCounted n k r now h
step-IsCounted n (cancels k now) h = cancel-IsCounted n k now h
step-IsCounted n (cleans max_age now) h =
    omega (arith, ap length (pending_among-without_stale max_age now n.negotiations), h)

run-IsCounted_from : (n : NegotiationService) (ops : List Op) → IsCounted n → IsCounted (run n ops)
unfolding run
run-IsCounted_from n [] h = h
run-IsCounted_from n (op ∷ ops) h = run-IsCounted_from (step n op) ops (step-IsCounted n op h)

-- After any operations on a new service, in any order and with any IDs, the accepted and the rejected
-- offers that the statistics count, with the offers that are still pending, are no more than the
-- proposed ones.
pub run-IsCounted : (ops : List Op) → IsCounted (run new_negotiation_service ops)
unfolding pendings pending_among
run-IsCounted ops = run-IsCounted_from new_negotiation_service ops (omega arith)
