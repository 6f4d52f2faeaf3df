-- ===== src/Agent/Negotiation/Tests.antt =====
-- negotiation.go: an offer that is accepted, and one that is left open.
use claw_hermes_ai_go.Base.{◌≡◌, refl, true, none, some, List, [], ◌∷◌}
use claw_hermes_ai_go.Base.Dict.{lookup}
use claw_hermes_ai_go.Agent.Negotiation.{
  cancelled, accepted, TaskOffer, TaskResponse, Negotiation, NegotiationService,
  new_negotiation_service, proposed, respond_to_offer, invalid_negotiation_state, expire,
  cancel_negotiation, get_negotiation, Op, proposes, responds, expires, cleans, run,
}
use claw_hermes_ai_go.Agent.Negotiation.Answers.{IsCounted, run-IsCounted}
use claw_hermes_ai_go.Agent.Negotiation.Expiry.{answered_once}

abbrev offer : TaskOffer
offer = record { id = "o"; description = "sort"; timeout = 50 }

abbrev agrees : TaskResponse
agrees = record { is_accepted = true; reason = "" }

abbrev busy_day : List Op
busy_day =
    proposes "n1" offer 1
    ∷ proposes "n2" offer 2
    ∷ responds "n1" agrees 9
    ∷ responds "n1" agrees 10
    ∷ expires "n2"
    ∷ cleans 5 99
    ∷ []

run-IsCounted_example : IsCounted (run new_negotiation_service busy_day)
run-IsCounted_example = run-IsCounted busy_day

abbrev service : NegotiationService
service = record {
  negotiations =
      ("n1", proposed "n1" offer 1)
      ∷ ("n2", record (proposed "n2" offer 2) { state = accepted })
      ∷ [];
  stats = record {
    total_proposed = 2;
    total_accepted = 1;
    total_rejected = 0;
    average_duration = 4;
  };
}

answered_once_example :
    let n' = (respond_to_offer service "n1" agrees 9).0 in
    (respond_to_offer n' "n1" agrees 10 ≡ (n', some invalid_negotiation_state))
    × (expire n' "n1" ≡ n')
    × ((cancel_negotiation n' "n1" 10).1 ≡ none)
    × ((neg : Negotiation) × (get_negotiation (cancel_negotiation n' "n1" 10).0 "n1" ≡ some neg)
        × (neg.state ≡ cancelled)
        × (neg.response ≡ some agrees))
unfolding respond_to_offer lookup
answered_once_example = answered_once service "n1" agrees agrees 9 10 refl
