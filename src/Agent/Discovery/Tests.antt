-- ===== src/Agent/Discovery/Tests.antt =====
-- The discovery at two peers.
use claw_hermes_ai_go.Base.{◌≡◌, refl, true, some, List, [], ◌∷◌, String}
use mathlib.Core.List.{Mem}
use claw_hermes_ai_go.Base.Dict.{lookup, insert, erase}
use claw_hermes_ai_go.Agent.Orchestrator.{AgentIdentity}
use claw_hermes_ai_go.Agent.Discovery.{new_discovery_service, get_peers_with_capabilities}
use claw_hermes_ai_go.Agent.Discovery.Index.{listed}
use claw_hermes_ai_go.Agent.Discovery.{Op, registers, beats, run, unregisters}
use claw_hermes_ai_go.Agent.Discovery.Found.{search_finds}

abbrev agent : String → AgentIdentity
agent id = record { id = id; name = id }

abbrev ops : List Op
ops =
    registers (agent "a") ("search" ∷ "code" ∷ []) 0
    ∷ registers (agent "b") ("search" ∷ []) 1
    ∷ beats "a" 2
    ∷ []

a_registered : lookup "a" (run new_discovery_service ops).peers ≡ some 0
unfolding run new_discovery_service lookup insert
a_registered = refl

a_can :
    (listed "search" ((run new_discovery_service ops).heap 0).capabilities ≡ true)
    × (listed "code" ((run new_discovery_service ops).heap 0).capabilities ≡ true)
unfolding run new_discovery_service listed lookup insert
a_can = (refl, refl)

search_finds_example :
    Mem 0 (get_peers_with_capabilities (run new_discovery_service ops) ("search" ∷ "code" ∷ []))
search_finds_example =
    search_finds ops ("search" ∷ "code" ∷ []) "a" 0 a_registered (a_can.0, (a_can.1, tt))

-- An agent that registers again with other capabilities and then leaves is still found by the old ones.
abbrev left_behind : List Op
left_behind =
    registers (agent "a") ("search" ∷ []) 0
    ∷ registers (agent "a") ("code" ∷ []) 1
    ∷ unregisters "a"
    ∷ []

still_found :
    get_peers_with_capabilities (run new_discovery_service left_behind) ("search" ∷ []) ≡ 0 ∷ []
unfolding run new_discovery_service get_peers_with_capabilities lookup insert erase
still_found = refl
