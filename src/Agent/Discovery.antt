-- ===== src/Agent/Discovery.antt =====
-- internal/agent/a2a/discovery.go: the known agents, an index of them by capability, and the channels
-- that tell of changes. Each method holds the mutex for its whole body. A search without capabilities
-- takes it for reading a second time, which can block where a writer waits in between: that is not
-- modelled. A pointer to a peer is the number of its making and the heap holds what it points to, since
-- the index and the peers share it. Of a capability only the name is read. Times are nanoseconds, and
-- the clock is an argument.
pub mod Index
pub mod Complete
pub mod Found
mod Tests
use claw_hermes_ai_go.Base.{
  ℕ, zero, suc, ◌+◌, ◌-◌, Bool, true, false, Option, none, some, List, [], ◌∷◌, ◌++◌, map, String,
  str_eq, ltb, ◌==◌, if◌then◌else◌, length,
}
use claw_hermes_ai_go.Base.Dict.{Dict, lookup, insert, erase, has}
use claw_hermes_ai_go.Agent.Orchestrator.{AgentIdentity}

pub record PeerInfo : Type 0 where
  pub identity : AgentIdentity
  pub capabilities : List String
  pub last_seen : ℕ
  pub heartbeat_interval : ℕ

-- "joined" or "left", with the pointer to the peer; the time of an event is not modelled.
pub record DiscoveryEvent : Type 0 where
  pub kind : String
  pub peer : ℕ

-- A channel is its number and the events in it.
pub record DiscoveryService : Type 0 where
  pub peers : Dict ℕ
  pub capabilities : Dict (Dict ℕ)
  pub event_chans : List (ℕ × List DiscoveryEvent)
  pub heap : ℕ → PeerInfo
  pub made : ℕ

abbrev nobody : PeerInfo
nobody = record {
  identity = record { id = ""; name = "" };
  capabilities = [];
  last_seen = 0;
  heartbeat_interval = 0;
}

pub new_discovery_service : DiscoveryService
new_discovery_service = record {
  peers = [];
  capabilities = [];
  event_chans = [];
  heap = λ p. nobody;
  made = 0;
}

pub put : (ℕ → PeerInfo) → ℕ → PeerInfo → ℕ → PeerInfo
put heap p peer q = if p == q then peer else heap q

-- A full channel drops the event.
notify_one : DiscoveryEvent → ℕ × List DiscoveryEvent → ℕ × List DiscoveryEvent
notify_one event (chan, events) =
    if ltb (length events) 100 then (chan, events ++ event ∷ []) else (chan, events)

pub notify_event : DiscoveryService → DiscoveryEvent → DiscoveryService
unfolding notify_one
notify_event d event = record d { event_chans = map (notify_one event) d.event_chans }

or_empty : Option (Dict ℕ) → Dict ℕ
or_empty none = []
or_empty (some m) = m

-- The loop over the capabilities in `RegisterPeer`.
pub index_all : String → ℕ → List String → Dict (Dict ℕ) → Dict (Dict ℕ)
unfolding or_empty
index_all id p [] index = index
index_all id p (cap ∷ caps) index =
    index_all id p caps (insert cap (insert id p (or_empty (lookup cap index))) index)

pub new_peer : AgentIdentity → List String → ℕ → PeerInfo
new_peer identity capabilities now = record {
  identity = identity;
  capabilities = capabilities;
  last_seen = now;
  heartbeat_interval = 30_000_000_000;
}

pub register_peer : DiscoveryService → AgentIdentity → List String → ℕ → DiscoveryService
unfolding put new_peer index_all notify_event
register_peer d identity capabilities now =
    notify_event
      (record d {
        peers = insert identity.id d.made d.peers;
        capabilities = index_all identity.id d.made capabilities d.capabilities;
        heap = put d.heap d.made (new_peer identity capabilities now);
        made = d.made + 1;
      })
      (record { kind = "joined"; peer = d.made })

put_or_drop : String → Dict ℕ → Dict (Dict ℕ) → Dict (Dict ℕ)
put_or_drop cap [] index = erase cap index
put_or_drop cap (entry ∷ entries) index = insert cap (entry ∷ entries) index

-- The loop that takes a peer out of the index; a capability without peers is deleted.
pub unindex : String → String → Option (Dict ℕ) → Dict (Dict ℕ) → Dict (Dict ℕ)
unfolding put_or_drop
unindex id cap none index = index
unindex id cap (some caps) index = put_or_drop cap (erase id caps) index

pub unindex_all : String → List String → Dict (Dict ℕ) → Dict (Dict ℕ)
unfolding unindex
unindex_all id [] index = index
unindex_all id (cap ∷ caps) index = unindex_all id caps (unindex id cap (lookup cap index) index)

pub remove_peer : DiscoveryService → String → ℕ → DiscoveryService
unfolding unindex_all notify_event
remove_peer d id p =
    notify_event
      (record d {
        peers = erase id d.peers;
        capabilities = unindex_all id (d.heap p).capabilities d.capabilities;
      })
      (record { kind = "left"; peer = p })

pub unregister_peer : DiscoveryService → String → DiscoveryService
unfolding remove_peer
unregister_peer d agent_id = elim (lookup agent_id d.peers) [
  | none ↦ d
  | some p ↦ remove_peer d agent_id p
]

pub get_peer : DiscoveryService → String → Option PeerInfo
get_peer d agent_id = elim (lookup agent_id d.peers) [ none ↦ none | some p ↦ some (d.heap p) ]

pub pointers : Dict ℕ → List ℕ
pointers ps = map (λ e. e.1) ps

pub get_all_peers : DiscoveryService → List ℕ
unfolding pointers
get_all_peers d = pointers d.peers

-- The candidates that another capability has too.
pub intersect : Dict ℕ → Dict ℕ → Dict ℕ
intersect caps [] = []
intersect caps ((id, p) ∷ rest) =
    let others = intersect caps rest in if has id caps then (id, p) ∷ others else others

pub narrow : DiscoveryService → Dict ℕ → List String → Dict ℕ
unfolding intersect
narrow d candidates [] = candidates
narrow d candidates (cap ∷ caps) = elim (lookup cap d.capabilities) [
  | none ↦ []
  | some there ↦ narrow d (intersect there candidates) caps
]

pub candidates_for : DiscoveryService → String → List String → Dict ℕ
unfolding narrow or_empty
candidates_for d cap caps = narrow d (or_empty (lookup cap d.capabilities)) caps

pub get_peers_with_capabilities : DiscoveryService → List String → List ℕ
unfolding candidates_for get_all_peers pointers
get_peers_with_capabilities d [] = get_all_peers d
get_peers_with_capabilities d (cap ∷ caps) = pointers (candidates_for d cap caps)

pub update_heartbeat : DiscoveryService → String → ℕ → DiscoveryService
unfolding put
update_heartbeat d agent_id now = elim (lookup agent_id d.peers) [
  | none ↦ d
  | some p ↦ record d { heap = put d.heap p (record (d.heap p) { last_seen = now }) }
]

pub subscribe : DiscoveryService → ℕ → DiscoveryService
subscribe d chan = record d { event_chans = d.event_chans ++ (chan, []) ∷ [] }

without_chan : ℕ → List (ℕ × List DiscoveryEvent) → List (ℕ × List DiscoveryEvent)
without_chan chan [] = []
without_chan chan ((c, events) ∷ rest) =
    let others = without_chan chan rest in if c == chan then rest else (c, events) ∷ others

pub unsubscribe : DiscoveryService → ℕ → DiscoveryService
unfolding without_chan
unsubscribe d chan = record d { event_chans = without_chan chan d.event_chans }

-- `none` is `ErrNoPeersFound`.
first_of : List ℕ → Option ℕ
first_of [] = none
first_of (p ∷ ps) = some p

pub find_best_peer : DiscoveryService → List String → Option ℕ
unfolding first_of get_peers_with_capabilities
find_best_peer d required = first_of (get_peers_with_capabilities d required)

pub cleanup_loop : ℕ → ℕ → Dict ℕ → DiscoveryService → DiscoveryService
unfolding remove_peer
cleanup_loop timeout now [] d = d
cleanup_loop timeout now ((id, p) ∷ rest) d =
    let removed = cleanup_loop timeout now rest (remove_peer d id p) in
    let kept = cleanup_loop timeout now rest d in
    if ltb timeout (now - (d.heap p).last_seen) then removed else kept

pub cleanup : DiscoveryService → ℕ → ℕ → DiscoveryService
unfolding cleanup_loop
cleanup d timeout now = cleanup_loop timeout now d.peers d

-- The methods that change the service.
pub data Op : Type 0 where
  registers : AgentIdentity → List String → ℕ → Op
  unregisters : String → Op
  beats : String → ℕ → Op
  subscribes unsubscribes : ℕ → Op
  cleans : (timeout now : ℕ) → Op

pub step : DiscoveryService → Op → DiscoveryService
unfolding register_peer unregister_peer update_heartbeat subscribe unsubscribe cleanup
step d (registers identity capabilities now) = register_peer d identity capabilities now
step d (unregisters id) = unregister_peer d id
step d (beats id now) = update_heartbeat d id now
step d (subscribes chan) = subscribe d chan
step d (unsubscribes chan) = unsubscribe d chan
step d (cleans timeout now) = cleanup d timeout now

pub run : DiscoveryService → List Op → DiscoveryService
unfolding step
run d [] = d
run d (op ∷ ops) = run (step d op) ops
