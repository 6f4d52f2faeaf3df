-- ===== src/Mcp/Manager.antt =====
-- internal/mcp/client_manager.go: the clients of the servers, over the cache of their capabilities. A
-- client is the number of its making, and the state tells which ones have an open connection; what a
-- client or the database answers is an argument of the call. A method that takes the mutex holds it
-- while it changes the clients. Tools and resources are of any type.
pub mod Keys
pub mod Connections
mod Tests
use claw_hermes_ai_go.Base.{
  ℕ, zero, suc, ◌+◌, Bool, true, false, not, Option, none, some, List, [], ◌∷◌, String, ◌==◌,
  if◌then◌else◌, keep,
}
use claw_hermes_ai_go.Base.Dict.{Dict, lookup, insert, erase, has}
use claw_hermes_ai_go.SkillGateway.Types.{GoError}
use claw_hermes_ai_go.Mcp.Cache.{
  CapabilityCache, CacheEntry, new_capability_cache, store, store_tools, store_resources, delete,
  get_tools, get_resources,
}

pub record McpServerConfig : Type 0 where
  pub id : String
  pub name : String
  pub version : String
  pub transport : String
  pub command : String
  pub args : List String
  pub url : String
  pub env : Dict String
  pub capabilities : List String
  pub timeout : ℕ

pub record ClientManager {ℓ} (T R : Type ℓ) : Type ℓ where
  pub clients : Dict ℕ
  pub configs : Dict McpServerConfig
  pub cache : CapabilityCache T R
  pub made : ℕ
  pub connected : List ℕ

pub data ManagerError : Type 0 where
  already_connected client_not_found : String → ManagerError
  of_client of_database : GoError → ManagerError

-- What the server and the database answer to a connection: a list that could not be had is nil.
pub record Answers {ℓ} (T R : Type ℓ) : Type ℓ where
  pub connects : Option GoError
  pub tools : List T
  pub resources : List R
  pub persists : Option GoError

close : ℕ → List ℕ → List ℕ
close client connected = keep (λ c. not (c == client)) connected

-- The answer of the client of a server.
pub data Called {ℓ} (A : Type ℓ) : Type ℓ where
  gives : A → Called A
  throws : ManagerError → Called A

close_all : (disconnects : ℕ → Option GoError) → Dict ℕ → List ℕ → List ℕ
unfolding close
close_all disconnects [] connected = connected
close_all disconnects ((server_id, client) ∷ rest) connected =
    close_all disconnects rest
      (elim (disconnects client) [ none ↦ close client connected | some e ↦ connected ])

module _ {ℓ} {T R : Type ℓ} where
  -- `NewClientManager`, whose cache has room for 1000 servers and keeps them for an hour.
  pub new_client_manager : ClientManager T R
  new_client_manager = record {
    clients = [];
    configs = [];
    cache = new_capability_cache 1000 3_600_000_000_000;
    made = 0;
    connected = [];
  }

  pub disconnect :
      ClientManager T R → String → Option GoError → ClientManager T R × Option ManagerError
  unfolding close
  disconnect m server_id answer = elim (lookup server_id m.clients) [
    | none ↦ (m, some (client_not_found server_id))
    | some client ↦ elim answer [
      | some e ↦ (m, some (of_client e))
      | none ↦ (
        record m {
          clients = erase server_id m.clients;
          configs = erase server_id m.configs;
          cache = delete m.cache server_id;
          connected = close client m.connected;
        },
        none,
      )
    ]
  ]

  pub get_client : ClientManager T R → String → Option ℕ
  get_client m server_id = lookup server_id m.clients

  pub get_all_clients : ClientManager T R → Dict ℕ
  get_all_clients m = m.clients

  pub call_tool : {A : Type ℓ} → ClientManager T R → String → (ℕ → Called A) → Called A
  call_tool m server_id client_call = elim (lookup server_id m.clients) [
    | none ↦ throws (client_not_found server_id)
    | some client ↦ client_call client
  ]

  -- The loop of `performHealthCheck`: an unhealthy client whose server has a configuration is connected
  -- again, and the answers are those of the clients.
  pub perform_health_check :
      (is_healthy : ℕ → Bool)
      → (connects : ℕ → Option GoError) → Dict ℕ
      → ClientManager T R
      → ClientManager T R
  perform_health_check is_healthy connects [] m = m
  perform_health_check is_healthy connects ((server_id, client) ∷ rest) m =
      let reconnected =
        perform_health_check is_healthy connects rest
          (record m { connected = client ∷ m.connected }) in
      let unchanged = perform_health_check is_healthy connects rest m in
      if is_healthy client then unchanged else elim (lookup server_id m.configs) [
        | none ↦ unchanged
        | some config ↦ elim (connects client) [ some e ↦ unchanged | none ↦ reconnected ]
      ]

  -- The first call; the second panics when it closes the channel again.
  pub stop : ClientManager T R → (ℕ → Option GoError) → ClientManager T R
  unfolding close_all
  stop m disconnects = record m {
    clients = [];
    configs = [];
    connected = close_all disconnects m.clients m.connected;
  }

  module _ (range_first : Dict (CacheEntry T R) → String) where
    -- `Connect` behind the discovery of the capabilities, by the answer of the database.
    keep_client :
        ClientManager T R
        → McpServerConfig
        → ℕ
        → Option GoError
        → ClientManager T R × Option ManagerError
    keep_client m config client (some e) =
        (record m { cache = delete m.cache config.id }, some (of_database e))
    keep_client m config client none = (
      record m {
        clients = insert config.id client m.clients;
        configs = insert config.id config m.configs;
      },
      none,
    )

    dial :
        ClientManager T R
        → McpServerConfig
        → Answers T R
        → ℕ
        → Option GoError
        → ClientManager T R × Option ManagerError
    unfolding keep_client
    dial m config answers now (some e) = (record m { made = m.made + 1 }, some (of_client e))
    dial m config answers now none =
        keep_client
          (record m {
            made = m.made + 1;
            connected = m.made ∷ m.connected;
            cache = store range_first m.cache config.id answers.tools answers.resources now;
          })
          config m.made answers.persists

    pub connect :
        ClientManager T R
        → McpServerConfig
        → Answers T R
        → ℕ
        → ClientManager T R × Option ManagerError
    unfolding dial
    connect m config answers now =
        if has config.id m.clients
        then (m, some (already_connected config.id))
        else dial m config answers now answers.connects

    keep_tools :
        ClientManager T R → String → ℕ → Called (List T) → ClientManager T R × Called (List T)
    keep_tools m server_id now (throws e) = (m, throws e)
    keep_tools m server_id now (gives tools) =
        (record m { cache = store_tools range_first m.cache server_id tools now }, gives tools)

    -- The cache first, and then the client, whose tools are kept.
    pub list_tools :
        ClientManager T R → String → ℕ → (ℕ → Called (List T)) → ClientManager T R × Called (List T)
    unfolding keep_tools
    list_tools m server_id now client_tools = elim (get_tools m.cache server_id now) [
      | some tools ↦ (m, gives tools)
      | none ↦ elim (lookup server_id m.clients) [
        | none ↦ (m, throws (client_not_found server_id))
        | some client ↦ keep_tools m server_id now (client_tools client)
      ]
    ]

    keep_resources :
        ClientManager T R → String → ℕ → Called (List R) → ClientManager T R × Called (List R)
    keep_resources m server_id now (throws e) = (m, throws e)
    keep_resources m server_id now (gives resources) = (
      record m { cache = store_resources range_first m.cache server_id resources now },
      gives resources,
    )

    pub list_resources :
        ClientManager T R → String → ℕ → (ℕ → Called (List R)) → ClientManager T R × Called (List R)
    unfolding keep_resources
    list_resources m server_id now client_resources = elim (get_resources m.cache server_id now) [
      | some resources ↦ (m, gives resources)
      | none ↦ elim (lookup server_id m.clients) [
        | none ↦ (m, throws (client_not_found server_id))
        | some client ↦ keep_resources m server_id now (client_resources client)
      ]
    ]

    -- The loop of `RestoreFromDB` over the rows, whose failures are logged only.
    pub restore : ClientManager T R → List (McpServerConfig × Answers T R) → ℕ → ClientManager T R
    unfolding connect
    restore m [] now = m
    restore m ((config, answers) ∷ rest) now = restore (connect m config answers now).0 rest now
