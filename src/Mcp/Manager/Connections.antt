-- ===== src/Mcp/Manager/Connections.antt =====
-- client_manager.go: the outcomes of a connection, and what a stop leaves.
use claw_hermes_ai_go.Base.{
  ℕ, ◌+◌, ◌≤◌, ◌≡◌, refl, ap, ◌∙◌, inl, inr, true, false, str_eq, if◌then◌else◌, Option, none, some,
  List, ◌∷◌, String, Bool-cases,
}
use claw_hermes_ai_go.Base.Dict.{Dict, lookup, has, lookup-insert}
use claw_hermes_ai_go.SkillGateway.Types.{GoError}
use claw_hermes_ai_go.Mcp.Cache.{CacheEntry, store, get, get_tools, tools_in}
use claw_hermes_ai_go.Mcp.Cache.Laws.{get_tools-get, get-delete, get-store}
use claw_hermes_ai_go.Mcp.Manager.{
  McpServerConfig, ClientManager, ManagerError, already_connected, client_not_found, of_client,
  of_database, Answers, Called, gives, throws, call_tool, connect, dial, keep_client, list_tools,
  stop,
}

module _ {ℓ} {T R : Type ℓ} (range_first : Dict (CacheEntry T R) → String) where
  list_tools-cached :
      (m : ClientManager T R) (k : String) (now : ℕ) (ask : ℕ → Called (List T)) (tools : List T)
      → get_tools m.cache k now ≡ some tools
      → list_tools range_first m k now ask ≡ (m, gives tools)
  unfolding list_tools
  list_tools-cached m k now ask tools e = rw (e, list_tools) refl

  -- What a connection makes of the manager, by the answers of the server and the database. Where the
  -- database refuses, the client stays connected and is not among the clients.
  pub data Outcome (m : ClientManager T R) (config : McpServerConfig) (answers : Answers T R)
      (now : ℕ) : ClientManager T R × Option ManagerError → Type ℓ where
    taken :
        has config.id m.clients ≡ true
        → Outcome m config answers now (m, some (already_connected config.id))
    unreached :
        {e : GoError}
        → has config.id m.clients ≡ false
        → answers.connects ≡ some e
        → Outcome m config answers now (record m { made = m.made + 1 }, some (of_client e))
    lost :
        {m' : ClientManager T R} {e : GoError}
        → has config.id m.clients ≡ false
        → answers.connects ≡ none
        → answers.persists ≡ some e
        → m'.clients ≡ m.clients
        → m'.configs ≡ m.configs
        → m'.made ≡ m.made + 1
        → m'.connected ≡ m.made ∷ m.connected
        → ((later : ℕ) → get m'.cache config.id later ≡ none)
        → Outcome m config answers now (m', some (of_database e))
    added :
        {m' : ClientManager T R}
        → has config.id m.clients ≡ false
        → answers.connects ≡ none
        → answers.persists ≡ none
        → ((k : String)
            → lookup k m'.clients
              ≡ (if str_eq config.id k then some m.made else lookup k m.clients))
        → ((k : String)
            → lookup k m'.configs
              ≡ (if str_eq config.id k then some config else lookup k m.configs))
        → m'.made ≡ m.made + 1
        → m'.connected ≡ m.made ∷ m.connected
        → ((later : ℕ) (ask : ℕ → Called (List T))
            → later ≤ now + m.cache.ttl
            → list_tools range_first m' config.id later ask ≡ (m', gives answers.tools))
        → Outcome m config answers now (m', none)

  stored_tools :
      (m : ClientManager T R) (config : McpServerConfig) (answers : Answers T R) (now later : ℕ)
      → later ≤ now + m.cache.ttl
      → get_tools
          (store range_first m.cache config.id answers.tools answers.resources now)
          config.id
          later
        ≡ some answers.tools
  stored_tools m config answers now later in_time =
      get_tools-get _ config.id later
      ∙ ap tools_in (
          get-store range_first m.cache config.id answers.tools answers.resources now later in_time)

  dial-Outcome :
      (m : ClientManager T R) (config : McpServerConfig) (answers : Answers T R) (now : ℕ)
      (connects persists : Option GoError)
      → has config.id m.clients ≡ false
      → answers.connects ≡ connects
      → answers.persists ≡ persists
      → Outcome m config answers now
          (dial range_first m config (record answers { persists = persists }) now connects)
  unfolding dial keep_client
  dial-Outcome m config answers now (some e) persists new reach write = unreached new reach
  dial-Outcome m config answers now none (some e) new reach write =
      lost new reach write refl refl refl refl (λ later. get-delete _ config.id later)
  dial-Outcome m config answers now none none new reach write =
      added new reach write (λ k. lookup-insert config.id k m.made m.clients)
        (λ k. lookup-insert config.id k config m.configs) refl refl
        (λ later ask in_time.
          list_tools-cached _ config.id later ask answers.tools
            (stored_tools m config answers now later in_time))

  -- A connection has one of four outcomes. The server has a client already, and nothing changes. Or it
  -- has none and refuses, and only the number of made clients grows. Or it has none and is reached, and
  -- the database refuses: then the clients and the configurations are as before, no entry for the
  -- server is left in the cache, not even one from before, but the new client keeps its connection. Or
  -- it has none and both agree: then the server has the new client and the configuration, every other
  -- server has those of before, and as long as the cache keeps its entries, the server's tools are
  -- listed as discovered, without a call to the client.
  pub connect_outcomes :
      (m : ClientManager T R) (config : McpServerConfig) (answers : Answers T R) (now : ℕ)
      → Outcome m config answers now (connect range_first m config answers now)
  unfolding connect
  connect_outcomes m config answers now = elim (Bool-cases (has config.id m.clients)) [
    | inl e ↦ rw e (taken e)
    | inr e ↦ rw e (dial-Outcome m config answers now answers.connects answers.persists e refl refl)
  ]

  -- A stop forgets the clients but not the cache: the tools of a server are still listed for as long as
  -- its entry lives, while a call of one of them fails because the server has no client.
  pub stop_keeps_tools :
      {A : Type ℓ} (m : ClientManager T R) (k : String) (now : ℕ) (tools : List T)
      (disconnects : ℕ → Option GoError) (ask : ℕ → Called (List T)) (ask_tool : ℕ → Called A)
      → get_tools m.cache k now ≡ some tools
      → (list_tools range_first (stop m disconnects) k now ask ≡ (stop m disconnects, gives tools))
        × (call_tool (stop m disconnects) k ask_tool ≡ throws (client_not_found k))
  unfolding call_tool stop lookup
  stop_keeps_tools m k now tools disconnects ask ask_tool e =
      (list_tools-cached (stop m disconnects) k now ask tools e, refl)
