-- ===== src/Mcp/Manager/Keys.antt =====
-- client_manager.go: the servers with a client and those with a configuration.
use claw_hermes_ai_go.Base.{
  ℕ, ◌≡◌, refl, inl, inr, Bool, Option, none, some, List, [], ◌∷◌, String, arith, Bool-cases,
  Option-cases,
}
use claw_hermes_ai_go.Base.Dict.{Dict, lookup, insert, erase, has, lookup-insert, lookup-erase}
use claw_hermes_ai_go.SkillGateway.Types.{GoError}
use claw_hermes_ai_go.Mcp.Cache.{CacheEntry, get_tools, get_resources}
use claw_hermes_ai_go.Mcp.Manager.{
  McpServerConfig, ClientManager, Answers, Called, gives, throws, connect, dial, keep_client,
  disconnect, list_tools, keep_tools, list_resources, keep_resources, perform_health_check, stop,
  restore, new_client_manager,
}

-- The methods that change the manager.
pub data Op {ℓ} (T R : Type ℓ) : Type ℓ where
  connects : McpServerConfig → Answers T R → ℕ → Op T R
  disconnects : String → Option GoError → Op T R
  lists_tools : String → ℕ → (ℕ → Called (List T)) → Op T R
  lists_resources : String → ℕ → (ℕ → Called (List R)) → Op T R
  checks_health : (ℕ → Bool) → (ℕ → Option GoError) → Op T R
  restores : List (McpServerConfig × Answers T R) → ℕ → Op T R
  stops : (ℕ → Option GoError) → Op T R

module _ {ℓ} {T R : Type ℓ} (range_first : Dict (CacheEntry T R) → String) where
  pub step : ClientManager T R → Op T R → ClientManager T R
  step m (connects config answers now) = (connect range_first m config answers now).0
  step m (disconnects k answer) = (disconnect m k answer).0
  step m (lists_tools k now ask) = (list_tools range_first m k now ask).0
  step m (lists_resources k now ask) = (list_resources range_first m k now ask).0
  step m (checks_health is_healthy answers) = perform_health_check is_healthy answers m.clients m
  step m (restores rows now) = restore range_first m rows now
  step m (stops answers) = stop m answers

  pub run : ClientManager T R → List (Op T R) → ClientManager T R
  unfolding step
  run m [] = m
  run m (op ∷ ops) = run (step m op) ops

  abbrev Matched : ClientManager T R → Type 0
  Matched m = (k : String) → has k m.configs ≡ has k m.clients

  both_insert :
      {A B : Type 0} (a : Dict A) (b : Dict B) (k : String) (x : A) (y : B)
      → ((j : String) → has j a ≡ has j b)
      → (j : String) → has j (insert k x a) ≡ has j (insert k y b)
  unfolding has
  both_insert a b k x y h j = ground (arith, lookup-insert k j x a, lookup-insert k j y b, h j)

  both_erase :
      {A B : Type 0} (a : Dict A) (b : Dict B) (k : String)
      → ((j : String) → has j a ≡ has j b)
      → (j : String) → has j (erase k a) ≡ has j (erase k b)
  unfolding has
  both_erase a b k h j = ground (arith, lookup-erase k j a, lookup-erase k j b, h j)

  dial-Matched :
      (m : ClientManager T R) (config : McpServerConfig) (answers : Answers T R) (now : ℕ)
      (reach persist : Option GoError)
      → Matched m
      → Matched (dial range_first m config (record answers { persists = persist }) now reach).0
  unfolding dial keep_client
  dial-Matched m config answers now (some e) persist h = h
  dial-Matched m config answers now none (some e) h = h
  dial-Matched m config answers now none none h =
      both_insert m.configs m.clients config.id config m.made h

  connect-Matched :
      (m : ClientManager T R) (config : McpServerConfig) (answers : Answers T R) (now : ℕ)
      → Matched m
      → Matched (connect range_first m config answers now).0
  unfolding connect
  connect-Matched m config answers now h = elim (Bool-cases (has config.id m.clients)) [
    | inl e ↦ rw e h
    | inr e ↦ rw e (dial-Matched m config answers now answers.connects answers.persists h)
  ]

  disconnect-Matched :
      (m : ClientManager T R) (k : String) (answer : Option GoError)
      → Matched m
      → Matched (disconnect m k answer).0
  unfolding disconnect
  disconnect-Matched m k answer h = elim (Option-cases (lookup k m.clients)) [
    | inl e ↦ rw (e, disconnect) h
    | inr (client, e) ↦ elim (Option-cases answer) [
      | inl fine ↦ rw (e, disconnect, fine) (both_erase m.configs m.clients k h)
      | inr (x, fails) ↦ rw (e, disconnect, fails) h
    ]
  ]

  keep_tools-Matched :
      (m : ClientManager T R) (k : String) (now : ℕ) (answer : Called (List T))
      → Matched m
      → Matched (keep_tools range_first m k now answer).0
  unfolding keep_tools
  keep_tools-Matched m k now (gives tools) h = h
  keep_tools-Matched m k now (throws e) h = h

  list_tools-Matched :
      (m : ClientManager T R) (k : String) (now : ℕ) (ask : ℕ → Called (List T))
      → Matched m
      → Matched (list_tools range_first m k now ask).0
  unfolding list_tools
  list_tools-Matched m k now ask h = elim (Option-cases (get_tools m.cache k now)) [
    | inr (tools, e) ↦ rw (e, list_tools) h
    | inl e ↦ elim (Option-cases (lookup k m.clients)) [
      | inl f ↦ rw (e, list_tools, f) h
      | inr (client, f) ↦ rw (e, list_tools, f) (keep_tools-Matched m k now (ask client) h)
    ]
  ]

  keep_resources-Matched :
      (m : ClientManager T R) (k : String) (now : ℕ) (answer : Called (List R))
      → Matched m
      → Matched (keep_resources range_first m k now answer).0
  unfolding keep_resources
  keep_resources-Matched m k now (gives resources) h = h
  keep_resources-Matched m k now (throws e) h = h

  list_resources-Matched :
      (m : ClientManager T R) (k : String) (now : ℕ) (ask : ℕ → Called (List R))
      → Matched m
      → Matched (list_resources range_first m k now ask).0
  unfolding list_resources
  list_resources-Matched m k now ask h = elim (Option-cases (get_resources m.cache k now)) [
    | inr (resources, e) ↦ rw (e, list_resources) h
    | inl e ↦ elim (Option-cases (lookup k m.clients)) [
      | inl f ↦ rw (e, list_resources, f) h
      | inr (client, f) ↦ rw (e, list_resources, f) (keep_resources-Matched m k now (ask client) h)
    ]
  ]

  check-Matched :
      (is_healthy : ℕ → Bool) (answers : ℕ → Option GoError) (cs : Dict ℕ) (m : ClientManager T R)
      → Matched m
      → Matched (perform_health_check is_healthy answers cs m)
  unfolding perform_health_check
  check-Matched is_healthy answers [] m h = h
  check-Matched is_healthy answers ((k, client) ∷ cs) m h =
      let same = check-Matched is_healthy answers cs m h in
      elim (Bool-cases (is_healthy client)) [
        | inl well ↦ rw well same
        | inr ill ↦ elim (Option-cases (lookup k m.configs)) [
          | inl e ↦ rw (ill, e, perform_health_check) same
          | inr (config, e) ↦ elim (Option-cases (answers client)) [
            | inl reached ↦
                rw (ill, e, perform_health_check, reached)
                  (check-Matched is_healthy answers cs
                    (record m { connected = client ∷ m.connected }) h)
            | inr (x, fails) ↦ rw (ill, e, perform_health_check, fails) same
          ]
        ]
      ]

  restore-Matched :
      (m : ClientManager T R) (rows : List (McpServerConfig × Answers T R)) (now : ℕ)
      → Matched m
      → Matched (restore range_first m rows now)
  unfolding restore
  restore-Matched m [] now h = h
  restore-Matched m ((config, answers) ∷ rows) now h =
      restore-Matched (connect range_first m config answers now).0 rows now
        (connect-Matched m config answers now h)

  step-Matched : (m : ClientManager T R) (op : Op T R) → Matched m → Matched (step m op)
  unfolding step stop has lookup
  step-Matched m (connects config answers now) h = connect-Matched m config answers now h
  step-Matched m (disconnects k answer) h = disconnect-Matched m k answer h
  step-Matched m (lists_tools k now ask) h = list_tools-Matched m k now ask h
  step-Matched m (lists_resources k now ask) h = list_resources-Matched m k now ask h
  step-Matched m (checks_health is_healthy answers) h =
      check-Matched is_healthy answers m.clients m h
  step-Matched m (restores rows now) h = restore-Matched m rows now h
  step-Matched m (stops answers) h = λ k. refl

  run-Matched : (m : ClientManager T R) (ops : List (Op T R)) → Matched m → Matched (run m ops)
  unfolding run
  run-Matched m [] h = h
  run-Matched m (op ∷ ops) h = run-Matched (step m op) ops (step-Matched m op h)

  -- Whatever methods are called on a new manager, and whatever the servers and the database answer, a
  -- server has a client exactly if it has a configuration.
  pub clients_match_configs :
      (ops : List (Op T R)) (k : String)
      → has k (run new_client_manager ops).configs ≡ has k (run new_client_manager ops).clients
  unfolding new_client_manager has lookup
  clients_match_configs ops k = run-Matched new_client_manager ops (λ j. refl) k
