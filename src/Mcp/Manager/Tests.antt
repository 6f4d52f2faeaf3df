-- ===== src/Mcp/Manager/Tests.antt =====
-- The manager at two servers, of which the database refuses the second.
use claw_hermes_ai_go.Base.{ℕ, ◌≡◌, refl, false, Option, none, some, List, [], ◌∷◌, String}
use claw_hermes_ai_go.Base.Dict.{Dict, lookup}
use claw_hermes_ai_go.SkillGateway.Types.{GoError}
use claw_hermes_ai_go.Mcp.Cache.{CacheEntry, get_tools, live}
use claw_hermes_ai_go.Mcp.Manager.{
  McpServerConfig, ClientManager, Answers, Called, gives, new_client_manager, connect,
}
use claw_hermes_ai_go.Mcp.Manager.Keys.{Op, connects, disconnects}
use claw_hermes_ai_go.Mcp.Manager.Connections.{Outcome, connect_outcomes}

abbrev config : String → McpServerConfig
config id = record {
  id = id;
  name = id;
  version = "1";
  transport = "http";
  command = "";
  args = [];
  url = "http://localhost";
  env = [];
  capabilities = [];
  timeout = 0;
}

abbrev refusal : GoError
refusal = record { message = "duplicate name"; is_deadline_exceeded = false }

abbrev answers : Option GoError → Answers String String
answers persists = record {
  connects = none;
  tools = "search" ∷ [];
  resources = [];
  persists = persists;
}

abbrev first_key : Dict (CacheEntry String String) → String
first_key [] = ""
first_key (e ∷ es) = e.0

abbrev ops : List (Op String String)
ops =
    connects (config "a") (answers none) 0
    ∷ connects (config "b") (answers (some refusal)) 1
    ∷ disconnects "a" none
    ∷ []

connect_outcomes_example :
    Outcome first_key new_client_manager
      (config "b")
      (answers (some refusal))
      1
      (connect first_key new_client_manager (config "b") (answers (some refusal)) 1)
connect_outcomes_example =
    connect_outcomes first_key new_client_manager (config "b") (answers (some refusal)) 1

abbrev one_server : ClientManager String String
one_server = record {
  clients = ("a", 0) ∷ [];
  configs = ("a", config "a") ∷ [];
  cache = record {
    entries = ("a", record { tools = "search" ∷ []; resources = []; expires_at = 100 }) ∷ [];
    max_size = 10;
    ttl = 100;
  };
  made = 1;
  connected = 0 ∷ [];
}

abbrev ask : ℕ → Called (List String)
ask c = gives []

abbrev ask_tool : ℕ → Called String
ask_tool c = gives "found"

cached : get_tools one_server.cache "a" 5 ≡ some ("search" ∷ [])
unfolding get_tools lookup live
cached = refl
