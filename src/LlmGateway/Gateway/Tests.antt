-- ===== src/LlmGateway/Gateway/Tests.antt =====
-- The gateway of the language models at concrete configurations and clients.
use claw_hermes_ai_go.Base.{◌≡◌, Bool, none, [], ◌∷◌, String, keep}
use claw_hermes_ai_go.LlmGateway.Types.{
  CompletionRequest, Completed, completes, LlmClient, EmbeddingClient, embeds,
}
use claw_hermes_ai_go.LlmGateway.Gateway.{
  Gateway, llm_request, Config, complete, complete_stream, parse_provider, status_of,
}
use claw_hermes_ai_go.LlmGateway.Gateway.Counting.{counts_request, one_request_counted}

abbrev answer : String → Completed
answer content = completes (record {
  content = content;
  model = "m";
  tool_calls = [];
  usage = record { prompt_tokens = 3; completion_tokens = 0; total_tokens = 3 };
})

abbrev plain_client : String → LlmClient
plain_client key = record {
  complete = λ q. answer key;
  complete_stream = none;
  health = none;
  models = "glm-4" ∷ [];
}

abbrev clients : String → LlmClient × EmbeddingClient
clients key = (plain_client key, record { create_embeddings = λ q. embeds [] })

abbrev only_zhipu : Config
only_zhipu = record { qwen_api_key = ""; zhipu_api_key = "z"; default_provider = "" }

abbrev gateway : Gateway
gateway = record {
  clients = ("zhipu", plain_client "z") ∷ [];
  embedding_clients = [];
  default_provider = "qwen";
}

abbrev request : CompletionRequest
request = record {
  model = "glm-4";
  messages = [];
  temperature = 0;
  max_tokens = 0;
  top_p = 0;
  tools = [];
  tool_choice = "";
  stream = Bool.false;
}

one_request_counted_example :
    (keep counts_request (complete gateway request).1
      ≡ llm_request "glm-4"
          (parse_provider gateway "glm-4")
          (status_of (complete gateway request).0)
        ∷ [])
    × (keep counts_request (complete_stream gateway request).2
        ≡ llm_request "glm-4"
            (parse_provider gateway "glm-4")
            (status_of (complete_stream gateway request).1)
          ∷ [])
one_request_counted_example = one_request_counted gateway request
