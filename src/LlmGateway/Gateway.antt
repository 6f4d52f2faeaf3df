-- ===== src/LlmGateway/Gateway.antt =====
-- internal/llmgateway/gateway.go and config.go: the gateway that finds the client for a model. The
-- calls that return also give the metrics that they record, in order; the durations that they record
-- and the log are not modelled. `sort.Strings` and the clients' constructors are arguments.
pub mod Counting
pub mod Providers
mod Tests
use claw_hermes_ai_go.Base.{
  ℕ, zero, suc, Bool, true, false, Option, none, some, List, [], ◌∷◌, ◌++◌, String, str_append,
  str_eq, starts_with, if◌then◌else◌, ◌||◌,
}
use claw_hermes_ai_go.Base.Dict.{Dict, lookup, insert}
use claw_hermes_ai_go.SkillGateway.Types.{GoError}
use claw_hermes_ai_go.LlmGateway.Types.{
  CompletionRequest, CompletionResponse, Completed, completes, errs, LlmClient, EmbeddingRequest,
  Embedded, embedding_fails, EmbeddingClient,
}

-- A request to a model of a provider with its status, its duration, and the tokens of a kind, which
-- are counted and put into a histogram.
pub data Metric : Type 0 where
  llm_request : String → String → String → Metric
  llm_request_duration : String → String → Metric
  llm_token_usage : String → String → ℕ → Metric
  llm_token_histogram : String → String → ℕ → Metric

pub record Gateway : Type 0 where
  pub clients : Dict LlmClient
  pub embedding_clients : Dict EmbeddingClient
  pub default_provider : String

abbrev pub provider_qwen : String
provider_qwen = "qwen"

abbrev pub provider_zhipu : String
provider_zhipu = "zhipu"

abbrev pub new_gateway : Gateway
new_gateway = record { clients = []; embedding_clients = []; default_provider = "" }

pub register_client : Gateway → String → LlmClient → Gateway
register_client g provider client = record g { clients = insert provider client g.clients }

pub register_embedding_client : Gateway → String → EmbeddingClient → Gateway
register_embedding_client g provider client = record g {
  embedding_clients = insert provider client g.embedding_clients;
}

pub set_default : Gateway → String → Gateway
set_default g provider = record g { default_provider = provider }

pub parse_provider : Gateway → String → String
parse_provider g model =
    if starts_with model "text-embedding-v3" || starts_with model "qwen-"
    then provider_qwen
    else if starts_with model "embedding-3" || starts_with model "glm-"
    then provider_zhipu
    else g.default_provider

plain_error : String → GoError
plain_error message = record { message = message; is_deadline_exceeded = false }

pub status_of : Completed → String
status_of (completes r) = "success"
status_of (errs e) = "error"

-- What `Complete` records of the tokens of a kind, and what `CompleteStream` does.
recorded : String → String → ℕ → List Metric
recorded model kind zero = []
recorded model kind (suc n) =
    llm_token_usage model kind (suc n) ∷ llm_token_histogram model kind (suc n) ∷ []

stream_recorded : String → String → ℕ → List Metric
stream_recorded model kind zero = []
stream_recorded model kind (suc n) = llm_token_usage model kind (suc n) ∷ []

token_metrics : String → Completed → List Metric
unfolding recorded
token_metrics model (errs e) = []
token_metrics model (completes r) =
    recorded model "prompt" r.usage.prompt_tokens
    ++ recorded model "completion" r.usage.completion_tokens

stream_token_metrics : String → Completed → List Metric
unfolding stream_recorded
stream_token_metrics model (errs e) = []
stream_token_metrics model (completes r) =
    stream_recorded model "prompt" r.usage.prompt_tokens
    ++ stream_recorded model "completion" r.usage.completion_tokens

pub provider_of : Gateway → String → String
unfolding parse_provider
provider_of g model = if str_eq model "" then g.default_provider else parse_provider g model

call_client : CompletionRequest → String → Option LlmClient → Completed × List Metric
unfolding plain_error token_metrics status_of
call_client req provider none = (
  errs (plain_error (str_append "provider not found: " provider)),
  llm_request req.model provider "error" ∷ [],
)
call_client req provider (some client) =
    let resp = client.complete req in
    (
      resp,
      llm_request req.model provider (status_of resp)
          ∷ llm_request_duration req.model provider
          ∷ token_metrics req.model resp,
    )

pub complete : Gateway → CompletionRequest → Completed × List Metric
unfolding provider_of call_client
complete g req =
    call_client req (provider_of g req.model) (lookup (provider_of g req.model) g.clients)

-- A client that cannot stream delivers its content as one token.
pub content_token : Completed → List String
content_token (completes r) = r.content ∷ []
content_token (errs e) = []

pub streamed : LlmClient → CompletionRequest → List String × Completed
unfolding content_token
streamed client req = elim client.complete_stream [
  | some stream ↦ stream req
  | none ↦ (content_token (client.complete req), client.complete req)
]

stream_client :
    CompletionRequest → String → Option LlmClient → List String × Completed × List Metric
unfolding plain_error stream_token_metrics status_of streamed
stream_client req provider none = (
  [],
  errs
      (plain_error (str_append "llmgateway: no client for provider \"" (str_append provider "\""))),
  llm_request req.model provider "error" ∷ [],
)
stream_client req provider (some client) =
    let (tokens, resp) = streamed client req in
    (
      tokens,
      resp,
      llm_request req.model provider (status_of resp)
          ∷ llm_request_duration req.model provider
          ∷ stream_token_metrics req.model resp,
    )

pub complete_stream : Gateway → CompletionRequest → List String × Completed × List Metric
unfolding parse_provider stream_client
complete_stream g req =
    stream_client req (parse_provider g req.model) (lookup (parse_provider g req.model) g.clients)

pub create_embeddings : Gateway → EmbeddingRequest → Embedded
unfolding parse_provider plain_error
create_embeddings g req = elim (lookup (parse_provider g req.model) g.embedding_clients) [
  | some client ↦ client.create_embeddings req
  | none ↦ elim (lookup g.default_provider g.embedding_clients) [
    | some client ↦ client.create_embeddings req
    | none ↦ embedding_fails (plain_error "no embedding client registered")
  ]
]

-- The first client that is not well, with its error.
pub health : Dict LlmClient → Option (String × GoError)
health [] = none
health ((provider, client) ∷ rest) = elim client.health [
  | some e ↦ some (provider, e)
  | none ↦ health rest
]

all_models : Dict LlmClient → List String
all_models [] = []
all_models ((provider, client) ∷ rest) = client.models ++ all_models rest

pub list_chat_models : (List String → List String) → Gateway → List String
unfolding all_models
list_chat_models sort g = sort (all_models g.clients)

pub record Config : Type 0 where
  pub qwen_api_key : String
  pub zhipu_api_key : String
  pub default_provider : String

pub load_config : (String → String) → Config
load_config getenv = record {
  qwen_api_key = getenv "QWEN_API_KEY";
  zhipu_api_key = getenv "ZHIPU_API_KEY";
  default_provider = provider_qwen;
}

-- A provider with a key gets a client, which also makes embeddings.
add_provider : (String → LlmClient × EmbeddingClient) → String → String → Gateway → Gateway
unfolding register_client register_embedding_client
add_provider make provider key g =
    if str_eq key ""
    then g
    else register_embedding_client (register_client g provider (make key).0) provider (make key).1

pub initialize_gateway : (qwen zhipu : String → LlmClient × EmbeddingClient) → Config → Gateway
unfolding add_provider set_default
initialize_gateway qwen zhipu cfg =
    set_default
      (add_provider zhipu provider_zhipu cfg.zhipu_api_key
        (add_provider qwen provider_qwen cfg.qwen_api_key new_gateway))
      (if str_eq cfg.default_provider "" then provider_qwen else cfg.default_provider)
