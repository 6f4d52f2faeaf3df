-- ===== src/LlmGateway/Types.antt =====
-- internal/llmgateway/gateway.go: the requests and responses of the language models. A `float32` is an
-- index, since nothing computes with one. The counts of tokens are natural numbers, where the code has
-- `int`: it records only a count above 0, so that one below 0 acts like 0.
use claw_hermes_ai_go.Base.{ℕ, Bool, Option, List, String}
use claw_hermes_ai_go.SkillGateway.Types.{Fields, GoError}

pub record ToolFunction : Type 0 where
  pub name : String
  pub description : String
  pub parameters : Option Fields

pub record Tool : Type 0 where
  pub kind : String
  pub function : ToolFunction

-- The name and the JSON of the arguments.
pub record CalledFunction : Type 0 where
  pub name : String
  pub arguments : String

pub record ToolCall : Type 0 where
  pub id : String
  pub kind : String
  pub function : CalledFunction

pub record Message : Type 0 where
  pub role : String
  pub content : String
  pub tool_calls : List ToolCall
  pub tool_call_id : String

pub record CompletionRequest : Type 0 where
  pub model : String
  pub messages : List Message
  pub temperature : ℕ
  pub max_tokens : ℕ
  pub top_p : ℕ
  pub tools : List Tool
  pub tool_choice : String
  pub stream : Bool

pub record Usage : Type 0 where
  pub prompt_tokens : ℕ
  pub completion_tokens : ℕ
  pub total_tokens : ℕ

pub record CompletionResponse : Type 0 where
  pub content : String
  pub model : String
  pub tool_calls : List ToolCall
  pub usage : Usage

-- A response or an error: the clients return one of the two.
pub data Completed : Type 0 where
  completes : CompletionResponse → Completed
  errs : GoError → Completed

-- What a client does when it is called. One that implements `StreamingLLMClient` has the second
-- function, which also delivers tokens to a callback.
pub record LlmClient : Type 0 where
  pub complete : CompletionRequest → Completed
  pub complete_stream : Option (CompletionRequest → List String × Completed)
  pub health : Option GoError
  pub models : List String

pub record EmbeddingRequest : Type 0 where
  pub input : List String
  pub model : String

pub data Embedded : Type 0 where
  embeds : List (List ℕ) → Embedded
  embedding_fails : GoError → Embedded

pub record EmbeddingClient : Type 0 where
  pub create_embeddings : EmbeddingRequest → Embedded
