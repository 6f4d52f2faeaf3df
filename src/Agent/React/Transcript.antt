-- ===== src/Agent/React/Transcript.antt =====
-- react.go: what a complete run of the agent adds to its messages.
use claw_hermes_ai_go.Base.{ℕ, suc, ◌+◌, ◌≡◌, List, [], ◌∷◌, ◌++◌, String}
use claw_hermes_ai_go.CapGateway.{ToolCall, LlmMessage}
use claw_hermes_ai_go.Agent.React.{ReActState}

-- A message with the output of a tool for the call of an ID.
abbrev reply_to : String → String → LlmMessage
reply_to id content = record {
  role = "tool";
  content = content;
  tool_call_id = id;
  tool_calls = [];
}

-- A message of the language model.
abbrev said : String → List ToolCall → LlmMessage
said content calls = record {
  role = "assistant";
  content = content;
  tool_call_id = "";
  tool_calls = calls;
}

-- One reply to each call, in their order and under their IDs.
pub data Replies : List ToolCall → List LlmMessage → Type 0 where
  no_reply : Replies [] []
  reply :
      {calls : List ToolCall} {messages : List LlmMessage} (content : String) (call : ToolCall)
      → Replies calls messages
      → Replies (call ∷ calls) (reply_to call.id content ∷ messages)

-- The messages of so many answered steps, the calls that they made, and the final output.
pub data Transcript : ℕ → List LlmMessage → List ToolCall → String → Type 0 where
  final_answer : (content : String) → Transcript 1 (said content [] ∷ []) [] content
  round :
      {n : ℕ} {replies rest : List LlmMessage} {later : List ToolCall} {output : String}
      (call : ToolCall) (calls : List ToolCall)
      → Replies (call ∷ calls) replies
      → Transcript n rest later output
      → Transcript
          (suc n)
          (said "" (call ∷ calls) ∷ replies ++ rest)
          ((call ∷ calls) ++ later)
          output

-- The final state extends an earlier one by a transcript of so many steps, and its output is that of
-- the transcript.
pub record Extends (n : ℕ) (s final : ReActState) : Type 0 where
  pub added : List LlmMessage
  pub called : List ToolCall
  pub transcript : Transcript n added called final.output
  pub messages_added : final.messages ≡ s.messages ++ added
  pub calls_added : final.all_tool_calls ≡ s.all_tool_calls ++ called
  pub steps_counted : final.steps ≡ s.steps + n
