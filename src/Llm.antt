-- ===== src/Llm.antt =====
-- python/src/haikeilabs/agentware/llm: roles, messages, tool calls and responses, and the backend, which
-- is given from outside: it may read and write a state `W` and may raise.
use agentware.Prelude.{ℕ, String, none, List, []}
use agentware.Prelude.Value.{Value}
use agentware.Prelude.Exec.{Exec}
use agentware.Types.{MessageType, MessageMeta}

pub data Role : Type 0 where
  system user assistant tool : Role

-- The arguments are annotated as a dictionary, and hold whatever value the code puts there.
pub record ToolCall : Type 0 where
  pub id : String
  pub name : String
  pub arguments : Value

pub record Message : Type 0 where
  pub role : Role
  pub content : String
  pub tool_call_id : String
  pub tool_calls : List ToolCall
  pub meta : MessageMeta

abbrev pub meta_of : MessageType → MessageMeta
meta_of type = record {
  type = type;
  step_index = none;
  original_type = none;
  token_estimate = none;
}

-- `Message(role=…, content=…)` with a metadata of the given type
abbrev pub new_message : Role → String → MessageType → Message
new_message role content type = record {
  role = role;
  content = content;
  tool_call_id = "";
  tool_calls = [];
  meta = meta_of type;
}

pub record TokenUsage : Type 0 where
  pub prompt_tokens : ℕ
  pub completion_tokens : ℕ
  pub total_tokens : ℕ

pub record Response : Type 0 where
  pub content : String
  pub reasoning : String
  pub tool_calls : List ToolCall
  pub finish_reason : String
  pub usage_tokens : TokenUsage

-- `Backend.complete`
abbrev pub Backend {ℓ} : Type ℓ → Type ℓ
Backend W = List Message → Exec W Response
