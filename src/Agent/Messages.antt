-- ===== src/Agent/Messages.antt =====
-- The messages of internal/llm/llm.go. Of a tool's parameters the model keeps the decoded schema.
use go_core_mcp.Prelude.{ℕ, List, Bytes}
use go_core_mcp.Json.{Fields}

pub record FunctionCall : Type 0 where
  pub name : Bytes
  pub arguments : Bytes

pub record ToolCall : Type 0 where
  pub id : Bytes
  pub kind : Bytes
  pub function : FunctionCall

pub record Message : Type 0 where
  pub role : Bytes
  pub content : Bytes
  pub tool_calls : List ToolCall
  pub tool_call_id : Bytes
  pub name : Bytes

pub record Function : Type 0 where
  pub name : Bytes
  pub description : Bytes
  pub parameters : Fields

pub record Tool : Type 0 where
  pub kind : Bytes
  pub function : Function

abbrev pub max_output_tokens : ℕ
max_output_tokens = 256
