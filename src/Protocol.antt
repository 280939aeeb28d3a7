-- ===== src/Protocol.antt =====
-- internal/mcpproto/mcpproto.go: the messages of JSON-RPC and MCP that carry behaviour, and the error
-- categories that tools report. A raw JSON text that is absent is the empty one.
use go_core_mcp.Prelude.{Bool, List, [], ◌∷◌, ◌++◌, Bytes, lit, bytes_eq, if◌then◌else◌}

pub data Category : Type 0 where
  unknown_tool invalid_arguments workspace_violation permission_denied timeout result_too_large
        tool_error :
      Category

unfoldable pub category_text : Category → Bytes
category_text unknown_tool = lit "unknown_tool"
category_text invalid_arguments = lit "invalid_arguments"
category_text workspace_violation = lit "workspace_violation"
category_text permission_denied = lit "permission_denied"
category_text timeout = lit "timeout"
category_text result_too_large = lit "result_too_large"
category_text tool_error = lit "tool_error"

-- A tool definition; its schema is raw JSON.
pub record ToolDefinition : Type 0 where
  pub name : Bytes
  pub description : Bytes
  pub input_schema : Bytes

pub record Content : Type 0 where
  pub kind : Bytes
  pub text : Bytes

pub record CallToolResult : Type 0 where
  pub content : List Content
  pub is_error : Bool

text_of : List Content → Bytes
unfolding bytes_eq
text_of [] = []
text_of (c ∷ cs) =
    let rest = text_of cs in if bytes_eq c.kind (lit "text") then c.text ++ rest else rest

-- `Text`: one text block is returned as it is, and else the text blocks are joined.
unfoldable pub result_text : CallToolResult → Bytes
unfolding text_of
result_text r = text_of r.content
