-- ===== src/Examples/Parts.antt =====
-- Concrete parameters for the examples.
use go_core_mcp.Prelude.{false, none, some, List, [], ◌∷◌, Bytes, lit}
use go_core_mcp.Prelude.Int.{pos}
use go_core_mcp.Floats.{Floats}
use go_core_mcp.Json.{Fields, str, end, field}
use go_core_mcp.Protocol.{ToolDefinition}
use go_core_mcp.Agent.Messages.{Message, ToolCall}
use go_core_mcp.Agent.Payload.{Codec}
use go_core_mcp.Agent.ToolCall.{Tools, Reply}

abbrev pub no_floats : Floats
no_floats = record {
  parse = λ s. none;
  lt = λ x y. false;
  eq = λ x y. false;
  of_int = λ i. 0;
  to_int = λ x. pos 0;
}

-- Every schema is that of an object, and every call has the argument `path`.
abbrev pub object_schema : Fields
object_schema = field (lit "type") (str (lit "object")) end

abbrev pub path_arguments : Fields
path_arguments = field (lit "path") (str (lit "docs/a")) end

abbrev pub fixed_codec : Codec
fixed_codec = record {
  decode = λ s. some object_schema;
  decode_numbers = λ s. some path_arguments;
  encode = λ fs. some (lit "{}");
}

abbrev pub cat_tool : ToolDefinition
cat_tool = record { name = lit "cat"; description = []; input_schema = lit "{}" }

abbrev pub pwd_tool : ToolDefinition
pwd_tool = record { name = lit "pwd"; description = []; input_schema = lit "{}" }

abbrev pub named_tools : List (Bytes × ToolDefinition)
named_tools = (lit "cat", cat_tool) ∷ (lit "pwd", pwd_tool) ∷ []

abbrev pub cat_call : ToolCall
cat_call = record {
  id = lit "c1";
  kind = lit "function";
  function = record { name = lit "cat"; arguments = lit "{\"path\":\"docs/a\"}" };
}

abbrev pub fixed_tools : Tools
fixed_tools = record {
  codec = fixed_codec;
  floats = no_floats;
  message = λ e. lit "rejected";
  clients = lit "cat" ∷ [];
  call = λ n name raw. Reply.replied (record {
    content = record { kind = lit "text"; text = lit "hello" } ∷ [];
    is_error = false;
  });
}

abbrev pub text_message : Bytes → Bytes → Message
text_message role content = record {
  role = role;
  content = content;
  tool_calls = [];
  tool_call_id = [];
  name = [];
}
