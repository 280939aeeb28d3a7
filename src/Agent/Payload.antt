-- ===== src/Agent/Payload.antt =====
-- The results that internal/agent/toolcall.go writes back to the model, and the codec that it uses.
use go_core_mcp.Prelude.{Bool, true, false, Option, none, some, Bytes, lit, if◌then◌else◌}
use go_core_mcp.Json.{Fields, bool, str, end, field, has}
use go_core_mcp.Protocol.{Category, category_text, tool_error}

-- encoding/json: Unmarshal into a map, a Decoder with UseNumber into a map, and Marshal of a map.
pub record Codec : Type 0 where
  pub decode : Bytes → Option Fields
  pub decode_numbers : Bytes → Option Fields
  pub encode : Fields → Option Bytes

or_unencodable : Option Bytes → Bytes
or_unencodable none =
    lit "{\"success\":false,\"error\":\"tool_error\",\"message\":\"result could not be encoded\"}"
or_unencodable (some text) = text

has_success : Option Fields → Bool
has_success none = false
has_success (some fs) = has (lit "success") fs

module _ (codec : Codec) where
  pub encode_payload : Fields → Bytes
  unfolding or_unencodable
  encode_payload body = or_unencodable (codec.encode body)

  unfoldable pub error_payload : Category → Bytes → Bytes
  unfolding encode_payload
  error_payload category message = encode_payload (
      field (lit "success") (bool false) (
        field (lit "error") (str (category_text category))
          (field (lit "message") (str message) end)))

  -- A result of the expected shape is kept, and anything else is wrapped.
  unfoldable pub normalize_result : Bytes → Bool → Bytes
  unfolding has_success encode_payload
  normalize_result text is_error =
      if has_success (codec.decode text)
      then text
      else if is_error
      then error_payload tool_error (lit "tool reported an error")
      else encode_payload (
          field (lit "success") (bool true)
            (field (lit "output") (str text) (field (lit "truncated") (bool false) end)))
