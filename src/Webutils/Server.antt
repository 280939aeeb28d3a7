-- ===== src/Webutils/Server.antt =====
-- webutils/server.go: the MCP server of the web tools. The browser is a parameter; a panic of it is
-- one of the server.
pub mod Assertions
use go_core_mcp.Prelude.{
  Bool, true, false, not, Option, none, some, List, [], ◌∷◌, Bytes, lit, bytes_eq, if◌then◌else◌,
}
use go_core_mcp.Prelude.Int.{ℤ, pos}
use go_core_mcp.Outcome.{Outcome, ok, err, panic, ◌>>=◌}
use go_core_mcp.Floats.{Floats}
use go_core_mcp.Json.{Value, Fields, bool, str, end, field, get, as_string, as_bool}
use go_core_mcp.Strings.{trim_space}
use go_core_mcp.Schema.{SchemaError, to_number}
use go_core_mcp.Protocol.{
  category_text, invalid_arguments, unknown_tool, result_too_large, timeout, tool_error,
}
use go_core_mcp.Agent.Payload.{Codec}
use go_core_mcp.Agent.ToolCall.{validate_raw}
use go_core_mcp.Server.Calls.{CallParams}
use go_core_mcp.Webutils.Policy.{
  UrlError, url_required, url_too_long, url_must_be_https, url_host_required,
  url_userinfo_not_allowed, host_not_public, host_no_public_address,
}
use go_core_mcp.Webutils.Search.{Link}
use go_core_mcp.Webutils.Schemas.{input_schema_browse, input_schema_search}

-- What an error of the browser is, as errors.Is tells it, with its text.
pub data WebError : Type 0 where
  of_url : UrlError → WebError
  search_query_required search_engine_unsupported screenshot_too_large deadline_exceeded : WebError
  another : Bytes → WebError

pub record BrowseRequest : Type 0 where
  pub url : Bytes
  pub max_text_chars : ℤ
  pub capture_screenshot : Bool
  pub screenshot_mode : Bytes

pub record BrowseResult : Type 0 where
  pub final_url : Bytes
  pub title : Bytes
  pub content : Bytes
  pub content_format : Bytes
  pub extraction_method : Bytes
  pub visible_text : Bytes
  pub links : List Link
  pub truncated : Bool
  pub screenshot_png : Bytes

pub record SearchRequest : Type 0 where
  pub query : Bytes
  pub max_results : ℤ
  pub engine : Bytes

pub record SearchResult : Type 0 where
  pub engine : Bytes
  pub query : Bytes
  pub final_url : Bytes
  pub title : Bytes
  pub results : List Link
  pub visible_text : Bytes
  pub truncated : Bool

-- A block of a result: a text, or the data of a PNG image.
pub data Block : Type 0 where
  text_block image_block : Bytes → Block

pub record WebResult : Type 0 where
  pub content : List Block
  pub is_error : Bool

-- The browser, encoding/json, encoding/base64, the floats and the texts of errors.
pub record WebEnv : Type 0 where
  pub codec : Codec
  pub floats : Floats
  pub browse : BrowseRequest → Outcome WebError BrowseResult
  pub search : SearchRequest → Outcome WebError SearchResult
  pub decode_params : Bytes → Option CallParams
  pub base64_encode : Bytes → Bytes
  pub schema_message : SchemaError → Bytes
  pub web_message : WebError → Bytes
  pub links_value : List Link → Value

-- `classifyError`: the category, and whether the message is the error's own text
is_invalid_url : WebError → Bool
is_invalid_url (of_url url_required) = true
is_invalid_url (of_url url_too_long) = true
is_invalid_url (of_url url_must_be_https) = true
is_invalid_url (of_url url_host_required) = true
is_invalid_url (of_url url_userinfo_not_allowed) = true
is_invalid_url search_query_required = true
is_invalid_url search_engine_unsupported = true
is_invalid_url _ = false

is_disallowed : WebError → Bool
is_disallowed (of_url host_not_public) = true
is_disallowed (of_url host_no_public_address) = true
is_disallowed _ = false

module _ (env : WebEnv) where
  unfoldable pub classify_error : WebError → Bytes × Bytes
  unfolding is_invalid_url is_disallowed bytes_eq
  classify_error screenshot_too_large =
      (category_text result_too_large, env.web_message screenshot_too_large)
  classify_error deadline_exceeded =
      (category_text timeout, lit "browse operation exceeded its time budget")
  classify_error e =
      if is_invalid_url e
      then (lit "invalid_url", env.web_message e)
      else if is_disallowed e
      then (lit "disallowed_destination", env.web_message e)
      else (
        category_text tool_error,
        if bytes_eq (trim_space (env.web_message e)) []
            then lit "browse operation failed"
            else env.web_message e,
      )

  encoded : Option Bytes → Bytes
  encoded (some text) = text
  encoded none =
      lit "{\"success\":false,\"error\":\"tool_error\",\"message\":\"result could not be encoded\"}"

  -- `encode`
  encode : Fields → Bytes
  unfolding encoded
  encode body = encoded (env.codec.encode body)

  -- `errorResult`
  error_result : Bytes → Bytes → WebResult
  unfolding encode
  error_result category message = record {
    content =
        text_block (
          encode (
            field (lit "success") (bool false)
              (field (lit "error") (str category) (field (lit "message") (str message) end))))
        ∷ [];
    is_error = true;
  }

  -- `optionalInt`, `optionalBool` and `optionalString`
  optional_int : Fields → Bytes → ℤ
  optional_int arguments key = elim (get key arguments) [
    | none ↦ pos 0
    | some v ↦ elim (to_number env.floats v) [ none ↦ pos 0 | some n ↦ n ]
  ]

  optional_bool : Fields → Bytes → Bool
  optional_bool arguments key = elim (as_bool (get key arguments)) [ none ↦ false | some b ↦ b ]

  optional_string : Fields → Bytes → Bytes
  optional_string arguments key = elim (as_string (get key arguments)) [ none ↦ [] | some s ↦ s ]

  screenshot : Bytes → List Block
  screenshot [] = []
  screenshot (c ∷ png) = image_block (env.base64_encode (c ∷ png)) ∷ []

  browsed : Outcome WebError BrowseResult → Outcome SchemaError WebResult
  unfolding classify_error error_result encode screenshot
  browsed (ok r) = ok (record {
    content =
        text_block (
          encode (
            field (lit "success") (bool true) (
              field (lit "final_url") (str r.final_url) (
                field (lit "title") (str r.title) (
                  field (lit "content") (str r.content) (
                    field (lit "content_format") (str r.content_format) (
                      field (lit "extraction_method") (str r.extraction_method) (
                        field (lit "visible_text") (str r.visible_text) (
                          field (lit "links") (env.links_value r.links)
                            (field (lit "truncated") (bool r.truncated) end))))))))))
        ∷ screenshot r.screenshot_png;
    is_error = false;
  })
  browsed (err e) = let (category, message) = classify_error e in ok (error_result category message)
  browsed panic = panic

  searched : Outcome WebError SearchResult → Outcome SchemaError WebResult
  unfolding classify_error error_result encode
  searched (ok r) = ok (record {
    content =
        text_block (
          encode (
            field (lit "success") (bool true) (
              field (lit "engine") (str r.engine) (
                field (lit "query") (str r.query) (
                  field (lit "final_url") (str r.final_url) (
                    field (lit "title") (str r.title) (
                      field (lit "results") (env.links_value r.results) (
                        field (lit "visible_text") (str r.visible_text)
                          (field (lit "truncated") (bool r.truncated) end)))))))))
        ∷ [];
    is_error = false;
  })
  searched (err e) =
      let (category, message) = classify_error e in ok (error_result category message)
  searched panic = panic

  -- `arguments[key].(string)`, which panics on anything else
  asserted : Option Bytes → Outcome SchemaError Bytes
  asserted none = panic
  asserted (some s) = ok s

  run_browse : Fields → Outcome SchemaError WebResult
  unfolding asserted browsed optional_int optional_bool optional_string
  run_browse arguments = do
    url ← asserted (as_string (get (lit "url") arguments))
    browsed (
        env.browse (record {
          url = url;
          max_text_chars = optional_int arguments (lit "max_text_chars");
          capture_screenshot = optional_bool arguments (lit "capture_screenshot");
          screenshot_mode = optional_string arguments (lit "screenshot_mode");
        }))

  run_search : Fields → Outcome SchemaError WebResult
  unfolding asserted searched optional_int optional_string
  run_search arguments = do
    query ← asserted (as_string (get (lit "query") arguments))
    searched (
        env.search (record {
          query = query;
          max_results = optional_int arguments (lit "max_results");
          engine = optional_string arguments (lit "engine");
        }))

  run_valid :
      (Fields → Outcome SchemaError WebResult)
      → Outcome SchemaError Fields
      → Outcome SchemaError WebResult
  unfolding error_result
  run_valid run (ok arguments) = run arguments
  run_valid run (err e) = ok (error_result (category_text invalid_arguments) (env.schema_message e))
  run_valid run panic = panic

  run_params : Option CallParams → Outcome SchemaError WebResult
  unfolding run_valid run_browse run_search error_result bytes_eq
  run_params none = ok (
      error_result (category_text invalid_arguments)
        (lit "tool call parameters are not a JSON object"))
  run_params (some p) =
      if bytes_eq p.name (lit "browse_url")
      then run_valid run_browse (validate_raw env.codec env.floats input_schema_browse p.arguments)
      else if bytes_eq p.name (lit "search_web")
      then run_valid run_search (validate_raw env.codec env.floats input_schema_search p.arguments)
      else ok (error_result (category_text unknown_tool) (lit "tool is not available"))

  -- `callTool`
  unfoldable pub call_tool : Bytes → Outcome SchemaError WebResult
  unfolding run_params
  call_tool raw = run_params (env.decode_params raw)
