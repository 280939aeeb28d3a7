-- ===== src/Webutils/Schemas.antt =====
-- webutils/server.go: the schemas of the two web tools. The entries of the maps are in the order of
-- the source.
use go_core_mcp.Prelude.{ℕ, false, Bytes, lit}
use go_core_mcp.Prelude.Int.{pos}
use go_core_mcp.Json.{Value, Fields, bool, str, int, obj, arr, end, field, nil, cons}

typed_field : Bytes → Bytes → Fields → Value
typed_field kind description rest =
    obj (field (lit "type") (str kind) (field (lit "description") (str description) rest))

limits_of : ℕ → ℕ → Fields
limits_of minimum maximum =
    field (lit "minimum") (int (pos minimum)) (field (lit "maximum") (int (pos maximum)) end)

closed_object : Fields → Bytes → Fields
closed_object properties required = field (lit "type") (str (lit "object")) (
    field (lit "properties") (obj properties) (
      field (lit "required") (arr (cons (str required) nil))
        (field (lit "additionalProperties") (bool false) end)))

-- `inputSchemaBrowse`
unfoldable pub input_schema_browse : Fields
unfolding typed_field limits_of closed_object
input_schema_browse =
    closed_object
      (field (lit "url")
        (typed_field (lit "string") (lit "Public HTTPS URL to browse.")
          (field (lit "maxLength") (int (pos 2048)) end))
        (field (lit "max_text_chars")
          (typed_field (lit "integer")
            (lit "Maximum content and visible_text characters in the result.") (limits_of 1 12000))
          (field (lit "capture_screenshot")
            (typed_field (lit "boolean")
              (lit "Capture a PNG screenshot and return it as a separate MCP image content block.")
              (field (lit "default") (bool false) end))
            (field (lit "screenshot_mode")
              (typed_field (lit "string")
                (lit "Screenshot capture mode when capture_screenshot is true.")
                (field (lit "enum")
                  (arr (cons (str (lit "viewport")) (cons (str (lit "full_page")) nil))) end))
              end))))
      (lit "url")

-- `inputSchemaSearch`
unfoldable pub input_schema_search : Fields
unfolding typed_field limits_of closed_object
input_schema_search =
    closed_object
      (field (lit "query")
        (typed_field (lit "string") (lit "Search query text.")
          (field (lit "minLength") (int (pos 1)) (field (lit "maxLength") (int (pos 300)) end)))
        (field (lit "max_results")
          (typed_field (lit "integer") (lit "Maximum number of search results to return.")
            (limits_of 1 10))
          (field (lit "engine")
            (typed_field (lit "string") (lit "Search engine identifier.")
              (field (lit "enum") (arr (cons (str (lit "duckduckgo")) nil)) end))
            end)))
      (lit "query")
