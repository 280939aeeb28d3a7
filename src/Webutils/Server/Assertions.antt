-- ===== src/Webutils/Server/Assertions.antt =====
-- webutils/server.go: the type assertions on arguments that were validated.
use go_core_mcp.Prelude.{
  ◌≡◌, refl, sym, ◌∙◌, ap, inl, inr, Bool-cases, Option, none, some, [], Bytes, lit, bytes_eq,
}
use go_core_mcp.Outcome.{Outcome, ok, err, panic, >>=-eq-ok, Outcome-cases, ok_inj}
use go_core_mcp.Floats.{Floats}
use go_core_mcp.Json.{Fields, obj, get, as_string, as_object}
use go_core_mcp.Schema.{kind_of, validate}
use go_core_mcp.Schema.Required.{required_string}
use go_core_mcp.Agent.Payload.{Codec}
use go_core_mcp.Agent.ToolCall.{validate_raw, decoded}
use go_core_mcp.Server.Calls.{CallParams}
use go_core_mcp.Webutils.Schemas.{input_schema_browse, input_schema_search}
use go_core_mcp.Webutils.Server.{
  WebEnv, WebError, BrowseRequest, BrowseResult, SearchRequest, SearchResult, asserted, browsed,
  searched, run_browse, run_search, run_valid, run_params, call_tool,
}

validate_raw_sound :
    (codec : Codec) (fl : Floats) (schema : Fields) (raw : Bytes) {arguments : Fields}
    → validate_raw codec fl schema raw ≡ ok arguments
    → validate fl schema (obj arguments) [] ≡ ok tt
unfolding validate_raw
validate_raw_sound codec fl schema raw h =
    let (found, _, s1) = >>=-eq-ok (decoded codec raw) _ h in
    let (u, accepted, s2) = >>=-eq-ok (validate fl schema (obj found) []) (λ u. ok found) s1 in
    ap (λ a. validate fl schema (obj a) []) (sym (ok_inj s2)) ∙ accepted

module _ (fl : Floats) (arguments : Fields) where
  url_is_string :
      validate fl input_schema_browse (obj arguments) [] ≡ ok tt
      → (s : Bytes) × (as_string (get (lit "url") arguments) ≡ some s)
  unfolding input_schema_browse kind_of as_string get lit as_object go_core_mcp.Schema.properties_of
      go_core_mcp.Json.as_array
  url_is_string h =
      required_string fl input_schema_browse arguments [] (lit "url") _ refl refl refl
        (λ o. o.required.0) h

  query_is_string :
      validate fl input_schema_search (obj arguments) [] ≡ ok tt
      → (s : Bytes) × (as_string (get (lit "query") arguments) ≡ some s)
  unfolding input_schema_search kind_of as_string get lit as_object go_core_mcp.Schema.properties_of
      go_core_mcp.Json.as_array
  query_is_string h =
      required_string fl input_schema_search arguments [] (lit "query") _ refl refl refl
        (λ o. o.required.0) h

module _ (env : WebEnv) where
  browsed-panic : (r : Outcome WebError BrowseResult) → browsed env r ≡ panic → r ≡ panic
  unfolding browsed
  browsed-panic (ok r) h = cc
  browsed-panic (err e) h = cc
  browsed-panic panic h = refl

  searched-panic : (r : Outcome WebError SearchResult) → searched env r ≡ panic → r ≡ panic
  unfolding searched
  searched-panic (ok r) h = cc
  searched-panic (err e) h = cc
  searched-panic panic h = refl

  -- Where a panic may come from: the browser, or the check of the arguments.
  pub data Source : Type 0 where
    browser_browse : (r : BrowseRequest) → env.browse r ≡ panic → Source
    browser_search : (r : SearchRequest) → env.search r ≡ panic → Source
    browse_check :
        (raw : Bytes) → validate_raw env.codec env.floats input_schema_browse raw ≡ panic → Source
    search_check :
        (raw : Bytes) → validate_raw env.codec env.floats input_schema_search raw ≡ panic → Source

  run_browse-Source :
      (arguments : Fields)
      → validate env.floats input_schema_browse (obj arguments) [] ≡ ok tt
      → run_browse env arguments ≡ panic
      → Source
  unfolding run_browse asserted
  run_browse-Source arguments v h =
      let (s, is) = url_is_string env.floats arguments v in
      browser_browse _ (browsed-panic _ (rw is at h))

  run_search-Source :
      (arguments : Fields)
      → validate env.floats input_schema_search (obj arguments) [] ≡ ok tt
      → run_search env arguments ≡ panic
      → Source
  unfolding run_search asserted
  run_search-Source arguments v h =
      let (s, is) = query_is_string env.floats arguments v in
      browser_search _ (searched-panic _ (rw is at h))

  run_valid-Source :
      (run : Fields → _) (schema : Fields) (raw : Bytes)
      → ((arguments : Fields)
          → validate env.floats schema (obj arguments) [] ≡ ok tt
          → run arguments ≡ panic
          → Source)
      → (validate_raw env.codec env.floats schema raw ≡ panic → Source)
      → run_valid env run (validate_raw env.codec env.floats schema raw) ≡ panic
      → Source
  unfolding run_valid
  run_valid-Source run schema raw k c h =
      elim (Outcome-cases (validate_raw env.codec env.floats schema raw)) [
        | inl (arguments, e) ↦
            k arguments (validate_raw_sound env.codec env.floats schema raw e)
              (rw (run_valid, e) at h)
        | inr (inl (x, e)) ↦ cc (rw (run_valid, e) at h)
        | inr (inr e) ↦ c e
      ]

  params-Source : (p : Option CallParams) → run_params env p ≡ panic → Source
  unfolding run_params
  params-Source none h = cc
  params-Source (some p) h = elim (Bool-cases (bytes_eq p.name (lit "browse_url"))) [
    | inl e ↦
        run_valid-Source (run_browse env) input_schema_browse p.arguments run_browse-Source
          (browse_check p.arguments) (rw (run_params, e) at h)
    | inr e ↦ elim (Bool-cases (bytes_eq p.name (lit "search_web"))) [
      | inl f ↦
          run_valid-Source (run_search env) input_schema_search p.arguments run_search-Source
            (search_check p.arguments) (rw (run_params, e, f) at h)
      | inr f ↦ cc (rw (run_params, e, f) at h)
    ]
  ]

  -- The type assertions of `callTool` never panic: the schemas make sure that the URL and the query
  -- are strings. If a call panics, then in the browser or in the check of the arguments.
  pub call_tool-Source : (raw : Bytes) → call_tool env raw ≡ panic → Source
  unfolding call_tool
  call_tool-Source raw h = params-Source (env.decode_params raw) h
