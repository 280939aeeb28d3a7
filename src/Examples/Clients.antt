-- ===== src/Examples/Clients.antt =====
-- The theorems on the MCP client, the agent's lifecycle and the web tools, at concrete inputs.
use go_core_mcp.Prelude.{◌≡◌, ◌≢◌, ◌⊎◌, refl, true, false, none, some, [], ◌∷◌, lit}
use go_core_mcp.Prelude.Int.{pos, negsuc}
use go_core_mcp.Outcome.{err, panic}
use go_core_mcp.Client.{Incoming, Event, ClientError, Writing, Wire, call, list_tools}
use go_core_mcp.Client.Waiting.{IsAnswered, call-IsAnswered, call-returns}
use go_core_mcp.Client.Catalog.{IsCatalog, list_tools-IsCatalog}
use go_core_mcp.Agent.Configuration.{Config}
use go_core_mcp.Agent.Startup.{Launch, run, session_failed}
use go_core_mcp.Agent.Startup.Lifecycle.{IsLaunched, run-cases}
use go_core_mcp.Webutils.Search.{RawResult, Link, Limits, normalize_limits, normalize_search_links}
use go_core_mcp.Webutils.Search.Results.{AreResults, normalize_search_links-AreResults}
use go_core_mcp.Webutils.Search.Usable.{AreUsable, normalize_limits-AreUsable}
use go_core_mcp.Webutils.Extraction.{RenderedDom, best_candidate}
use go_core_mcp.Webutils.Extraction.Best.{YieldsAll, best_candidate-YieldsAll}
use go_core_mcp.Webutils.Server.{WebEnv}
use go_core_mcp.Webutils.Server.Assertions.{Source, call_tool-Source}
use go_core_mcp.Examples.Parts.{no_floats, fixed_tools, cat_tool, pwd_tool}
use go_core_mcp.Examples.Server.{example_net}

-- Every text decodes; what is read is the second of two messages.
abbrev wire : Wire
wire = record {
  marshal_id = λ s. some s;
  encodes = λ m. true;
  takes = λ sent m. Writing.taken;
  initialize_params = [];
  no_params = [];
  list_params = λ c. c;
  call_params = λ n a. a;
  decode_initialized = λ s. some (record { advertises_tools = true });
  decode_page = λ s. some (record { tools = cat_tool ∷ pwd_tool ∷ []; next_cursor = [] });
  decode_call_result = λ s. some (record { content = []; is_error = false });
  is_schema = λ s. true;
}

abbrev log_message : Incoming
log_message = record { id = []; error = none; result = [] }

abbrev first_response : Incoming
first_response = record { id = lit "1"; error = none; result = lit "{}" }

abbrev link : go_core_mcp.Client.Link
link = record {
  next_id = 0;
  sent = [];
  events = Event.arrived log_message ∷ Event.arrived first_response ∷ Event.broken ∷ [];
}

abbrev after : go_core_mcp.Client.Link
after = record {
  next_id = 1;
  sent = record { id = lit "1"; method = lit "ping"; params = [] } ∷ [];
  events = Event.broken ∷ [];
}

call-IsAnswered_example : IsAnswered wire (λ s. some s) (lit "ping") [] link after (lit "{}")
unfolding call lit go_core_mcp.Exec.◌>>=◌ go_core_mcp.Client.take_id go_core_mcp.Client.write
    go_core_mcp.Client.receive go_core_mcp.Strings.Numbers.itoa
call-IsAnswered_example = call-IsAnswered wire (λ s. some s) (lit "ping") [] link refl

call-returns_example : (call wire (λ s. some s) (lit "ping") [] link).0 ≢ err ClientError.waiting
call-returns_example = call-returns wire (λ s. some s) (lit "ping") [] link (λ m h. cc) tt

list_tools-IsCatalog_example : IsCatalog wire (cat_tool ∷ pwd_tool ∷ [])
unfolding list_tools lit go_core_mcp.Exec.◌>>=◌ call go_core_mcp.Client.take_id
    go_core_mcp.Client.write go_core_mcp.Client.receive go_core_mcp.Strings.Numbers.itoa
    go_core_mcp.Client.add_tools
list_tools-IsCatalog_example = list_tools-IsCatalog wire link refl

abbrev launch : Launch
launch = record {
  paths = record { abs = λ p. some p; eval_symlinks = λ p. some p; is_dir = λ p. true };
  net = record {
    accepts = λ u. true;
    get = λ u. some (record { status = 200; body = some [] });
    post = λ u b. none;
    encode = λ r. some [];
    decode = λ s. none;
  };
  wire = wire;
  start = λ c args d. some link;
  core_call = λ n t a. go_core_mcp.Agent.ToolCall.Reply.context_done;
  web_call = λ n t a. go_core_mcp.Agent.ToolCall.Reply.context_done;
  setup = record {
    tools = fixed_tools;
    prompt = [];
    system_prompt = [];
    discovered = [];
    to_lower = λ s. s;
    complete = λ n ms ts. none;
  };
}

abbrev config : Config
config = record {
  llama_url = lit "http://localhost:8080/";
  model = lit "m";
  mcp_command = lit "coreutils-mcp";
  mcp_args = [];
  web_mcp_command = [];
  web_mcp_args = [];
  workspace = lit "/w";
  prompt = lit "list files";
}

-- The core server ends before it has listed its tools.
run_test : (run launch config []).0 ≡ err (session_failed ClientError.transport_broken)
unfolding run go_core_mcp.Exec.◌>>=◌ go_core_mcp.Agent.Configuration.validate
    go_core_mcp.Strings.trim_space lit go_core_mcp.Agent.Model.ping
    go_core_mcp.Agent.Startup.deferring go_core_mcp.Client.initialize call
    go_core_mcp.Client.take_id go_core_mcp.Client.write go_core_mcp.Client.receive
    go_core_mcp.Strings.Numbers.itoa go_core_mcp.Client.notify list_tools
run_test = refl

run-cases_example :
    ((run launch config []).1 ≡ []) ⊎ IsLaunched launch config (run launch config []).1
run-cases_example = run-cases launch config (λ h. cc (run_test, h))

abbrev raw_result : RawResult
raw_result = record {
  url = lit " https://example.org ";
  title = lit "T";
  snippet = [];
  source = lit "s";
}

abbrev result_link : Link
result_link = record { text = lit "T"; url = lit "https://example.org"; rank = 1; source = lit "s" }

normalize_search_links-AreResults_example : AreResults example_net 2 (pos 200) (result_link ∷ [])
unfolding normalize_search_links lit go_core_mcp.Strings.trim_space
    go_core_mcp.Webutils.Policy.validate_and_resolve_url
    go_core_mcp.Webutils.Policy.ensure_public_host go_core_mcp.Webutils.Policy.is_public_address
    go_core_mcp.Webutils.Search.clamp_string
normalize_search_links-AreResults_example =
    normalize_search_links-AreResults example_net 2 (pos 200) (raw_result ∷ raw_result ∷ []) refl

abbrev odd_limits : Limits
odd_limits = record {
  timeout = negsuc 0;
  default_max_text_chars = pos 50000;
  max_allowed_text_chars = pos 100;
  max_links = pos 0;
  max_link_text_chars = pos 0;
  default_max_results = pos 3;
  max_search_results = pos 2;
  max_redirects = pos 0;
  max_screenshot_bytes = pos 1;
}

normalize_limits-AreUsable_example :
    AreUsable (normalize_limits odd_limits)
    × (normalize_limits (normalize_limits odd_limits) ≡ normalize_limits odd_limits)
normalize_limits-AreUsable_example = normalize_limits-AreUsable odd_limits

-- A browser that panics.
abbrev broken_browser : WebEnv
broken_browser = record {
  codec = record {
    decode = λ s. none;
    decode_numbers = λ s. some (
        go_core_mcp.Json.field (lit "url") (go_core_mcp.Json.str (lit "https://example.org"))
          go_core_mcp.Json.end);
    encode = λ fs. none;
  };
  floats = no_floats;
  browse = λ r. panic;
  search = λ r. panic;
  decode_params = λ s. some (record { name = lit "browse_url"; arguments = lit "{}" });
  base64_encode = λ s. s;
  schema_message = λ e. [];
  web_message = λ e. [];
  links_value = λ ls. go_core_mcp.Json.null;
}

call_tool-Source_example : Source broken_browser
unfolding go_core_mcp.Webutils.Server.call_tool lit go_core_mcp.Agent.ToolCall.validate_raw
    go_core_mcp.Strings.trim_space go_core_mcp.Schema.validate go_core_mcp.Json.as_array
    go_core_mcp.Json.get go_core_mcp.Webutils.Schemas.input_schema_browse go_core_mcp.Schema.kind_of
    go_core_mcp.Json.as_string go_core_mcp.Json.has go_core_mcp.Json.as_bool
    go_core_mcp.Schema.properties_of go_core_mcp.Json.as_object go_core_mcp.Schema.number_of
call_tool-Source_example = call_tool-Source broken_browser (lit "{}") refl

abbrev thin_candidate : RenderedDom
thin_candidate = record {
  markdown = lit "menu";
  quality = record { text_runes = 4; score = 4; semantic_signals = 0 };
  source_kind = lit "body";
}

abbrev rich_candidate : RenderedDom
rich_candidate = record {
  markdown = lit "# A page";
  quality = record { text_runes = 5; score = 165; semantic_signals = 1 };
  source_kind = lit "main";
}

best_candidate-YieldsAll_example :
    YieldsAll
      (best_candidate (thin_candidate ∷ rich_candidate ∷ []) none)
      (thin_candidate ∷ rich_candidate ∷ [])
best_candidate-YieldsAll_example = best_candidate-YieldsAll (thin_candidate ∷ rich_candidate ∷ [])
