-- ===== src/Examples/Server.antt =====
-- The theorems on the server, the schemas and the guard on URLs at concrete inputs.
use go_core_mcp.Prelude.{
  ℕ, suc, ◌≡◌, ◌⊎◌, ◌↔◌, refl, true, false, none, some, [], ◌∷◌, ◌++◌, lit, bytes_eq, if◌then◌else◌,
}
use go_core_mcp.Prelude.Int.{pos}
use go_core_mcp.Outcome.{ok}
use go_core_mcp.Json.{Fields, str, obj, bool, arr, nil, cons, end, field}
use go_core_mcp.Schema.{validate, kind_of}
use go_core_mcp.Schema.Objects.{IsObjectOf, validate_object_iff}
use go_core_mcp.Server.{default_limits}
use go_core_mcp.Server.Workspace.{
  Files, Resolution, Kind, Inspection, Reading, resolve_path, read_file,
}
use go_core_mcp.Server.Workspace.Laws.{
  IsResolved, IsFront, resolve_path-IsResolved, read_file-IsFront,
}
use go_core_mcp.Server.Calls.{Env, Request, ServerTool, call_tool}
use go_core_mcp.Server.Dispatch.{State, ServeEnd, serve}
use go_core_mcp.Server.Calls.Runs.{IsRefused, IsRun, call_tool-cases}
use go_core_mcp.Server.Dispatch.Answers.{ids, due_lines, serve_answers}
use go_core_mcp.Webutils.Policy.{Address, Net, Url, validate_and_resolve_url}
use go_core_mcp.Webutils.Policy.Public.{IsAllowed, validate_and_resolve_url-IsAllowed}
use go_core_mcp.Examples.Parts.{no_floats, fixed_codec, object_schema, path_arguments}

-- A workspace with one file, `docs/a`.
abbrev pub one_file : Files
one_file = record {
  eval_symlinks =
      λ p. if bytes_eq p (lit "/w/docs/b") then Resolution.missing else Resolution.resolved p;
  stat = λ p. Inspection.found Kind.directory 0;
  lstat = λ p. Inspection.found Kind.regular 5;
  read = λ p. Reading.contents (lit "hello");
}

resolve_path-IsResolved_example :
    IsResolved one_file (lit "/w") (lit "docs/x/../a") (lit "/w/docs/a")
unfolding resolve_path lit go_core_mcp.Strings.trim_space go_core_mcp.Strings.contains_byte
    go_core_mcp.Strings.Paths.is_abs go_core_mcp.Server.Workspace.escapes
    go_core_mcp.Strings.Paths.clean go_core_mcp.Strings.Paths.names_of go_core_mcp.Strings.split
    go_core_mcp.Strings.join go_core_mcp.Server.Workspace.inside go_core_mcp.Strings.Paths.join_path
    go_core_mcp.Server.Workspace.resolution
resolve_path-IsResolved_example =
    resolve_path-IsResolved one_file (lit "/w") (lit "docs/x/../a") refl

read_file-IsFront_example :
    IsFront one_file default_limits (lit "/w") (lit "docs/a") (lit "he") true
unfolding read_file resolve_path lit go_core_mcp.Strings.trim_space
    go_core_mcp.Strings.contains_byte go_core_mcp.Strings.Paths.is_abs
    go_core_mcp.Server.Workspace.escapes go_core_mcp.Strings.Paths.clean
    go_core_mcp.Strings.Paths.names_of go_core_mcp.Strings.split go_core_mcp.Strings.join
    go_core_mcp.Server.Workspace.inside go_core_mcp.Strings.Paths.join_path
    go_core_mcp.Server.Workspace.resolution
read_file-IsFront_example =
    read_file-IsFront one_file (lit "/w") default_limits (lit "docs/a") (pos 2) refl

-- A server with one tool, which counts its runs.
abbrev pub counting_tool : ServerTool ℕ
counting_tool = record {
  name = lit "pwd";
  description = [];
  schema = object_schema;
  run = λ arguments w.
      (ok (record { output = lit "/w"; truncated = false; metadata = end; result = none }), suc w);
}

abbrev ping_request : Request
ping_request = record { id = lit "7"; method = lit "ping"; params = [] }

abbrev call_request : Request
call_request = record { id = lit "8"; method = lit "tools/call"; params = lit "{}" }

abbrev quiet_request : Request
quiet_request = record { id = []; method = lit "notifications/initialized"; params = [] }

abbrev pub one_tool : Env ℕ
one_tool = record {
  codec = fixed_codec;
  floats = no_floats;
  limits = default_limits;
  tools = counting_tool ∷ [];
  encode = λ fs. some (lit "{}");
  encode_result = λ r. some (lit "{}");
  decode_request = λ line.
      if bytes_eq line (lit "p")
      then some ping_request
      else if bytes_eq line (lit "c")
      then some call_request
      else if bytes_eq line (lit "q")
      then some quiet_request
      else none;
  decode_params = λ raw. some (record { name = lit "pwd"; arguments = lit "{}" });
  schema_message = λ e. lit "invalid";
  over_time = λ w. false;
  cancelled = λ w. false;
}

abbrev fresh_state : State ℕ
fresh_state = record { initialized = false; world = 0; written = [] }

call_tool-cases_example :
    IsRefused 0 (call_tool one_tool (lit "{}") 0)
    ⊎ IsRun one_tool (lit "{}") 0 (call_tool one_tool (lit "{}") 0)
call_tool-cases_example = call_tool-cases one_tool (lit "{}") 0

serve_answers_example :
    (t : State ℕ) × (serve one_tool true (lit "p" ∷ lit "q" ∷ lit "x" ∷ lit "c" ∷ []) fresh_state
      ≡ ok (t, ServeEnd.read_failed))
    × (ids one_tool t
        ≡ ids one_tool fresh_state
          ++ due_lines one_tool (lit "p" ∷ lit "q" ∷ lit "x" ∷ lit "c" ∷ []))
unfolding call_tool lit go_core_mcp.Agent.ToolCall.validate_raw go_core_mcp.Strings.trim_space
    validate go_core_mcp.Json.as_array go_core_mcp.Json.get kind_of go_core_mcp.Json.as_string
    go_core_mcp.Json.as_bool go_core_mcp.Json.as_object go_core_mcp.Schema.properties_of serve
serve_answers_example =
    serve_answers one_tool (λ raw w. (_, _, refl)) (λ w. refl) true
      (lit "p" ∷ lit "q" ∷ lit "x" ∷ lit "c" ∷ []) fresh_state

-- A schema that requires a text under `path` and forbids other keys.
abbrev path_schema : Fields
path_schema = field (lit "type") (str (lit "object")) (
    field (lit "properties")
      (obj (field (lit "path") (obj (field (lit "type") (str (lit "string")) end)) end))
      (field (lit "required") (arr (cons (str (lit "path")) nil))
        (field (lit "additionalProperties") (bool false) end)))

validate_object_iff_example :
    (validate no_floats path_schema (obj path_arguments) [] ≡ ok tt)
    ↔ IsObjectOf no_floats path_schema path_arguments []
unfolding kind_of lit go_core_mcp.Json.as_string go_core_mcp.Json.get
validate_object_iff_example = validate_object_iff no_floats path_schema path_arguments [] refl

abbrev pub public_address : Address
public_address = record {
  is_valid = true;
  is_unspecified = false;
  is_loopback = false;
  is_multicast = false;
  is_link_local_unicast = false;
  is_link_local_multicast = false;
  is_private = false;
  is_in = λ p. false;
}

abbrev pub example_url : Url
example_url = record {
  is_https = true;
  host = lit "example.org";
  has_user = false;
  hostname = lit "example.org";
}

abbrev pub example_net : Net
example_net = record {
  parse_url = λ s. some example_url;
  parse_addr = λ s. none;
  lookup = λ s. some (public_address ∷ []);
}

validate_and_resolve_url-IsAllowed_example :
    IsAllowed example_net (lit " https://example.org") example_url
unfolding validate_and_resolve_url lit go_core_mcp.Strings.trim_space
    go_core_mcp.Webutils.Policy.ensure_public_host go_core_mcp.Webutils.Policy.is_public_address
validate_and_resolve_url-IsAllowed_example =
    validate_and_resolve_url-IsAllowed example_net (lit " https://example.org") refl
