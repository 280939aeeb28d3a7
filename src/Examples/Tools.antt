-- ===== src/Examples/Tools.antt =====
-- The theorems on the tools of the server and on its HTTP transport, at concrete inputs.
use go_core_mcp.Prelude.{
  Bytes, ◌≡◌, ℕ, ◌⊎◌, refl, true, false, none, some, List, [], ◌∷◌, lit, Bool, map, leb, length,
  take,
}
use go_core_mcp.Outcome.{Outcome, ok}
use go_core_mcp.Prelude.Int.{pos}
use go_core_mcp.Agent.Policy.{allowed_core_tools}
use go_core_mcp.Server.{ToolError, default_limits}
use go_core_mcp.Server.Workspace.{Kind}
use go_core_mcp.Server.Handlers.Finding.{Found, nothing_found, find_name_matches, walk}
use go_core_mcp.Server.Handlers.Finding.Exact.{hits, walk_exact}
use go_core_mcp.Server.Calls.{Env, ServerTool}
use go_core_mcp.Server.Dispatch.{State}
use go_core_mcp.Server.Machine.{Visit, entry, Machine, Host, Reply}
use go_core_mcp.Server.Table.{definitions}
use go_core_mcp.Server.Opening.{tools_of}
use go_core_mcp.Server.Http.{HttpOptions, HttpRequest, handle_http}
use go_core_mcp.Server.Http.Guard.{IsTurnedAway, IsServed, handle_http-cases}
use go_core_mcp.Examples.Parts.{no_floats, fixed_codec}
use go_core_mcp.Examples.Server.{one_file}
use go_core_mcp.Examples.Coreutils.{no_regexp}
use go_core_mcp.Examples.Insertion.{insertion}

abbrev machine : Machine ℕ
machine = record {
  disk = record {
    files = λ w. one_file;
    list = λ w p. some [];
    walk = λ w p. [];
    act = λ a w. (Reply.done, w);
  };
  workspace = lit "/w";
  limits = default_limits;
  floats = no_floats;
  matching = no_regexp;
  sorter = insertion;
  glob = λ p s. some true;
  sha256 = λ s. s;
  base64_encode = λ s. s;
  base64_decode = λ s. ok s;
  now = λ w utc. [];
  quote = λ s. s;
  context_done = λ w. false;
  text_message = λ e. [];
  grep_message = λ e. [];
  command_message = λ e. [];
}

abbrev tool_list : List (ServerTool (Host ℕ))
tool_list = elim (tools_of (definitions machine)) [ some ts ↦ ts | none ↦ [] ]

abbrev touch_server : Env (Host ℕ)
touch_server = record {
  codec = fixed_codec;
  floats = no_floats;
  limits = default_limits;
  tools = tool_list;
  encode = λ fs. some (lit "{}");
  encode_result = λ r. some (lit "{}");
  decode_request =
      λ line. some (record { id = lit "8"; method = lit "tools/call"; params = lit "{}" });
  decode_params = λ raw. some (record { name = lit "touch"; arguments = lit "{}" });
  schema_message = λ e. lit "invalid";
  over_time = λ w. false;
  cancelled = λ w. false;
}

abbrev new_state : State (Host ℕ)
new_state = record { initialized = false; world = record { world = 0; acted = [] }; written = [] }

abbrev options : HttpOptions
options = record { path = lit "/mcp"; bearer_token = lit "secret" }

abbrev call_post : HttpRequest
call_post = record {
  method = lit "POST";
  authorization = lit "bearer secret";
  content_type = lit "application/json";
  body = some (lit "{}");
}

handle_http-cases_example :
    IsTurnedAway touch_server
      (λ s. some s)
      options
      call_post
      new_state
      (handle_http touch_server (λ s. some s) options call_post new_state)
    ⊎ IsServed touch_server
        (λ s. some s)
        options
        call_post
        new_state
        (handle_http touch_server (λ s. some s) options call_post new_state)
handle_http-cases_example = handle_http-cases touch_server (λ s. some s) options call_post new_state

-- A walk over a directory, a file in it that matches, and one that is left out at the limit.
abbrev three_visits : List Visit
three_visits =
    entry (lit "/w/docs") (lit "docs") Kind.directory
    ∷ entry (lit "/w/docs/a") (lit "a") Kind.regular
    ∷ entry (lit "/w/docs/ab") (lit "ab") Kind.regular
    ∷ []

abbrev has_a : Bytes → Outcome ToolError Bool
has_a name = find_name_matches machine name (lit "a") (lit "substring") false

walk_exact_example :
    (last : Found) × (walk machine (lit "/w") has_a (pos 1) three_visits nothing_found
      ≡ ok (last, leb 1 (length (hits machine (lit "/w") has_a three_visits))))
    × (last.lines ≡ take 1 (hits machine (lit "/w") has_a three_visits))
unfolding find_name_matches lit go_core_mcp.Server.Workspace.inside go_core_mcp.Strings.has_prefix
walk_exact_example =
    walk_exact machine (lit "/w") has_a 0 three_visits
      ((refl, (_, refl)), ((refl, (_, refl)), ((refl, (_, refl)), tt)))

-- The server offers exactly the tools that the agent's policy allows.
tool_names : map (λ t. t.name) tool_list ≡ allowed_core_tools
unfolding tools_of lit allowed_core_tools go_core_mcp.Agent.Profiles.lits
tool_names = refl
