-- ===== src/Examples/Agent.antt =====
-- The agent's theorems at concrete inputs.
use go_core_mcp.Prelude.{
  ◌+◌, ◌≤◌, ◌<◌, ◌≡◌, refl, some, List, [], ◌∷◌, lit, arith, All, ltb, if◌then◌else◌, bytes_eq, mem,
}
use go_core_mcp.Outcome.{ok}
use go_core_mcp.Strings.{trim_space}
use go_core_mcp.Agent.Messages.{Message}
use go_core_mcp.Agent.Policy.{
  max_total_tool_calls, max_model_rounds, allowed_core_tools, allowed_web_tools,
}
use go_core_mcp.Agent.Context.{
  clamp_tools, prune_messages, last_user, tools_tokens, message_tokens, total_tokens,
}
use go_core_mcp.Agent.Context.Fits.{room, prune_messages-ok, prune_messages_fits}
use go_core_mcp.Agent.ToolCall.{
  new_session, run_tool_call, find_tool, validate_call, validate_workspace_path,
}
use go_core_mcp.Agent.ToolCall.Safe.{IsSafeCall, validate_call-IsSafeCall}
use go_core_mcp.Agent.Loop.{Setup, loop, discover}
use go_core_mcp.Agent.Loop.Bounds.{IsBoundedBy, exposure, loop-IsBoundedBy}
use go_core_mcp.Agent.Loop.Discovery.{IsAllowedEntry, discover-IsAllowedEntry, discover-core}
use go_core_mcp.Agent.Context.Pairs.{StartsClean, IsRestOf, prune_messages-IsRestOf}
use go_core_mcp.Agent.ToolCall.Budget.{IsWithinBudget, run_tool_call-IsWithinBudget}
use go_core_mcp.Agent.Loop.Printing.{PrintsOnce, loop-PrintsOnce}
use go_core_mcp.Examples.Parts.{
  fixed_tools, named_tools, cat_tool, pwd_tool, cat_call, text_message,
}

-- A session in which the model asks for one call, and then answers.
abbrev short_session : Setup
short_session = record {
  tools = fixed_tools;
  prompt = lit "show the file docs/a";
  system_prompt = lit "You are an agent.";
  discovered = named_tools;
  to_lower = λ s. s;
  complete = λ round ms ts. some (
      if ltb 1 round
      then text_message (lit "assistant") (lit "done")
      else record (text_message (lit "assistant") []) { tool_calls = cat_call ∷ [] });
}

abbrev system_message : Message
system_message = text_message (lit "system") (lit "You are an agent.")

abbrev user_message : Message
user_message = text_message (lit "user") (lit "show the file docs/a")

abbrev reply_message : Message
reply_message = text_message (lit "assistant") (lit "done")

loop-IsBoundedBy_example :
    IsBoundedBy short_session
      (exposure short_session).0
      (exposure short_session).1
      max_model_rounds
      (loop short_session new_session).1
loop-IsBoundedBy_example = loop-IsBoundedBy short_session

loop-PrintsOnce_example : PrintsOnce (loop short_session new_session)
loop-PrintsOnce_example = loop-PrintsOnce short_session

validate_call-IsSafeCall_example :
    (0 < max_total_tool_calls)
    × IsSafeCall fixed_tools named_tools (lit "cat") (lit "{\"path\":\"docs/a\"}") cat_tool
unfolding validate_call lit go_core_mcp.Strings.has_prefix trim_space
    go_core_mcp.Agent.ToolCall.validate_raw go_core_mcp.Schema.validate go_core_mcp.Json.as_array
    go_core_mcp.Json.get go_core_mcp.Schema.kind_of go_core_mcp.Json.as_string
    go_core_mcp.Json.as_bool go_core_mcp.Json.as_object go_core_mcp.Schema.properties_of
    go_core_mcp.Agent.ToolCall.requested_limits validate_workspace_path
    go_core_mcp.Strings.contains_byte go_core_mcp.Strings.Paths.is_abs
    go_core_mcp.Strings.Paths.clean go_core_mcp.Strings.Paths.names_of find_tool
    go_core_mcp.Json.has go_core_mcp.Json.item_count bytes_eq go_core_mcp.Schema.number_of
    go_core_mcp.Schema.to_number go_core_mcp.Strings.Numbers.itoa go_core_mcp.Strings.join
    go_core_mcp.Strings.split go_core_mcp.Strings.split_from go_core_mcp.Strings.strip_prefix
validate_call-IsSafeCall_example = validate_call-IsSafeCall fixed_tools 0 named_tools cat_call refl

run_tool_call-IsWithinBudget_example :
    IsWithinBudget fixed_tools named_tools
      (run_tool_call fixed_tools named_tools cat_call 1 0 new_session).1
run_tool_call-IsWithinBudget_example =
    run_tool_call-IsWithinBudget fixed_tools named_tools cat_call 1 0 new_session
      (record { counted = omega arith; few = omega arith; safe = tt })

prune_messages-ok_example :
    (rest : List Message) × (prune_messages (system_message ∷ user_message ∷ reply_message ∷ []) []
      ≡ ok (system_message ∷ user_message ∷ rest))
    × (tools_tokens [] + total_tokens (system_message ∷ user_message ∷ rest) ≤ room)
unfolding last_user tools_tokens message_tokens lit go_core_mcp.Agent.Context.estimate_tokens
prune_messages-ok_example =
    prune_messages-ok system_message user_message (user_message ∷ reply_message ∷ [])
      (reply_message ∷ []) [] refl (omega arith)

prune_messages_fits_example :
    tools_tokens [] + total_tokens (system_message ∷ user_message ∷ reply_message ∷ []) ≤ room
unfolding prune_messages lit go_core_mcp.Agent.Context.budget_of tools_tokens message_tokens
    go_core_mcp.Agent.Context.estimate_tokens total_tokens
prune_messages_fits_example =
    prune_messages_fits (system_message ∷ user_message ∷ reply_message ∷ []) [] refl

prune_messages-IsRestOf_example :
    (rest : List Message) × ◌≡◌ {A = List Message}
      (system_message ∷ user_message ∷ reply_message ∷ [])
      (system_message ∷ user_message ∷ rest)
    × IsRestOf rest (clamp_tools (reply_message ∷ []))
    × StartsClean rest
unfolding last_user prune_messages clamp_tools lit go_core_mcp.Agent.Context.budget_of tools_tokens
    message_tokens go_core_mcp.Agent.Context.estimate_tokens total_tokens
prune_messages-IsRestOf_example =
    prune_messages-IsRestOf system_message (user_message ∷ reply_message ∷ []) [] refl refl refl

discover-IsAllowedEntry_example :
    All
      (IsAllowedEntry allowed_core_tools allowed_web_tools)
      (discover (cat_tool ∷ pwd_tool ∷ []) (some (cat_tool ∷ [])))
discover-IsAllowedEntry_example =
    discover-IsAllowedEntry (cat_tool ∷ pwd_tool ∷ []) (some (cat_tool ∷ []))

discover-core_example :
    find_tool (lit "cat") (discover (cat_tool ∷ pwd_tool ∷ []) (some (cat_tool ∷ [])))
    ≡ some cat_tool
unfolding discover find_tool lit go_core_mcp.Agent.Loop.filter_discovered mem allowed_core_tools
    go_core_mcp.Agent.Profiles.lits
discover-core_example = discover-core (cat_tool ∷ pwd_tool ∷ []) (cat_tool ∷ []) (lit "cat") refl
