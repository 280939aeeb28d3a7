-- ===== src/Agent/Context.antt =====
-- internal/agent/context.go: the estimate of tokens and the pruning of the conversation.
pub mod Fits
pub mod Pairs
use go_core_mcp.Prelude.{
  ℕ, zero, suc, ◌+◌, ◌-◌, ◌/◌, Bool, true, false, Option, none, some, List, [], ◌∷◌, ◌++◌, Bytes,
  lit, bytes_eq, leb, if◌then◌else◌, length, take,
}
use go_core_mcp.Prelude.Int.{ℤ, pos, sub_ℕ, leb_ℤ}
use go_core_mcp.Outcome.{Outcome, ok, err, reject_if, ◌>>=◌, ◌>>◌}
use go_core_mcp.Json.{Fields, end, field}
use go_core_mcp.Agent.Messages.{Message, ToolCall, Tool, max_output_tokens}

abbrev pub context_tokens : ℕ
context_tokens = 4096

abbrev pub max_tool_result_bytes : ℕ
max_tool_result_bytes = 4096

unfoldable pub estimate_tokens : Bytes → ℕ
estimate_tokens text = (length text + 3) / 4

calls_tokens : List ToolCall → ℕ
calls_tokens [] = 0
calls_tokens (c ∷ cs) =
    (estimate_tokens c.function.name + estimate_tokens c.function.arguments + 8) + calls_tokens cs

unfoldable pub message_tokens : Message → ℕ
unfolding calls_tokens
message_tokens m = (estimate_tokens m.content + 8) + calls_tokens m.tool_calls

keys_tokens : Fields → ℕ
keys_tokens end = 0
keys_tokens (field k v fs) = (estimate_tokens k + 4) + keys_tokens fs

unfoldable pub tools_tokens : List Tool → ℕ
unfolding keys_tokens
tools_tokens [] = 0
tools_tokens (t ∷ ts) =
    (estimate_tokens t.function.name + estimate_tokens t.function.description + 16)
    + (keys_tokens t.function.parameters + 48)
    + tools_tokens ts

pub data PruneError : Type 0 where
  empty_conversation no_user_request does_not_fit : PruneError

unfoldable pub has_role : Bytes → Message → Bool
unfolding bytes_eq
has_role role m = bytes_eq m.role role

-- The last message of the user, and the messages behind it.
unfoldable pub last_user : List Message → Option (Message × List Message)
unfolding has_role
last_user [] = none
last_user (m ∷ ms) = elim (last_user ms) [
  | some found ↦ some found
  | none ↦ if has_role (lit "user") m then some (m, ms) else none
]

-- "…[truncated]", the first character in UTF-8
abbrev pub truncation_mark : Bytes
truncation_mark = 0xE2 ∷ 0x80 ∷ 0xA6 ∷ lit "[truncated]"

unfoldable pub clamp_text : Bytes → ℕ → Bytes × Bool
clamp_text text limit =
    if leb (length text) limit then (text, false) else (take limit text ++ truncation_mark, true)

-- A tool's result is cut for the history.
clamp_tool : Message → Message
unfolding clamp_text
clamp_tool m =
    if has_role (lit "tool") m
    then record m { content = (clamp_text m.content max_tool_result_bytes).0 }
    else m

unfoldable pub clamp_tools : List Message → List Message
unfolding clamp_tool
clamp_tools [] = []
clamp_tools (m ∷ ms) = clamp_tool m ∷ clamp_tools ms

unfoldable pub total_tokens : List Message → ℕ
total_tokens [] = 0
total_tokens (m ∷ ms) = message_tokens m + total_tokens ms

drop_tools : List Message → List Message
drop_tools [] = []
drop_tools (m ∷ ms) = if has_role (lit "tool") m then drop_tools ms else m ∷ ms

unfoldable pub drop_oldest_exchange : List Message → List Message
unfolding drop_tools
drop_oldest_exchange [] = []
drop_oldest_exchange (m ∷ ms) = drop_tools ms

-- The loop that drops exchanges until the rest fits. Each round drops a message at least.
drop_until : ℕ → ℤ → List Message → Outcome PruneError (List Message)
unfolding drop_oldest_exchange
drop_until zero budget tail = err does_not_fit
drop_until (suc fuel) budget [] = if leb_ℤ (pos 0) budget then ok [] else err does_not_fit
drop_until (suc fuel) budget (m ∷ ms) =
    let rest = drop_until fuel budget (drop_oldest_exchange (m ∷ ms)) in
    if leb_ℤ (pos (total_tokens (m ∷ ms))) budget then ok (m ∷ ms) else rest

-- What is left for the tail when the tools, the system message and the request are counted.
unfoldable pub budget_of : List Tool → Message → Message → ℤ
budget_of tools system user =
    sub_ℕ (context_tokens - max_output_tokens)
      (tools_tokens tools + message_tokens system + message_tokens user)

pruned_with :
    List Tool → Message → Option (Message × List Message) → Outcome PruneError (List Message)
unfolding clamp_tools drop_until
pruned_with tools system none = err no_user_request
pruned_with tools system (some (user, after)) = do
  let tail = clamp_tools after
  let budget = budget_of tools system user
  reject_if (leb_ℤ budget (pos 0)) does_not_fit
  rest ← drop_until (suc (length tail)) budget tail
  ok (system ∷ user ∷ rest)

unfoldable pub prune_messages : List Message → List Tool → Outcome PruneError (List Message)
unfolding pruned_with last_user
prune_messages [] tools = err empty_conversation
prune_messages (system ∷ ms) tools = pruned_with tools system (last_user (system ∷ ms))
