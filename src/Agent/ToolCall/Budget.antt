-- ===== src/Agent/ToolCall/Budget.antt =====
-- What a tool call does to the session, whether it is run, rejected or fatal.
use go_core_mcp.Prelude.{
  ℕ, ◌≤◌, ◌<◌, ◌≡◌, refl, inl, inr, List, [], ◌∷◌, Bytes, bytes_eq, arith, length, length-append,
  Bool-cases, All, All-append, mem,
}
use go_core_mcp.Outcome.{Outcome, ok, err, panic}
use go_core_mcp.Strings.{trim_space}
use go_core_mcp.Protocol.{ToolDefinition}
use go_core_mcp.Agent.Messages.{ToolCall}
use go_core_mcp.Agent.Policy.{max_total_tool_calls}
use go_core_mcp.Agent.ToolCall.{
  Rejection, Tools, validate_call, Session, execute, settle, run_tool_call,
}
use go_core_mcp.Agent.ToolCall.Safe.{IsSafeCall, validate_call-IsSafeCall}

-- A pair of a name and arguments that may be sent to a client.
pub record MaySend (tools : Tools) (exposed : List (Bytes × ToolDefinition)) (c : Bytes × Bytes)
    : Type 0 where
  pub asked : Bytes
  pub tool : ToolDefinition
  pub name : c.0 ≡ tool.name
  pub call : IsSafeCall tools exposed asked c.1 tool

pub record IsWithinBudget (tools : Tools) (exposed : List (Bytes × ToolDefinition)) (s : Session)
    : Type 0 where
  pub counted : s.tool_calls ≤ max_total_tool_calls
  pub few : length s.sent ≤ s.tool_calls
  pub safe : All (MaySend tools exposed) s.sent

-- What a tool call leaves alone.
pub record SameTalk (s t : Session) : Type 0 where
  pub asked : t.asked ≡ s.asked
  pub printed : t.printed ≡ s.printed

module _ (tools : Tools) (exposed : List (Bytes × ToolDefinition)) where
  execute-IsWithinBudget :
      (id asked raw : Bytes) (tool : ToolDefinition) (s : Session)
      → s.tool_calls < max_total_tool_calls
      → IsSafeCall tools exposed asked raw tool
      → IsWithinBudget tools exposed s
      → IsWithinBudget tools exposed (execute tools id (raw, tool) s).1
  unfolding execute
  execute-IsWithinBudget id asked raw tool s below call w =
      elim (Bool-cases (mem tool.name tools.clients)) [
        | inl e ↦ rw e (record {
          counted = omega arith;
          few = omega (arith, length-append {0} s.sent ((tool.name, raw) ∷ []), w.few);
          safe =
              All-append (MaySend tools exposed) s.sent ((tool.name, raw) ∷ []) w.safe
                (record { asked = asked; tool = tool; name = refl; call = call }, tt);
        })
        | inr e ↦ rw e (record { counted = omega arith; few = omega (arith, w.few); safe = w.safe })
      ]

  settle-IsWithinBudget :
      (id : Bytes) (call : ToolCall) (o : Outcome Rejection (Bytes × ToolDefinition)) (s : Session)
      → validate_call tools s.tool_calls exposed call ≡ o
      → IsWithinBudget tools exposed s
      → IsWithinBudget tools exposed (settle tools id call.function.name o s).1
  unfolding settle
  settle-IsWithinBudget id call (ok (raw, tool)) s e w =
      let (below, safe) = validate_call-IsSafeCall tools s.tool_calls exposed call e in
      execute-IsWithinBudget id call.function.name raw tool s below safe w
  settle-IsWithinBudget id call (err r) s e w = w
  settle-IsWithinBudget id call panic s e w = w

  -- A session that is within its budget stays so, whatever becomes of a tool call: at most five calls
  -- are counted, no more are sent than are counted, and each that is sent may be sent.
  pub run_tool_call-IsWithinBudget :
      (call : ToolCall) (round index : ℕ) (s : Session)
      → IsWithinBudget tools exposed s
      → IsWithinBudget tools exposed (run_tool_call tools exposed call round index s).1
  unfolding run_tool_call
  run_tool_call-IsWithinBudget call round index s w =
      elim (Bool-cases (bytes_eq (trim_space call.id) [])) [
        | inl e ↦ rw e w
        | inr e ↦ rw e (
            settle-IsWithinBudget (trim_space call.id) call
              (validate_call tools s.tool_calls exposed call) s refl w)
      ]

  settle-SameTalk :
      (id name : Bytes) (o : Outcome Rejection (Bytes × ToolDefinition)) (s : Session)
      → SameTalk s (settle tools id name o s).1
  unfolding settle execute
  settle-SameTalk id name (ok (raw, tool)) s = elim (Bool-cases (mem tool.name tools.clients)) [
    | inl e ↦ rw e (record { asked = refl; printed = refl })
    | inr e ↦ rw e (record { asked = refl; printed = refl })
  ]
  settle-SameTalk id name (err r) s = record { asked = refl; printed = refl }
  settle-SameTalk id name panic s = record { asked = refl; printed = refl }

  pub run_tool_call-SameTalk :
      (call : ToolCall) (round index : ℕ) (s : Session)
      → SameTalk s (run_tool_call tools exposed call round index s).1
  unfolding run_tool_call
  run_tool_call-SameTalk call round index s = elim (Bool-cases (bytes_eq (trim_space call.id) [])) [
    | inl e ↦ rw e (record { asked = refl; printed = refl })
    | inr e ↦ rw e (settle-SameTalk (trim_space call.id) call.function.name _ s)
  ]
