-- ===== src/Agent/Loop/Bounds.antt =====
-- How much one session may do, whatever the model and the tools answer.
use go_core_mcp.Prelude.{
  ℕ, zero, suc, ◌+◌, ◌≤◌, ◌≡◌, refl, inl, inr, List, [], ◌∷◌, ◌++◌, Bytes, arith, leb, length,
  length-append, Bool-cases, All, All-append,
}
use go_core_mcp.Outcome.{Outcome, ok, err, panic}
use go_core_mcp.Exec.{Exec, continue, ◌>>=◌, >>=-keeps}
use go_core_mcp.Protocol.{ToolDefinition}
use go_core_mcp.Agent.Messages.{Message, ToolCall, Tool}
use go_core_mcp.Agent.Context.{PruneError, prune_messages, tools_tokens, total_tokens}
use go_core_mcp.Agent.Context.Fits.{room, prune_messages_fits}
use go_core_mcp.Agent.Policy.{max_model_rounds}
use go_core_mcp.Agent.Profiles.{select_profile}
use go_core_mcp.Agent.ToolCall.{Session, RunError, new_session, run_tool_call}
use go_core_mcp.Agent.ToolCall.Budget.{
  IsWithinBudget, run_tool_call-IsWithinBudget, run_tool_call-SameTalk,
}
use go_core_mcp.Agent.Loop.{
  Setup, run_calls, after_reply, complete, rounds, loop, pruned, expose_profile, print,
}

-- A conversation that fits into the model's context together with the tools.
abbrev pub Fits : List Tool → List Message → Type 0
Fits tools c = tools_tokens tools + total_tokens c ≤ room

-- At most `n` conversations were sent, each of which fits, and the calls keep to the budget.
pub record IsBoundedBy (setup : Setup) (exposed : List (Bytes × ToolDefinition)) (tools : List Tool)
    (n : ℕ) (s : Session) : Type 0 where
  pub calls : IsWithinBudget setup.tools exposed s
  pub few : length s.asked ≤ n
  pub fit : All (Fits tools) s.asked

module _ (setup : Setup) (exposed : List (Bytes × ToolDefinition)) (tools : List Tool) where
  abbrev Inv : ℕ → Session → Type 0
  Inv = IsBoundedBy setup exposed tools

  call-Inv :
      (n : ℕ) (call : ToolCall) (round index : ℕ) (s : Session)
      → Inv n s
      → Inv n (run_tool_call setup.tools exposed call round index s).1
  call-Inv n call round index s w =
      let same = run_tool_call-SameTalk setup.tools exposed call round index s in
      record {
        calls = run_tool_call-IsWithinBudget setup.tools exposed call round index s w.calls;
        few = rw same.asked w.few;
        fit = rw same.asked w.fit;
      }

  run_calls-Inv :
      (n round index : ℕ) (calls : List ToolCall) (ms : List Message) (s : Session)
      → Inv n s
      → Inv n (run_calls setup exposed tools round index calls ms s).1
  unfolding run_calls
  run_calls-Inv n round index [] ms s w = w
  run_calls-Inv n round index (c ∷ cs) ms s w =
      >>=-keeps (Inv n) (run_tool_call setup.tools exposed c round index) _ s
        (call-Inv n c round index s w)
        (λ m t h. run_calls-Inv n round (index + 1) cs (ms ++ m ∷ []) t h)

  Inv-more : (n m : ℕ) (s : Session) → n ≤ m → Inv n s → Inv m s
  Inv-more n m s h w = record { calls = w.calls; few = omega (arith, w.few); fit = w.fit }

  complete-Inv :
      (n round : ℕ) (c : List Message) (s : Session)
      → Fits tools c
      → Inv n s
      → Inv (n + 1) (complete setup exposed tools round c s).1
  unfolding complete
  complete-Inv n round c s fits w = record {
    calls = record { counted = w.calls.counted; few = w.calls.few; safe = w.calls.safe };
    few = omega (arith, length-append {0} s.asked (c ∷ []), w.few);
    fit = All-append (Fits tools) s.asked (c ∷ []) w.fit (fits, tt);
  }

  -- An action that keeps `Inv n`, then one that leads from it to `Inv m`.
  calls-then :
      {A B : Type 0} (n m : ℕ) (r : Outcome RunError A) (f : A → Exec Session RunError B)
      (s : Session)
      → n ≤ m
      → ((a : A) (t : Session) → Inv n t → Inv m (f a t).1)
      → Inv n s
      → Inv m (continue r f s).1
  calls-then n m (ok a) f s h k w = k a s w
  calls-then n m (err e) f s h k w = Inv-more n m s h w
  calls-then n m panic f s h k w = Inv-more n m s h w

  print-Inv : (n : ℕ) (line : Bytes) (s : Session) → Inv n s → Inv n (print line s).1
  unfolding print
  print-Inv n line s w = record {
    calls = record { counted = w.calls.counted; few = w.calls.few; safe = w.calls.safe };
    few = w.few;
    fit = w.fit;
  }

  after_reply-Inv :
      (n m round : ℕ) (ms : List Message) (reply : Message) (calls : List ToolCall)
      (go_on : List Message → Exec Session RunError (Unit {0})) (s : Session)
      → n ≤ m
      → ((ms : List Message) (t : Session) → Inv n t → Inv m (go_on ms t).1)
      → Inv n s
      → Inv m (after_reply setup exposed tools round ms reply calls go_on s).1
  unfolding after_reply ◌>>=◌
  after_reply-Inv n m round ms reply [] go_on s h k w = print-Inv m _ s (Inv-more n m s h w)
  after_reply-Inv n m round ms reply (c ∷ cs) go_on s h k w =
      let done = run_calls setup exposed tools round 0 (c ∷ cs) (ms ++ reply ∷ []) s in
      calls-then n m done.0 go_on done.1 h k
        (run_calls-Inv n round 0 (c ∷ cs) (ms ++ reply ∷ []) s w)

  -- A round on a pruned conversation, before what `go_on` does with its messages.
  abbrev one_round :
      ℕ
      → List Message
      → (List Message → Exec Session RunError (Unit {0}))
      → List Message
      → Exec Session RunError (Unit {0})
  one_round round ms go_on c = complete setup exposed tools round c >>= λ reply.
      after_reply setup exposed tools round ms reply reply.tool_calls go_on

  one_round-Inv :
      (n m round : ℕ) (ms : List Message) (go_on : List Message → Exec Session RunError (Unit {0}))
      (o : Outcome PruneError (List Message)) (s : Session)
      → prune_messages ms tools ≡ o
      → n + 1 ≤ m
      → ((ms : List Message) (t : Session) → Inv (n + 1) t → Inv m (go_on ms t).1)
      → Inv n s
      → Inv m (continue (pruned o) (one_round round ms go_on) s).1
  unfolding pruned ◌>>=◌ complete
  one_round-Inv n m round ms go_on (ok c) s e h k w =
      let done = complete setup exposed tools round c s in
      calls-then (n + 1) m done.0
        (λ reply. after_reply setup exposed tools round ms reply reply.tool_calls go_on) done.1 h
        (λ reply t u. after_reply-Inv (n + 1) m round ms reply reply.tool_calls go_on t h k u)
        (complete-Inv n round c s (prune_messages_fits ms tools e) w)
  one_round-Inv n m round ms go_on (err x) s e h k w = Inv-more n m s (omega arith) w
  one_round-Inv n m round ms go_on panic s e h k w = Inv-more n m s (omega arith) w

  rounds-Inv :
      (left n m round : ℕ) (ms : List Message) (s : Session)
      → n + left ≤ m
      → Inv n s
      → Inv m (rounds setup exposed tools left round ms s).1
  unfolding rounds ◌>>=◌ prune_messages
  rounds-Inv zero n m round ms s h w = print-Inv m _ s (Inv-more n m s (omega arith) w)
  rounds-Inv (suc left) n m round ms s h w =
      one_round-Inv n m round ms (λ ms'. rounds setup exposed tools left (round + 1) ms')
        (prune_messages ms tools) s refl (omega arith)
        (λ ms' t u. rounds-Inv left (n + 1) m (round + 1) ms' t (omega arith) u) w

-- The tools that a session exposes, and what the model is told of them.
abbrev pub exposure : Setup → List (Bytes × ToolDefinition) × List Tool
exposure setup =
    expose_profile setup.tools.codec.decode setup.discovered
      (select_profile setup.to_lower setup.prompt)

-- Whatever the model and the tools answer, a session sends at most three conversations to the model,
-- each within the context; it counts at most five tool calls and sends no more; and each that is sent
-- goes to an exposed tool, with arguments that its schema accepts, numbers within the limits, and
-- paths that stay inside.
pub loop-IsBoundedBy :
    (setup : Setup)
    → IsBoundedBy setup
        (exposure setup).0
        (exposure setup).1
        max_model_rounds
        (loop setup new_session).1
unfolding loop
loop-IsBoundedBy setup =
    let (exposed, tools) = exposure setup in
    let start : IsBoundedBy setup exposed tools 0 new_session = record {
      calls = record { counted = omega arith; few = omega arith; safe = tt };
      few = omega arith;
      fit = tt;
    } in
    elim (Bool-cases (leb (length exposed) 0)) [
      | inl e ↦ rw e (Inv-more setup exposed tools 0 3 new_session (omega arith) start)
      | inr e ↦ rw e (rounds-Inv setup exposed tools 3 0 3 1 _ new_session (omega arith) start)
    ]
