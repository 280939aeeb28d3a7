-- ===== src/Agent/Loop/Printing.antt =====
-- What a session prints.
use go_core_mcp.Prelude.{
  ℕ, zero, suc, ◌+◌, ◌≡◌, refl, ◌∙◌, ap, inl, inr, List, [], ◌∷◌, ◌++◌, Bytes, leb, length,
  Bool-cases,
}
use go_core_mcp.Outcome.{Outcome, ok, err, panic}
use go_core_mcp.Exec.{Exec, continue, ◌>>=◌, >>=-keeps}
use go_core_mcp.Protocol.{ToolDefinition}
use go_core_mcp.Agent.Messages.{Message, ToolCall, Tool}
use go_core_mcp.Agent.Context.{prune_messages}
use go_core_mcp.Agent.Policy.{max_model_rounds}
use go_core_mcp.Agent.Profiles.{select_profile}
use go_core_mcp.Agent.ToolCall.{Session, RunError, new_session, run_tool_call}
use go_core_mcp.Agent.ToolCall.Budget.{run_tool_call-SameTalk}
use go_core_mcp.Agent.Loop.{
  Setup, run_calls, after_reply, complete, rounds, loop, pruned, expose_profile, print,
}

abbrev pub Silent : Session → Type 0
Silent s = s.printed ≡ []

-- One line is printed by a run that succeeds, and none by one that fails.
abbrev pub PrintsOnce : Outcome RunError (Unit {0}) × Session → Type 0
PrintsOnce (ok u, s) = (line : Bytes) × (s.printed ≡ line ∷ [])
PrintsOnce (err e, s) = Silent s
PrintsOnce (panic, s) = Silent s

-- A silent action, and then one that prints once from where it ends.
continue-PrintsOnce :
    {A : Type 0} (r : Outcome RunError A) (f : A → Exec Session RunError (Unit {0})) (s : Session)
    → Silent s
    → ((a : A) (t : Session) → Silent t → PrintsOnce (f a t))
    → PrintsOnce (continue r f s)
continue-PrintsOnce (ok a) f s h k = k a s h
continue-PrintsOnce (err e) f s h k = h
continue-PrintsOnce panic f s h k = h

print-PrintsOnce : (line : Bytes) (s : Session) → Silent s → PrintsOnce (print line s)
unfolding print
print-PrintsOnce line s h = (line, ap (λ x. x ++ line ∷ []) h)

module _ (setup : Setup) (exposed : List (Bytes × ToolDefinition)) (tools : List Tool) where
  run_calls-Silent :
      (round index : ℕ) (calls : List ToolCall) (ms : List Message) (s : Session)
      → Silent s
      → Silent (run_calls setup exposed tools round index calls ms s).1
  unfolding run_calls
  run_calls-Silent round index [] ms s h = h
  run_calls-Silent round index (c ∷ cs) ms s h =
      >>=-keeps Silent (run_tool_call setup.tools exposed c round index) _ s
        ((run_tool_call-SameTalk setup.tools exposed c round index s).printed ∙ h)
        (λ m t k. run_calls-Silent round (index + 1) cs (ms ++ m ∷ []) t k)

  complete-Silent :
      (round : ℕ) (c : List Message) (s : Session)
      → Silent s
      → Silent (complete setup exposed tools round c s).1
  unfolding complete
  complete-Silent round c s h = h

  after_reply-PrintsOnce :
      (round : ℕ) (ms : List Message) (reply : Message) (calls : List ToolCall)
      (go_on : List Message → Exec Session RunError (Unit {0})) (s : Session)
      → ((ms : List Message) (t : Session) → Silent t → PrintsOnce (go_on ms t))
      → Silent s
      → PrintsOnce (after_reply setup exposed tools round ms reply calls go_on s)
  unfolding after_reply ◌>>=◌
  after_reply-PrintsOnce round ms reply [] go_on s k h = print-PrintsOnce _ s h
  after_reply-PrintsOnce round ms reply (c ∷ cs) go_on s k h =
      let done = run_calls setup exposed tools round 0 (c ∷ cs) (ms ++ reply ∷ []) s in
      continue-PrintsOnce done.0 go_on done.1
        (run_calls-Silent round 0 (c ∷ cs) (ms ++ reply ∷ []) s h) k

  round-PrintsOnce :
      (round : ℕ) (ms : List Message) (go_on : List Message → Exec Session RunError (Unit {0}))
      (c : List Message) (s : Session)
      → ((ms : List Message) (t : Session) → Silent t → PrintsOnce (go_on ms t))
      → Silent s
      → PrintsOnce (
          (complete setup exposed tools round c >>= λ reply.
          after_reply setup exposed tools round ms reply reply.tool_calls go_on)
            s)
  unfolding ◌>>=◌
  round-PrintsOnce round ms go_on c s k h =
      let done = complete setup exposed tools round c s in
      continue-PrintsOnce done.0
        (λ reply. after_reply setup exposed tools round ms reply reply.tool_calls go_on) done.1
        (complete-Silent round c s h)
        (λ reply t u. after_reply-PrintsOnce round ms reply reply.tool_calls go_on t k u)

  rounds-PrintsOnce :
      (left round : ℕ) (ms : List Message) (s : Session)
      → Silent s
      → PrintsOnce (rounds setup exposed tools left round ms s)
  unfolding rounds ◌>>=◌ prune_messages
  rounds-PrintsOnce zero round ms s h = print-PrintsOnce _ s h
  rounds-PrintsOnce (suc left) round ms s h =
      continue-PrintsOnce (pruned (prune_messages ms tools)) _ s h (λ c t u.
        round-PrintsOnce round ms (λ ns. rounds setup exposed tools left (round + 1) ns) c t
          (λ ns v w. rounds-PrintsOnce left (round + 1) ns v w) u)

-- A session that succeeds has printed exactly one line, and a session that fails none.
pub loop-PrintsOnce : (setup : Setup) → PrintsOnce (loop setup new_session)
unfolding loop
loop-PrintsOnce setup =
    let (exposed, tools) =
      expose_profile setup.tools.codec.decode setup.discovered
        (select_profile setup.to_lower setup.prompt) in
    elim (Bool-cases (leb (length exposed) 0)) [
      | inl e ↦ rw (e, loop) refl
      | inr e ↦
          rw (e, loop) (rounds-PrintsOnce setup exposed tools max_model_rounds 1 _ new_session refl)
    ]
