-- ===== src/Agent/Loop.antt =====
-- internal/agent/agent.go: discovery, the tools that a request exposes, and the bounded loop. What
-- the loop only logs is not modelled.
pub mod Bounds
pub mod Discovery
pub mod Printing
use go_core_mcp.Prelude.{
  ℕ, zero, suc, ◌+◌, true, false, Option, none, some, List, [], ◌∷◌, ◌++◌, Bytes, lit, bytes_eq,
  mem, leb, if◌then◌else◌, length,
}
use go_core_mcp.Outcome.{Outcome, ok, err, panic}
use go_core_mcp.Exec.{Exec, pure, raise, lift, modify, ◌>>=◌}
use go_core_mcp.Strings.{trim_space}
use go_core_mcp.Json.{Fields}
use go_core_mcp.Protocol.{ToolDefinition}
use go_core_mcp.Agent.Messages.{Message, ToolCall, Tool}
use go_core_mcp.Agent.Context.{PruneError, prune_messages}
use go_core_mcp.Agent.Profiles.{Profile, max_exposed_tools, select_profile}
use go_core_mcp.Agent.Policy.{max_model_rounds, allowed_core_tools, allowed_web_tools}
use go_core_mcp.Agent.ToolCall.{
  Tools, RunError, does_not_prune, model_failed, no_usable_tools, Session, find_tool, run_tool_call,
}

abbrev Named : Type 0
Named = List (Bytes × ToolDefinition)

abbrev map_option : {A B : Type 0} → (A → B) → Option A → Option B
map_option f none = none
map_option f (some a) = some (f a)

-- A map write: the entry of the key is replaced, or a new one is added.
put_tool : Bytes → ToolDefinition → Named → Named
unfolding bytes_eq
put_tool name t [] = (name, t) ∷ []
put_tool name t ((n, u) ∷ ts) =
    if bytes_eq n name then (name, t) ∷ ts else (n, u) ∷ put_tool name t ts

keep_allowed : List Bytes → Named → List ToolDefinition → Named
unfolding put_tool
keep_allowed allowlist kept [] = kept
keep_allowed allowlist kept (t ∷ ts) =
    keep_allowed allowlist (if mem t.name allowlist then put_tool t.name t kept else kept) ts

-- `FilterDiscovered`
unfoldable pub filter_discovered : List ToolDefinition → List Bytes → List (Bytes × ToolDefinition)
unfolding keep_allowed
filter_discovered tools allowlist = keep_allowed allowlist [] tools

-- What `Run` does with the tools of the web server: a name that the core server has is denied.
merge_web : List (Bytes × ToolDefinition) → Named → Named
unfolding put_tool
merge_web discovered [] = discovered
merge_web discovered ((n, t) ∷ ts) =
    merge_web
      (elim (find_tool n discovered) [ some u ↦ discovered | none ↦ put_tool n t discovered ]) ts

-- The tools that `Run` discovers: those of the core server, and of the web server if there is one.
unfoldable pub discover :
    List ToolDefinition → Option (List ToolDefinition) → List (Bytes × ToolDefinition)
unfolding merge_web
discover core none = filter_discovered core allowed_core_tools
discover core (some web) =
    merge_web (filter_discovered core allowed_core_tools) (filter_discovered web allowed_web_tools)

-- `AdaptTool`; `none` is an input schema that is no JSON object.
adapt_tool : (Bytes → Option Fields) → ToolDefinition → Option Tool
adapt_tool decode t =
    map_option
      (λ parameters. record {
        kind = lit "function";
        function = record { name = t.name; description = t.description; parameters = parameters };
      })
      (decode t.input_schema)

usable : (Bytes → Option Fields) → Option ToolDefinition → Option (ToolDefinition × Tool)
unfolding adapt_tool
usable decode none = none
usable decode (some t) = map_option (λ a. (t, a)) (adapt_tool decode t)

-- The loop of `exposeProfile` over the names of the profile.
expose_from : (Bytes → Option Fields) → Named → Named → List Tool → List Bytes → Named × List Tool
unfolding usable put_tool
expose_from decode discovered exposed tools [] = (exposed, tools)
expose_from decode discovered exposed tools (name ∷ names) =
    elim (leb max_exposed_tools (length tools)) [
      | true ↦ (exposed, tools)
      | false ↦ elim (usable decode (find_tool name discovered)) [
        | none ↦ expose_from decode discovered exposed tools names
        | some (t, adapted) ↦
            expose_from decode discovered (put_tool name t exposed) (tools ++ adapted ∷ []) names
      ]
    ]

unfoldable pub expose_profile :
    (Bytes → Option Fields)
    → List (Bytes × ToolDefinition)
    → Profile
    → List (Bytes × ToolDefinition) × List Tool
unfolding expose_from
expose_profile decode discovered profile = expose_from decode discovered [] [] profile.tools

-- What a session is given: its tools, the prompt, the discovered tools, strings.ToLower, and the
-- model, which answers a conversation in a round, or fails.
pub record Setup : Type 0 where
  pub tools : Tools
  pub prompt : Bytes
  pub system_prompt : Bytes
  pub discovered : List (Bytes × ToolDefinition)
  pub to_lower : Bytes → Bytes
  pub complete : ℕ → List Message → List Tool → Option Message

abbrev pub round_limit_message : Bytes
round_limit_message = lit "Agent stopped: maximum model rounds reached."

abbrev plain : Bytes → Bytes → Message
plain role content = record {
  role = role;
  content = content;
  tool_calls = [];
  tool_call_id = [];
  name = [];
}

abbrev Run : Type 0 → Type 0
Run A = Exec Session RunError A

print : Bytes → Run (Unit {0})
print line = modify (λ s. record s { printed = s.printed ++ line ∷ [] })

-- fmt.Errorf on a pruning error
pruned : Outcome PruneError (List Message) → Outcome RunError (List Message)
pruned (ok ms) = ok ms
pruned (err e) = err does_not_prune
pruned panic = panic

module _ (setup : Setup) (exposed : List (Bytes × ToolDefinition)) (tools : List Tool) where
  -- `s.model.Complete`: the conversation is sent, and the model answers or fails.
  complete : ℕ → List Message → Run Message
  complete round conversation s = (
    elim (setup.complete round conversation tools) [ none ↦ err model_failed | some m ↦ ok m ],
    record s { asked = s.asked ++ conversation ∷ [] },
  )

  -- The calls of one reply, in order; a fatal error ends the loop.
  run_calls : ℕ → ℕ → List ToolCall → List Message → Run (List Message)
  run_calls round index [] messages = pure messages
  run_calls round index (call ∷ calls) messages =
      run_tool_call setup.tools exposed call round index >>= λ message.
      run_calls round (index + 1) calls (messages ++ message ∷ [])

  -- What follows a reply: its text is printed, or its calls are run and the rounds go on.
  after_reply :
      ℕ → List Message → Message → List ToolCall → (List Message → Run (Unit {0})) → Run (Unit {0})
  unfolding run_calls print
  after_reply round messages reply [] go_on = print (trim_space reply.content)
  after_reply round messages reply (call ∷ calls) go_on =
      run_calls round 0 (call ∷ calls) (messages ++ reply ∷ []) >>= go_on

  -- `left` rounds are left, the next of which has the number `round`.
  rounds : ℕ → ℕ → List Message → Run (Unit {0})
  unfolding after_reply print complete pruned
  rounds zero round messages = print round_limit_message
  rounds (suc left) round messages = do
    conversation ← lift (pruned (prune_messages messages tools))
    reply ← complete round conversation
    after_reply round messages reply reply.tool_calls (λ ms. rounds left (round + 1) ms)

-- `Loop`
unfoldable pub loop : Setup → Run (Unit {0})
unfolding rounds
loop setup =
    let (exposed, tools) =
      expose_profile setup.tools.codec.decode setup.discovered
        (select_profile setup.to_lower setup.prompt) in
    if leb (length exposed) 0
    then raise no_usable_tools
    else rounds setup exposed tools max_model_rounds 1
        (plain (lit "system") setup.system_prompt ∷ plain (lit "user") setup.prompt ∷ [])
