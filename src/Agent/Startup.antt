-- ===== src/Agent/Startup.antt =====
-- internal/agent/agent.go: the lifecycle of the server processes.
pub mod Lifecycle
use go_core_mcp.Prelude.{
  ℕ, map, mem, Option, none, some, List, [], ◌∷◌, ◌++◌, Bytes, lit, bytes_eq, if◌then◌else◌,
}
use go_core_mcp.Outcome.{Outcome, ok, err, panic, map_err}
use go_core_mcp.Exec.{Exec, pure, raise, lift, ◌>>=◌, ◌>>◌}
use go_core_mcp.Protocol.{ToolDefinition}
use go_core_mcp.Client.{Link, Initialized, Wire, ClientError, initialize, list_tools}
use go_core_mcp.Agent.Configuration.{Config, ConfigError, Paths, is_blank, validate}
use go_core_mcp.Agent.ToolCall.{RunError, Reply, new_session}
use go_core_mcp.Agent.Loop.{Setup, discover, loop}
use go_core_mcp.Agent.Model.{LlmError, ModelNet, ping}
use go_core_mcp.Agent.Model

pub data RunFailure : Type 0 where
  bad_config : ConfigError → RunFailure
  model_unreachable : LlmError → RunFailure
  not_started no_tools : RunFailure
  session_failed : ClientError → RunFailure
  loop_failed : RunError → RunFailure

-- What happens to the processes of the servers: `start` with its command, arguments and directory, and
-- the call of Close, which ends it.
pub data Process : Type 0 where
  started : Bytes → List Bytes → Bytes → Process
  closed : Bytes → Process

-- A part of `Run`, with what was done with processes so far.
abbrev pub Running : Type 0 → Type 0
Running A = Exec (List Process) RunFailure A

-- The file system, the model, the start of a process, which gives the events of its session, calls of
-- tools with the clients of the two servers, and what a session is given besides.
pub record Launch : Type 0 where
  pub paths : Paths
  pub net : ModelNet
  pub wire : Wire
  pub start : Bytes → List Bytes → Bytes → Option Link
  pub core_call : ℕ → Bytes → Bytes → Reply
  pub web_call : ℕ → Bytes → Bytes → Reply
  pub setup : Setup

-- `client.Close()`
unfoldable pub close : Bytes → Running (Unit {0})
close command log = (ok tt, log ++ closed command ∷ [])

-- What follows a `defer client.Close()`: the client is closed when it ends, panics included.
unfoldable pub deferring : {A : Type 0} → Bytes → Running A → Running A
deferring command body log = let (r, after) = body log in (r, after ++ closed command ∷ [])

-- `if err != nil { client.Close(); return err }`
or_close : {A : Type 0} → Bytes → Outcome RunFailure A → Running A
or_close command (ok a) = pure a
or_close command (err e) = do close command; raise e
or_close command panic = lift panic

pub names_in : List (Bytes × ToolDefinition) → List Bytes
names_in tools = map (λ t. t.0) tools

module _ (launch : Launch) where
  -- `mcpclient.StartProcess`
  begin : Bytes → List Bytes → Bytes → Running Link
  begin command args directory log = elim (launch.start command args directory) [
    | none ↦ (err not_started, log)
    | some link ↦ (ok link, log ++ started command args directory ∷ [])
  ]

  -- `Initialize` and `ListTools` on a new client.
  greeted : Link → Outcome RunFailure Initialized × Link
  greeted link = let (r, after) = initialize launch.wire link in (map_err session_failed r, after)

  tools_of : Link → Outcome RunFailure (List ToolDefinition)
  tools_of link = map_err session_failed (list_tools launch.wire link).0

  -- `startWebMCPServer`
  start_web : Config → Running (List ToolDefinition)
  unfolding begin or_close greeted tools_of
  start_web c = do
    link ← begin c.web_mcp_command c.web_mcp_args c.workspace
    or_close c.web_mcp_command (greeted link).0
    or_close c.web_mcp_command (tools_of (greeted link).1)

  -- clients[name].CallTool: a name that the core server has is a tool of it.
  route : List Bytes → ℕ → Bytes → Bytes → Reply
  unfolding mem
  route core n name raw =
      if mem name core then launch.core_call n name raw else launch.web_call n name raw

  -- The session, if there are tools; each that was discovered has a client.
  finish : Config → List Bytes → List (Bytes × ToolDefinition) → Outcome RunFailure (Unit {0})
  unfolding route names_in
  finish c core [] = err no_tools
  finish c core (t ∷ ts) =
      let tools = record launch.setup.tools { clients = names_in (t ∷ ts); call = route core } in
      map_err loop_failed
        (loop (record launch.setup { tools = tools; prompt = c.prompt; discovered = t ∷ ts })
          new_session).0

  -- `Run` from the discovery of the core server's tools on
  with_web : Config → List ToolDefinition → Running (Unit {0})
  unfolding start_web finish bytes_eq names_in
  with_web c core =
      if is_blank c.web_mcp_command
      then lift (finish c (names_in (discover core none)) (discover core none))
      else (do
        web ← start_web c
        deferring c.web_mcp_command
            (lift (finish c (names_in (discover core none)) (discover core (some web)))))

  with_core : Config → Link → Running (Unit {0})
  unfolding with_web greeted tools_of
  with_core c link = do
    lift (greeted link).0
    core ← lift (tools_of (greeted link).1)
    with_web c core

  abbrev pub core_args : Config → List Bytes
  core_args c = c.mcp_args ++ (lit "--workspace" ∷ c.workspace ∷ [])

  -- `Run`: its outcome, and what it did with processes
  unfoldable pub run : Config → Running (Unit {0})
  unfolding begin with_core
  run config = do
    c ← lift (map_err bad_config (validate launch.paths config))
    lift (map_err model_unreachable (ping launch.net (Model.new c.llama_url c.model)))
    link ← begin c.mcp_command (core_args c) c.workspace
    deferring c.mcp_command (with_core c link)
