-- ===== src/Agent/Startup/Lifecycle.antt =====
-- internal/agent/agent.go: no process survives `Run`, and none is started without need.
use mathlib.Core.Path.{subst}
use go_core_mcp.Prelude.{
  ◌≡◌, ◌≢◌, ◌⊎◌, refl, sym, ◌∙◌, ap, inl, inr, Bool-cases, Option-cases, List, [], ◌∷◌, ◌++◌,
  append_assoc, append-nil, Bytes,
}
use go_core_mcp.Outcome.{Outcome, Outcome-cases, ok, err, panic}
use go_core_mcp.Exec.{◌>>=◌}
use go_core_mcp.Protocol.{ToolDefinition}
use go_core_mcp.Client.{Link}
use go_core_mcp.Agent.Model.{ping}
use go_core_mcp.Agent.Model
use go_core_mcp.Agent.Configuration.{Config, validate, is_blank}
use go_core_mcp.Agent.Startup.{
  RunFailure, Launch, Process, started, closed, close, deferring, or_close, begin, greeted,
  tools_of, start_web, with_web, with_core, core_args, run,
}

-- Processes that are started and closed like brackets.
pub data Balanced : List Process → Type 0 where
  nothing : Balanced []
  around :
      {inner : List Process} (command : Bytes) (args : List Bytes) (directory : Bytes)
      → Balanced inner
      → Balanced (started command args directory ∷ (inner ++ closed command ∷ []))

-- A log that has grown by such processes.
pub record Grown (log after : List Process) : Type 0 where
  pub added : List Process
  pub is : after ≡ log ++ added
  pub balanced : Balanced added

unchanged : (log : List Process) → Grown log log
unchanged log = record { added = []; is = sym (append-nil log); balanced = Balanced.nothing }

-- What a process does between its start and its end.
bracketed :
    (log : List Process) (command : Bytes) (args : List Bytes) (directory : Bytes)
    {after : List Process}
    → Grown (log ++ started command args directory ∷ []) after
    → Grown log (after ++ closed command ∷ [])
bracketed log command args directory g = record {
  added = started command args directory ∷ (g.added ++ closed command ∷ []);
  is =
      ap (λ l. l ++ closed command ∷ []) g.is
      ∙ append_assoc (log ++ started command args directory ∷ []) g.added _
      ∙ append_assoc log (started command args directory ∷ []) _;
  balanced = Balanced.around command args directory g.balanced;
}

module _ (launch : Launch) where
  -- The web server when it is started: it has failed and every process is closed, or it runs, or
  -- the start has panicked.
  abbrev IsStarted :
      Config → List Process → Outcome RunFailure (List ToolDefinition) → List Process → Type 0
  IsStarted c log (ok tools) after =
      after ≡ log ++ started c.web_mcp_command c.web_mcp_args c.workspace ∷ []
  IsStarted c log (err e) after = Grown log after
  IsStarted c log panic after = Unit

  closed_at_once :
      (c : Config) (log : List Process)
      → Grown log (
          (log ++ started c.web_mcp_command c.web_mcp_args c.workspace ∷ [])
          ++ closed c.web_mcp_command ∷ [])
  closed_at_once c log = bracketed log c.web_mcp_command c.web_mcp_args c.workspace (unchanged _)

  start_web-IsStarted :
      (c : Config) (log : List Process)
      → IsStarted c log (start_web launch c log).0 (start_web launch c log).1
  unfolding start_web begin or_close close ◌>>=◌
  start_web-IsStarted c log =
      elim (Option-cases (launch.start c.web_mcp_command c.web_mcp_args c.workspace)) [
        | inl e ↦ rw (IsStarted, start_web, ◌>>=◌, begin, e) (unchanged log)
        | inr (link, e) ↦ elim (Outcome-cases (greeted launch link).0) [
          | inr (inl (x, f)) ↦ rw (IsStarted, start_web, ◌>>=◌, begin, e, f) (closed_at_once c log)
          | inr (inr f) ↦ rw (IsStarted, start_web, ◌>>=◌, begin, e, f) tt
          | inl (i, f) ↦ elim (Outcome-cases (tools_of launch (greeted launch link).1)) [
            | inl (tools, g) ↦ rw (IsStarted, start_web, ◌>>=◌, begin, e, f, g) refl
            | inr (inl (x, g)) ↦
                rw (IsStarted, start_web, ◌>>=◌, begin, e, f, g) (closed_at_once c log)
            | inr (inr g) ↦ rw (IsStarted, start_web, ◌>>=◌, begin, e, f, g) tt
          ]
        ]
      ]

  with_web-Grown :
      (c : Config) (core : List ToolDefinition) (log : List Process)
      → (with_web launch c core log).0 ≢ panic
      → Grown log (with_web launch c core log).1
  unfolding with_web deferring ◌>>=◌
  with_web-Grown c core log calm = elim (Bool-cases (is_blank c.web_mcp_command)) [
    | inl alone ↦ rw alone (unchanged log)
    | inr both ↦
        let web = start_web-IsStarted c log in
        elim (Outcome-cases (start_web launch c log).0) [
          | inl (tools, e) ↦
              rw (both, e)
                (bracketed log c.web_mcp_command c.web_mcp_args c.workspace
                  (subst (λ l. Grown l (start_web launch c log).1) (rw e at web) (unchanged _)))
          | inr (inl (x, e)) ↦ rw (both, e) (rw e at web)
          | inr (inr e) ↦ absurd (calm (rw (with_web, both, e) refl))
        ]
  ]

  with_core-Grown :
      (c : Config) (link : Link) (log : List Process)
      → (with_core launch c link log).0 ≢ panic
      → Grown log (with_core launch c link log).1
  unfolding with_core ◌>>=◌
  with_core-Grown c link log calm = elim (Outcome-cases (greeted launch link).0) [
    | inr (inl (x, e)) ↦ rw e (unchanged log)
    | inr (inr e) ↦ rw e (unchanged log)
    | inl (i, e) ↦ elim (Outcome-cases (tools_of launch (greeted launch link).1)) [
      | inr (inl (x, f)) ↦ rw (e, f) (unchanged log)
      | inr (inr f) ↦ rw (e, f) (unchanged log)
      | inl (core, f) ↦ rw (e, f) (with_web-Grown c core log λ h. calm (rw (with_core, e, f) h))
    ]
  ]

  -- A run that has started the process of the core server: the configuration is valid, with its
  -- workspace made canonical, the model's server answers, and the server runs in the workspace.
  pub record IsLaunched (config : Config) (events : List Process) : Type 0 where
    pub valid : Config
    pub validates : validate launch.paths config ≡ ok valid
    pub answers : ping launch.net (Model.new valid.llama_url valid.model) ≡ ok tt
    pub inner : List Process
    pub brackets :
        events
        ≡ started valid.mcp_command (core_args launch valid) valid.workspace
          ∷ (inner ++ closed valid.mcp_command ∷ [])
    pub balanced : Balanced inner

  launched :
      (config c : Config) (link : Link)
      → validate launch.paths config ≡ ok c
      → ping launch.net (Model.new c.llama_url c.model) ≡ ok tt
      → Grown
          (started c.mcp_command (core_args launch c) c.workspace ∷ [])
          (with_core launch c link (started c.mcp_command (core_args launch c) c.workspace ∷ [])).1
      → IsLaunched config
          (deferring c.mcp_command
            (with_core launch c link)
            (started c.mcp_command (core_args launch c) c.workspace ∷ [])).1
  unfolding deferring
  launched config c link v p g = record {
    valid = c;
    validates = v;
    answers = p;
    inner = g.added;
    brackets = ap (λ l. l ++ closed c.mcp_command ∷ []) g.is;
    balanced = g.balanced;
  }

  -- Whatever fails, short of a panic, `Run` leaves no process behind: either it has started none, or
  -- it has checked its configuration and reached the model before it started the core server in the
  -- workspace, and it closes every process that it has started, the web server's before that of the
  -- core server.
  pub run-cases :
      (config : Config)
      → (run launch config []).0 ≢ panic
      → ((run launch config []).1 ≡ []) ⊎ IsLaunched config (run launch config []).1
  unfolding run begin deferring ◌>>=◌
  run-cases config calm = elim (Outcome-cases (validate launch.paths config)) [
    | inr (inl (x, v)) ↦ rw v (inl refl)
    | inr (inr v) ↦ rw v (inl refl)
    | inl (c, v) ↦ elim (Outcome-cases (ping launch.net (Model.new c.llama_url c.model))) [
      | inr (inl (x, p)) ↦ rw (v, p) (inl refl)
      | inr (inr p) ↦ rw (v, p) (inl refl)
      | inl (u, p) ↦
          elim (Option-cases (launch.start c.mcp_command (core_args launch c) c.workspace)) [
            | inl s ↦ rw (◌>>=◌, begin, v, p, s) (inl refl)
            | inr (link, s) ↦
                rw (◌>>=◌, begin, v, p, s)
                  (inr (
                    launched config c link v p
                      (with_core-Grown c link _ λ h. calm (rw (run, ◌>>=◌, begin, v, p, s) h))))
          ]
    ]
  ]
