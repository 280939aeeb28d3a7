-- ===== src/Agent/Policy.antt =====
-- The bounds and allowlists of internal/agent/agent.go.
use go_core_mcp.Prelude.{ℕ, List, [], ◌∷◌, Bytes}
use go_core_mcp.Agent.Profiles.{lits}

abbrev pub max_model_rounds : ℕ
max_model_rounds = 3

abbrev pub max_total_tool_calls : ℕ
max_total_tool_calls = 5

-- 16 << 10
abbrev pub max_result_bytes : ℕ
max_result_bytes = 16384

unfoldable pub allowed_core_tools : List Bytes
allowed_core_tools = lits (
    "cat" ∷ "coreutils_run" ∷ "cp" ∷ "find" ∷ "grep" ∷ "head" ∷ "ls" ∷ "mkdir" ∷ "mv" ∷ "pwd" ∷ "rm"
    ∷ "rmdir" ∷ "tail" ∷ "touch" ∷ "write_file" ∷ [])

unfoldable pub allowed_web_tools : List Bytes
allowed_web_tools = lits ("browse_url" ∷ "search_web" ∷ [])
