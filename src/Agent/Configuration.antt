-- ===== src/Agent/Configuration.antt =====
-- internal/agent/agent.go: the configuration and its checks.
use go_core_mcp.Prelude.{
  Bool, not, ◌&&◌, Option, none, some, List, Bytes, lit, bytes_eq, [], if◌then◌else◌,
}
use go_core_mcp.Outcome.{Outcome, ok, err, reject_if, ◌>>=◌, ◌>>◌}
use go_core_mcp.Strings.{has_prefix, trim_space}

-- `Config`
pub record Config : Type 0 where
  pub llama_url : Bytes
  pub model : Bytes
  pub mcp_command : Bytes
  pub mcp_args : List Bytes
  pub web_mcp_command : Bytes
  pub web_mcp_args : List Bytes
  pub workspace : Bytes
  pub prompt : Bytes

pub data ConfigError : Type 0 where
  llama_url_required llama_url_not_http model_required mcp_command_required prompt_required
        workspace_not_resolved workspace_not_usable workspace_not_directory :
      ConfigError

-- filepath.Abs and filepath.EvalSymlinks, which may fail, and the test of os.Stat for a directory.
pub record Paths : Type 0 where
  pub abs : Bytes → Option Bytes
  pub eval_symlinks : Bytes → Option Bytes
  pub is_dir : Bytes → Bool

or_error : {E A : Type 0} → E → Option A → Outcome E A
or_error e none = err e
or_error e (some a) = ok a

abbrev pub is_blank : Bytes → Bool
is_blank text = bytes_eq (trim_space text) []

workspace_or_dot : Bytes → Bytes
unfolding bytes_eq
workspace_or_dot workspace = if is_blank workspace then lit "." else workspace

-- `Validate`: the configuration with its workspace made canonical
unfoldable pub validate : Paths → Config → Outcome ConfigError Config
unfolding or_error workspace_or_dot bytes_eq
validate paths c = do
  reject_if (is_blank c.llama_url) llama_url_required
  reject_if
      (not (has_prefix c.llama_url (lit "http://"))
        && not (has_prefix c.llama_url (lit "https://")))
      llama_url_not_http
  reject_if (is_blank c.model) model_required
  reject_if (is_blank c.mcp_command) mcp_command_required
  reject_if (is_blank c.prompt) prompt_required
  absolute ← or_error workspace_not_resolved (paths.abs (workspace_or_dot c.workspace))
  resolved ← or_error workspace_not_usable (paths.eval_symlinks absolute)
  reject_if (not (paths.is_dir resolved)) workspace_not_directory
  ok (record c { workspace = resolved })
