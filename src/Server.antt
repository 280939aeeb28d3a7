-- ===== src/Server.antt =====
-- internal/mcpserver: the MCP server of the core utilities, its errors and its limits.
pub mod Workspace
pub mod Calls
pub mod Dispatch
pub mod Machine
pub mod Handlers
pub mod Table
pub mod Opening
pub mod Confinement
pub mod Http
use go_core_mcp.Prelude.{ℕ, Bytes}
use go_core_mcp.Protocol.{Category}

-- An error that carries a category back to the client.
pub record ToolError : Type 0 where
  pub category : Category
  pub message : Bytes

-- `Limits`; MaxDuration is a matter of the clock, which a handler's run stands for.
pub record Limits : Type 0 where
  pub max_result_bytes : ℕ
  pub max_file_read_bytes : ℕ
  pub max_file_write_bytes : ℕ
  pub max_grep_matches : ℕ
  pub max_find_results : ℕ
  pub max_line_bytes : ℕ

abbrev pub default_limits : Limits
default_limits = record {
  max_result_bytes = 16384;
  max_file_read_bytes = 12288;
  max_file_write_bytes = 65536;
  max_grep_matches = 20;
  max_find_results = 200;
  max_line_bytes = 2048;
}
