-- ===== src/Agent.antt =====
-- The package `agent`: the bounded loop between the model and the MCP tools.
pub mod Messages
pub mod Context
pub mod Profiles
pub mod Policy
pub mod Payload
pub mod ToolCall
pub mod Loop
pub mod Model
pub mod Configuration
pub mod Startup
