-- ===== src/Server/Handlers.antt =====
-- internal/mcpserver/tools.go: the handlers of the tools.
pub mod Reading
pub mod Writing
pub mod Finding
pub mod Texts
pub mod ReadOnly
