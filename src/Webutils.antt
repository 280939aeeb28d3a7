-- ===== src/Webutils.antt =====
-- webutils: the guard on the addresses that the browser tools may open.
pub mod Policy
pub mod Search
pub mod Schemas
pub mod Server
pub mod Extraction
