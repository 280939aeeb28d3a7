-- ===== src/Examples.antt =====
-- The theorems at concrete inputs, and tests.
mod Parts
mod Agent
mod Server
mod Insertion
mod Coreutils
mod Texts
mod Tests
mod Tools
mod Clients
