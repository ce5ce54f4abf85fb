-- ===== src/Tests.antt =====
-- The theorems at concrete inputs: one server, with one tool, and one exchange with it.
mod Sample
mod Calls
mod Parts
mod Registries
mod Documents
mod Api
mod Sources
mod Gateway
mod Logs
mod Handling
mod Streams
