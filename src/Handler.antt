-- ===== src/Handler.antt =====
-- mcp_handler.go: the answer to an MCP request, and the MCP answer made of an upstream response.
-- Traces and logs are left out: they change nothing of what is sent.
pub mod StatusText
mod Requests
mod Responses
pub mod Dispatching
pub mod Rerouting
pub mod ToolCalls
pub mod Answering
unfoldable pub use Requests.*
unfoldable pub use Responses.*
