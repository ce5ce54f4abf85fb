-- ===== src/Stream.antt =====
-- stream_state.go and the loop of `Process` in server.go: the state machine of one gRPC stream.
-- The start time of a phase is left out: only traces read it.
mod Machine
pub mod Sequence
pub mod Buffering
pub mod Gate
pub mod Exchange
pub mod Running
unfoldable pub use Machine.*
