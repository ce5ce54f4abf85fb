-- ===== src/Wire.antt =====
-- extproc_response.go and const.go: the ext_proc messages and the functions that build them.
-- The protobuf types keep the fields that the program sets; a pointer that may be nil is an
-- `Option`. The received messages and headers are those that the program reads.
mod Types
mod Build
pub mod Framing
pub mod Routing
pub use Types.*
unfoldable pub use Build.*
