-- ===== src/Std.antt =====
-- The functions of Go's standard library that the program calls, beyond those of Common/Text.
pub mod Affix
pub mod Order
pub mod HostPort
pub mod Base64
pub mod Decimal
