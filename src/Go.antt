-- ===== src/Go.antt =====
-- What the program uses of Go's standard library.
pub mod Sha256
pub mod Hex
pub mod Space
pub mod Strings
pub mod Path
pub mod Decimal
pub mod Float
pub mod Utf8
