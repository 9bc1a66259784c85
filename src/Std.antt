-- ===== src/Std.antt =====
-- What the crates use of Rust's standard library: characters, strings, integers and paths.
pub mod Chars
pub mod Text
pub mod Utf8
pub mod Decimal
pub mod Int
pub mod Path
