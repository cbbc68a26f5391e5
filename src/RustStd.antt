-- ===== src/RustStd.antt =====
-- What the sources use of Rust's standard library: decimal text of a u32, `from_utf8_lossy`,
-- little-endian words, and searches in byte strings. Strings are their UTF-8 bytes.
pub mod Decimal
pub mod Utf8
pub mod Words
pub mod Find
pub mod Sort
