-- ===== src/Utf8.antt =====
-- core/utf8.h and core/utf8.c: UTF-8 text as bytes.
pub mod Codec
pub mod Scan
pub mod RoundTrip
pub mod Sound
pub mod Text
pub mod Prefix
pub mod Columns
mod Tests
