-- ===== src/Go.antt =====
-- What the program uses of Go's standard library: byte strings, UTF-8, slash-separated paths.
pub mod Text
pub mod Utf8
pub mod Paths
