-- ===== src/Go.antt =====
-- What the Go code takes from the language and its standard library: errors, contexts, times.
pub mod Errors
pub mod Context
pub mod Text
pub mod Uuid
