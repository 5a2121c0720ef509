-- ===== src/Print.antt =====
-- src/print.rs: formatted console output. Output is the sequence of bytes that are handed to `puts`.
pub mod Argument
pub mod Numbers
pub mod Spec
pub mod Engine
pub mod Tests
