-- ===== src/Runtime.antt =====
-- The string runtime, src/strideruntime_string.cpp: the functions of the C ABI, and the wrappers
-- that generated code calls.
pub mod View
pub mod Slice
pub mod Search
pub mod Token
pub mod Arena
pub mod Format
pub mod Jit
mod Examples
