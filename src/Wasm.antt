-- ===== src/Wasm.antt =====
-- tasks/wasm-jit-core-runtime: the parser of binary modules, and the runtime that calls exports.
pub mod Types
pub mod Parser
pub mod Runtime
mod Examples
