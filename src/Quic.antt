-- ===== src/Quic.antt =====
-- tasks/quic-stream-multiplexer-engine: variable-length integers, frames, streams and the engine.
pub mod Varint
pub mod Frame
pub mod Stream
pub mod Engine
mod Examples
