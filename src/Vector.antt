-- ===== src/Vector.antt =====
-- tasks/hnsw-pq-simd-vector-engine: distances, product quantization and the index of vectors.
pub mod Float
pub mod Simd
pub mod Quantizer
pub mod Index
mod Examples
