-- ===== src/Parquet.antt =====
-- tasks/simd-parquet-columnar-decoder: packed numbers, metadata and the reader.
pub mod BitUnpack
pub mod Types
pub mod Reader
mod Examples
