-- ===== src/Quantum.antt =====
-- tasks/simd-quantum-circuit-simulator: the state vector, its circuit and samples.
pub mod Types
pub mod Simulator
mod Examples
