-- ===== src/Gpu.antt =====
-- native/benchmark_core: the GPU benchmark.
pub mod Validation
pub mod Examples
