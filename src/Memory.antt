-- ===== src/Memory.antt =====
-- native/benchmark_core/src/memory_engine.cpp and memory_timing.h: the memory engine.
pub mod Types
pub mod Buffer
pub mod Engine
pub mod Run
pub mod Examples
