-- ===== src/Cpu.antt =====
-- native/benchmark_core/src/engine.cpp: the CPU engine.
pub mod Types
pub mod Gates
pub mod Telemetry
pub mod Engine
pub mod Selection
pub mod Windows
pub mod Measure
pub mod Workload
pub mod Worker
pub mod Examples
