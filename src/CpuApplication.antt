-- ===== src/CpuApplication.antt =====
-- native/benchmark_core/src/cpu_application_engine.cpp: the engine of the application workloads.
pub mod Types
pub mod Engine
pub mod Worker
pub mod Report
pub mod Examples
