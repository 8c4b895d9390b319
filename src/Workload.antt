-- ===== src/Workload.antt =====
-- native/benchmark_core/src/cpu_application_workload.cpp.
pub mod Words
pub mod Json
pub mod Sobel
pub mod Radix
pub mod Application
pub mod Examples
