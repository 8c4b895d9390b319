-- ===== src/Topology.antt =====
-- native/benchmark_core/src/topology.cpp and its header.
pub mod Types
pub mod CpuList
pub mod Rank
pub mod Groups
pub mod Select
pub mod Examples
