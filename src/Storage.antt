-- ===== src/Storage.antt =====
-- native/benchmark_core/src/storage_engine.cpp.
pub mod Types
pub mod Tests
pub mod Engine
pub mod Run
pub mod Blocks
pub mod Prepare
pub mod Examples
