-- ===== src/Lib.antt =====
-- RapidBench measures a device's processor, graphics, memory and storage. Its native core, under
-- native/benchmark_core, is C++; native/benchmark_ffi hands its functions to an application in Dart.
-- This library models the parts of the core that decide something: which CPUs a run uses, what a
-- workload computes and how its output is checked, and how the engines for the CPU, the application
-- workloads, the memory and the storage take a run from its start to its last snapshot.
--
-- The parts, and the files that model them:
--   * Topology (native/benchmark_core/src/topology.cpp, with the selection functions of engine.cpp
--     and cpu_application_engine.cpp). Topology/Types has the structs; Topology/CpuList has
--     ParseCpuList, on lists of character codes, and Print writes lists in the kernel's format;
--     Topology/Rank has CommonRankSource, PerformanceRank and PerformanceGroupIdentity;
--     Topology/Groups has AssignPerformanceGroups; Topology/Select has SelectCpuCandidates and the
--     functions that call it. An engine reads the topology, and the groups and the order of the
--     candidates decide what it runs on.
--   * Workload (native/benchmark_core/src/cpu_application_workload.cpp). Workload/Json has Cursor and
--     ParseApplicationJson, and Workload/Json/Corpus the text that the constructor writes for it;
--     Workload/Radix has ReferenceSort, Workload/Sobel has ApplicationSobel and ReferenceSobel;
--     Workload/Application has the class CpuApplicationWorkload, which puts them together: its
--     constructor makes an input and the reference output, RunBatch makes the output anew and
--     Validate compares the two.
--   * Cpu (native/benchmark_core/src/engine.cpp and cpu_workload.cpp, with engine.h). Cpu/Types has the
--     types; Cpu/Engine has Start, RequestStop and the Publish functions of Engine::Impl, and
--     Cpu/Engine/Runs makes one system of them and a coordinator, as a step relation in which the two
--     locked parts of Start are two actions. What Run does is
--     in four parts: Cpu/Selection chooses the CPUs from the topology, Cpu/Gates has the places where
--     Run and its workers wait for one another, as a step relation of any number of workers,
--     Cpu/Worker has RunWorker with PinWorkerWithRetry and CheckWorkerCpu, and Cpu/Measure has the
--     loop of the measurement and the last snapshot, over what its rounds see, with the windows and
--     the score in Cpu/Windows.
--     Cpu/Telemetry has the sums over the workers, the frequency peaks and the telemetry word, and
--     Cpu/Workload the work of a batch.
--   * Storage (native/benchmark_core/src/storage_engine.cpp, with storage_engine.h and
--     storage_execution.h below native/benchmark_core/include/benchmark). Storage/Types and
--     Storage/Tests have the types and the tests on them; Storage/Blocks has MakeRandomOffsets,
--     FillPattern, ChooseFileMiB and DetectDirectAlignment; Storage/Prepare has
--     OpenAndPrepareRawFile; Storage/Run has MakeResult and StorageEngine::Run over what
--     the measurements write into the snapshot and give MakeResult; Storage/Engine has Start, RequestStop and Publish, and
--     Storage/Engine/Runs makes one system of them and a coordinator, as a step relation
--     in which Start and RequestStop have three actions each.
--   * CpuApplication (native/benchmark_core/src/cpu_application_engine.cpp, with
--     cpu_application_engine.h). CpuApplication/Engine has Start and Stop of the engine;
--     CpuApplication/Worker has RunWorker, which works on a workload of the Workload part;
--     CpuApplication/Report has the end of Run: what it sums up over the workers, and the last snapshot.
--   * Memory (native/benchmark_core/src/memory_engine.cpp, with memory_engine.h and memory_timing.h).
--     Memory/Buffer has ChooseBufferBytes, AllocateBuffer and the regions that the workers get;
--     Memory/Engine has Start and RequestStop; Memory/Run has Run and RunAttempt as the list of the
--     snapshots that they publish, over what the system answers, and SummarizeMemoryMeasurement.
--   * Gpu (native/benchmark_core/src/gpu_validation.cpp). Gpu/Validation has the guard of
--     ValidateGpuOutput and the words of the output that it reads, region by region.
--   * Prelude has what they share: tests and lists on native numbers, integers, bits of words,
--     sorting, decimal numerals, and the interface of operations on `double`.
-- The files called Examples hold runs at small inputs and applications of the theorems.
--
-- Conventions. A word of w bits is a number, with its wrap-around written out. An `int32_t` that is
-- negative for "unknown" is an integer. A text is the list of its character codes. A pointer that the
-- caller passes is taken to be valid, but where the model says how it is not. `std::sort` is insertion
-- sort, `std::map` an association list. Floating-point numbers are an interface of operations.
-- Anything that the system answers (system calls, clocks, the stop flag, the shuffle of the standard
-- library) is an argument.
--
-- Fuel. ParseCpuList gets a round more than the text has characters, since each entry takes one; a
-- range's loop gets 4097 rounds, since the guard admits 4096 CPUs. The loop over JSON records gets a
-- round more than there are characters. MakeRandomOffsets gets a round more than there are blocks,
-- which is enough for files that are more than a block shorter than 2^64 bytes.
-- OpenAndPrepareRawFile gets two rounds for each block and two more, since the loop begins anew once
-- at most. PinWorkerWithRetry gets its four attempts, Run of the memory engine its three, and AllocateBuffer 65
-- rounds, since it halves a size of 64 bits. The other loops run over a list: of the rounds that the
-- clock allows, of what the system answers, or of the data itself.
--
-- Not modelled: DetectTopology and the other readers of sysfs, the measuring functions of the storage
-- engine (RunSyncTest, RunAioTest, RunThreadedTest, RunSqliteTest), the performance hints that the CPU
-- engine and the memory engine send, the middle of CpuApplicationEngine::Impl::Run, the kernels of the
-- memory engine, what remains of the GPU part, Vulkan, the FFI layer, the shaders, the application and
-- its packages in Dart and Kotlin, and the copy of SQLite in native/third_party.
pub mod Prelude
pub mod Cpu
pub mod CpuApplication
pub mod Gpu
pub mod Memory
pub mod Storage
pub mod Topology
pub mod Workload
