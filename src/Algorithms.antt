-- ===== src/Algorithms.antt =====
-- experiments/concurrent_algorithms: algorithms that split their range over threads.
pub mod Blocks
pub mod Find
pub mod FindRecursive
pub mod ForEach
pub mod Accumulate
pub mod PartialSum
pub mod Sort
