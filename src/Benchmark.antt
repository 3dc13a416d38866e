-- ===== src/Benchmark.antt =====
-- src/benchmark/: the serial reference that the pipeline is compared with.
pub mod Serial
pub mod Increment
pub mod Verify
mod Samples
mod Tests
