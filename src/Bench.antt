-- ===== src/Bench.antt =====
-- tools/smolbench/src: the benchmark's numbers and batches
pub mod Numbers
pub mod Batches
pub mod Types
pub mod Apis
pub mod Driver
