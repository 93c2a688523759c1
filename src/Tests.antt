-- ===== src/Tests.antt =====
-- Concrete runs of the theorems.
mod Demo
mod Shards
mod Replication
mod Handlers
mod Cluster
mod Reads
mod Nodes
mod Disks
mod Benchmark
mod Joins
mod Tonic
mod Calls
mod Trees
mod Listings
mod Restarts
mod Rounds
mod Interleavings
mod Races
mod Loops
