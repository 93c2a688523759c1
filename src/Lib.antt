-- ===== src/Lib.antt =====
-- smoldb, a small distributed database of points, in Rust.
--
-- A node keeps a table of collections. A collection has shards, and a hash ring that gives each
-- point a shard. A shard's replica set is a local shard, whose segment 0 is a database with one text
-- under each key, and remote shards, which are reached over gRPC. A write goes to the local shard
-- and to every remote shard of the set, and succeeds if the local shard and enough of all replicas
-- took it; a read by id asks the local shard only, a read of all points asks every replica. Peers
-- learn of one another by `add_peer_to_known`, and a consensus thread drives raft.
--
-- Storage/Point, Storage/Segment: src/storage/segment.rs. Storage/LocalShard, Storage/RemoteShard
-- and Storage/Replicas: the files of src/storage/replicas. Storage/Collection:
-- src/storage/collection.rs. Storage/Toc: src/storage/toc.rs. Storage/PointOrder: the sorted map
-- that a read of all points fills. Storage/Setup: what these files create and delete on the disk.
-- Storage/Recovery: what they load from it when a node starts. Storage/Error: src/storage/error.rs.
-- Types: src/types.rs. Channels: src/channel_service.rs. Api: src/api. Grpc: src/api/grpc, with the
-- generated clients and servers of p2p_grpc_schema.rs in Grpc/Clients and Grpc/Servers.
-- Consensus: src/consensus.rs. Bench: tools/smolbench. Node: the requests and joins that change a
-- node's table, as a step relation with its invariants, a write that one node sends and another
-- serves, and the state that main builds. Api/Points/History: sequences of requests against an
-- abstract table. The functions and types keep the source's names, in snake case for a function; a
-- loop of a function is a function of its own. Prelude has the shared helpers, Decimal prints and
-- reads numbers, and Tests runs the theorems on small inputs.
--
-- An operation takes the state that it changes and returns it after its result, on an error too: the
-- database, the disk, the peers. Where the source shares a structure under a lock, the structure is
-- threaded through, and an operation is one step. Storage/Toc/Tasks has the steps between which
-- creations that run at the same time interleave, and Storage/Segment/Concurrent those of two
-- insertions into one segment; other operations are not interleaved. `none` is a panic of an
-- `unwrap` or an `expect`, and ends the operation; among creations that run at the same time it ends
-- one of them. Numbers are native numbers; a theorem in which their range matters states the range,
-- and the batches of the benchmark wrap around at 64 bits. A `HashMap` is an association list, and
-- the order of its iteration is a parameter where it matters.
--
-- Storage/Recovery/Restart is about a collection that is created and loaded again, over the laws of
-- External/Tree: Made and Created have the creation, Clear the way to the paths that it makes,
-- Listing, Tidy and Reload the load.
--
-- External names what smoldb calls: serde_json, sled, the file system, hashring, http and tonic with
-- the peers behind it, and the laws that a theorem may assume of them. The raft crate is the
-- parameter `Raft` of Consensus/Ready, tonic behind the generated code is `Tonic` of Grpc/Transport,
-- and what the benchmark calls, with the operations on floating-point numbers, is the parameter
-- `Client` of Bench/Types. The loop of `on_ready` has no bound in the source: it takes fuel, one unit
-- for a round, and one more than the rounds until the node comes to rest is enough. The fuel of `show`
-- in Decimal is one more than the number, which has no more digits than that.
--
-- Not modelled: the sockets of the servers and the start of the consensus thread; of the generated
-- clients and servers what nothing calls; elapsed times; printed messages, but for those that show
-- what the consensus thread does and the latencies of the benchmark; what a database keeps on the
-- disk from one start to the next.
pub mod Prelude
pub mod Decimal
pub mod Types
pub mod Storage
pub mod Grpc
pub mod External
pub mod Channels
pub mod Api
pub mod Consensus
pub mod Node
pub mod Bench
pub mod Tests
