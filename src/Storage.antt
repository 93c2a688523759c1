-- ===== src/Storage.antt =====
-- storage/*.rs
pub mod Error
pub mod Point
pub mod PointOrder
pub mod Segment
pub mod LocalShard
pub mod RemoteShard
pub mod Replicas
pub mod Collection
pub mod Setup
pub mod Toc
pub mod Recovery
