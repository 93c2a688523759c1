-- ===== src/Grpc.antt =====
-- api/grpc/*.rs
pub mod Schema
pub mod Status
pub mod Transport
pub mod Clients
pub mod Servers
pub mod PointsService
pub mod RaftService
pub mod Init
