-- ===== src/Api.antt =====
-- api/*.rs: the HTTP handlers of the node
pub mod Helpers
pub mod Points
pub mod Collections
pub mod Service
pub mod Cluster
