-- ===== src/Consensus.antt =====
-- consensus.rs
pub mod State
pub mod Loop
pub mod Ready
pub mod Bootstrap
