-- ===== src/Consensus.antt =====
-- manual_Scaffold/hyli/src/consensus.rs and the roles in consensus/: the agreement on the next block.
pub mod Types
pub mod Actions
pub mod Rounds
pub mod Leader
pub mod Timeouts
pub mod Follower
pub mod Messages
pub mod Moves
pub mod Checks
