-- ===== src/Node.antt =====
-- manual_Scaffold/hyli/crates/hyle-modules/src/node_state.rs and the files below it: what the node
-- keeps of contracts and unsettled transactions, and how it settles them.
pub mod Types
pub mod Registration
pub mod Changes
pub mod Tld
pub mod Settlement
pub mod Store
pub mod Orders
pub mod Outputs
pub mod Proofs
pub mod Sequencing
pub mod Effects
pub mod Blocks
pub mod Handling
