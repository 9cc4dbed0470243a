-- ===== src/Sdk.antt =====
-- The contract SDK, manual_Scaffold/hyli/crates/contract-sdk/src, and the data of hyle-model.
pub mod Types
pub mod Context
pub mod Output
pub mod Guest
pub mod Secp256k1
pub mod Callees
pub mod Callers
