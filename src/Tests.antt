-- ===== src/Tests.antt =====
-- Runs of the theorems at concrete inputs.
mod App
mod Sdk
mod Tokens
mod SmtToken
mod Wallet
mod Node
mod Blocks
mod Staking
mod Consensus
mod Hydentity
mod Guest
