-- ===== src/Token.antt =====
-- programs/compressed-token/src: the compressed-token program.
pub mod Data
pub mod Inputs
pub mod Outputs
pub mod Transfer
pub mod Holds
pub mod Created
pub mod Backed
pub mod Delegation
pub mod Freeze
pub mod Burn
pub mod Mint
mod Tests
