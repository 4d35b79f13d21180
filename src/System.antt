-- ===== src/System.antt =====
-- programs/system/src: the system program.
pub mod Accounts
pub mod SumCheck
pub mod CpiSigner
pub mod CpiContext
pub mod AccountHash
pub mod HashInputs
pub mod Append
pub mod Tests
