-- ===== src/Utils.antt =====
-- utils/src: the helpers of the programs, besides the numbers of bigint.rs.
pub mod FieldHash
pub mod Fee
pub mod Tests
