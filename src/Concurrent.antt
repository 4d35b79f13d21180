-- ===== src/Concurrent.antt =====
-- merkle-tree/concurrent/src: the concurrent Merkle tree.
pub mod Error
pub mod Tests
pub mod Path
pub mod Changelog
pub mod Tree
pub mod Leaves
