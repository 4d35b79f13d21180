-- ===== src/Concurrent/Tests.antt =====
-- Runs of the concurrent Merkle tree, with a hash that keeps its arguments.
pub mod Digests
pub mod Trees
pub mod Runs
