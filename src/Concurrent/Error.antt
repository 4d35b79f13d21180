-- ===== src/Concurrent/Error.antt =====
-- merkle-tree/concurrent/src/errors.rs
use light_protocol.Prelude.{ℕ}
use light_protocol.BoundedVec.Plain.{BoundedVecError}

pub data ConcurrentMerkleTreeError (Hash HasherError : Type 0) : Type 0 where
  integer_overflow : ConcurrentMerkleTreeError Hash HasherError
  height_zero : ConcurrentMerkleTreeError Hash HasherError
  invalid_height : ℕ → ConcurrentMerkleTreeError Hash HasherError
  changelog_zero : ConcurrentMerkleTreeError Hash HasherError
  roots_zero : ConcurrentMerkleTreeError Hash HasherError
  canopy_ge_than_height : ConcurrentMerkleTreeError Hash HasherError
  tree_full : ConcurrentMerkleTreeError Hash HasherError
  batch_greater_than_changelog : ℕ → ℕ → ConcurrentMerkleTreeError Hash HasherError
  invalid_proof_length : ℕ → ℕ → ConcurrentMerkleTreeError Hash HasherError
  invalid_proof : Hash → Hash → ConcurrentMerkleTreeError Hash HasherError
  cannot_update_leaf : ConcurrentMerkleTreeError Hash HasherError
  cannot_update_empty : ConcurrentMerkleTreeError Hash HasherError
  empty_leaves : ConcurrentMerkleTreeError Hash HasherError
  buffer_size : ℕ → ℕ → ConcurrentMerkleTreeError Hash HasherError
  hasher : HasherError → ConcurrentMerkleTreeError Hash HasherError
  bounded_vec : BoundedVecError → ConcurrentMerkleTreeError Hash HasherError
