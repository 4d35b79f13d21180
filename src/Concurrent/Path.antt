-- ===== src/Concurrent/Path.antt =====
-- merkle-tree/concurrent/src/hash.rs: parents and roots from a Merkle proof.
pub mod Correct
use Prim.Native.Nat.{bit_and}
use light_protocol.Prelude.{
  ℕ, ◌+◌, Bool, List, [], ◌∷◌, Result, ok, ◌>>=◌, map_err, ◌==◌, if◌then◌else◌,
}
use light_protocol.Prelude.Words.{shift_right}
use light_protocol.Hasher.{Hasher}
use light_protocol.BoundedVec.Plain.{BoundedVec, as_slice}
use light_protocol.Concurrent.Error.{ConcurrentMerkleTreeError}

module _ (h : Hasher) where
  open h use {Hash, HasherError, hashv}

  -- the errors and the results of the tree's functions
  abbrev pub TreeError : Type 0
  TreeError = ConcurrentMerkleTreeError Hash HasherError

  abbrev pub TreeResult {κ} : Type κ → Type κ
  TreeResult = Result TreeError

  unfoldable pub compute_parent_node : Hash → Hash → ℕ → ℕ → TreeResult Hash
  compute_parent_node node sibling node_index level = do
    shifted ← shift_right node_index level
    if bit_and shifted 1 == 0
        then map_err ConcurrentMerkleTreeError.hasher (hashv (node ∷ sibling ∷ []))
        else map_err ConcurrentMerkleTreeError.hasher (hashv (sibling ∷ node ∷ []))

  -- the loop of `compute_root`, over the proof from `level` on
  unfoldable pub climb : Hash → ℕ → ℕ → List Hash → TreeResult Hash
  unfolding compute_parent_node
  climb node leaf_index level [] = ok node
  climb node leaf_index level (sibling ∷ proof) = do
    parent ← compute_parent_node node sibling leaf_index level
    climb parent leaf_index (level + 1) proof

  unfoldable pub compute_root : Hash → ℕ → BoundedVec Hash → TreeResult Hash
  unfolding climb as_slice
  compute_root leaf leaf_index proof = climb leaf leaf_index 0 (as_slice proof)
