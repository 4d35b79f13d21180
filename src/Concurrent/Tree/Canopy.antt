-- ===== src/Concurrent/Tree/Canopy.antt =====
-- merkle-tree/concurrent/src/lib.rs: the canopy, the cached upper levels of the tree.
use light_protocol.Prelude.{
  ℕ, zero, suc, ◌+◌, ◌-◌, ◌/◌, ◌%◌, List, [], ◌∷◌, Option, none, some, ok, panic, ◌>>=◌, take,
  map_err, ltb, ◌==◌, if◌then◌else◌,
}
use mathlib.Core.List.{reverse}
use light_protocol.Prelude.Words.{one_shl, sub, add, rem, shift_right}
use light_protocol.Hasher.{Hasher}
use light_protocol.BoundedVec.Plain.{BoundedVec}
use light_protocol.BoundedVec.Plain
use light_protocol.BoundedVec.Cyclic
use light_protocol.Concurrent.Error.{bounded_vec}
use light_protocol.Concurrent.Path.{TreeResult}
use light_protocol.Concurrent.Tree.{ConcurrentMerkleTree}

module _ (h : Hasher) where
  open h use {Hash}

  -- the slot of the sibling of canopy slot `canopy_index`
  abbrev pub canopy_sibling : ℕ → ℕ
  canopy_sibling canopy_index = if canopy_index % 2 == 0 then canopy_index + 1 else canopy_index - 1

  -- The loop of `update_proof_from_canopy`. The index is a machine word and is halved in each
  -- round, so 64 rounds are enough; a loop that is cut off is a panic.
  unfoldable pub climb_canopy :
      ℕ → BoundedVec Hash → ℕ → BoundedVec Hash → TreeResult h (BoundedVec Hash)
  climb_canopy zero canopy node_index proof = if ltb 1 node_index then panic else ok proof
  climb_canopy (suc fuel) canopy node_index proof =
      let rest = (do
        node ← Plain.index canopy (canopy_sibling (node_index - 2))
        proof' ← map_err bounded_vec (Plain.push proof node)
        climb_canopy fuel canopy (node_index / 2) proof') in
      if ltb 1 node_index then rest else ok proof

  unfoldable pub update_proof_from_canopy :
      ConcurrentMerkleTree Hash → ℕ → BoundedVec Hash → TreeResult h (BoundedVec Hash)
  unfolding climb_canopy
  update_proof_from_canopy t leaf_index proof = do
    leaves ← one_shl t.height
    node ← add leaves leaf_index
    below ← sub t.height t.canopy_depth
    node_index ← shift_right node below
    climb_canopy 64 t.canopy node_index proof

  -- the inner loop of `update_canopy`, over the reversed path from its `i`-th node on
  unfoldable pub store_path :
      ℕ → ℕ → ℕ → List (Option Hash) → BoundedVec Hash → TreeResult h (BoundedVec Hash)
  store_path height leaf_index i [] canopy = ok canopy
  store_path height leaf_index i (none ∷ nodes) canopy =
      store_path height leaf_index (i + 1) nodes canopy
  store_path height leaf_index i (some node ∷ nodes) canopy = do
    level ← sub height (i + 1)
    first ← one_shl (height - level)
    along ← shift_right leaf_index level
    index ← add first along
    slot ← sub index 2
    canopy' ← Plain.index_mut canopy slot node
    store_path height leaf_index (i + 1) nodes canopy'

  -- the outer loop, over `n` changelog entries from the `i`-th on
  unfoldable pub store_paths :
      ConcurrentMerkleTree Hash → ℕ → ℕ → ℕ → BoundedVec Hash → TreeResult h (BoundedVec Hash)
  unfolding store_path
  store_paths t first zero i canopy = ok canopy
  store_paths t first (suc n) i canopy = do
    changelog_index ← rem (first + i) t.changelog.capacity
    entry ← Cyclic.index t.changelog changelog_index
    canopy' ← store_path t.height entry.index 0 (take t.canopy_depth (reverse entry.path)) canopy
    store_paths t first n (i + 1) canopy'

  unfoldable pub update_canopy :
      ConcurrentMerkleTree Hash → ℕ → ℕ → TreeResult h (ConcurrentMerkleTree Hash)
  unfolding store_paths
  update_canopy t first_changelog_index num_leaves = do
    canopy ← store_paths t first_changelog_index num_leaves 0 t.canopy
    ok (record t { canopy = canopy })
