-- ===== src/Concurrent/Tree.antt =====
-- merkle-tree/concurrent/src/lib.rs: the state of the tree, `new`, `init` and the accessors.
-- `HEIGHT` is the parameter `height_const`. Allocation and deallocation leave no trace.
pub mod Canopy
pub mod Update
pub mod Append
pub mod Init
use light_protocol.Prelude.{
  ℕ, zero, suc, ◌+◌, ◌-◌, ◌*◌, ◌<◌, Bool, List, [], ◌∷◌, Option, none, some, Result, ok, err, panic,
  ◌>>=◌, ◌>>◌, guard, unwrap, map, get_elem?, map_err, not, ltb, leb, ◌==◌, ◌||◌, if◌then◌else◌,
}
use light_protocol.Prelude.Words.{checked_add, one_shl, sub}
use light_protocol.Hasher.{Hasher}
use light_protocol.BoundedVec.Plain.{BoundedVec, BoundedVecError}
use light_protocol.BoundedVec.Plain
use light_protocol.BoundedVec.Cyclic.{CyclicBoundedVec}
use light_protocol.BoundedVec.Cyclic
use light_protocol.Concurrent.Error.{
  ConcurrentMerkleTreeError, integer_overflow, height_zero, invalid_height, changelog_zero,
  roots_zero, canopy_ge_than_height, bounded_vec,
}
use light_protocol.Concurrent.Path.{TreeResult}
use light_protocol.Concurrent.Changelog.{ChangelogEntry}

pub record ConcurrentMerkleTree (Hash : Type 0) : Type 0 where
  pub height : ℕ
  pub canopy_depth : ℕ
  pub next_index : ℕ
  pub sequence_number : ℕ
  pub rightmost_leaf : Hash
  pub filled_subtrees : BoundedVec Hash
  pub changelog : CyclicBoundedVec (ChangelogEntry Hash)
  pub roots : CyclicBoundedVec Hash
  pub canopy : BoundedVec Hash

module _ (h : Hasher) (height_const : ℕ) where
  open h use {Hash, HasherError, zero_bytes, zero_hash}

  -- `(1 << (canopy_depth + 1)) - 2`
  unfoldable pub canopy_size {κ} : {E : Type κ} → ℕ → Result E ℕ
  canopy_size canopy_depth = do nodes ← one_shl (canopy_depth + 1); sub nodes 2

  unfoldable pub check_size_constraints_new : ℕ → ℕ → ℕ → ℕ → TreeResult h (Unit {0})
  check_size_constraints_new height changelog_size roots_size canopy_depth = do
    guard (not (height == 0 || height_const == 0)) height_zero
    guard (height == height_const) (invalid_height height_const)
    guard (leb canopy_depth height) canopy_ge_than_height
    guard (not (changelog_size == 0)) changelog_zero
    guard (not (roots_size == 0)) roots_zero

  unfoldable pub check_size_constraints : ConcurrentMerkleTree Hash → TreeResult h (Unit {0})
  unfolding check_size_constraints_new
  check_size_constraints t =
      check_size_constraints_new t.height t.changelog.capacity t.roots.capacity t.canopy_depth

  unfoldable pub new : ℕ → ℕ → ℕ → ℕ → TreeResult h (ConcurrentMerkleTree Hash)
  unfolding check_size_constraints_new canopy_size
  new height changelog_size roots_size canopy_depth = do
    check_size_constraints_new height changelog_size roots_size canopy_depth
    nodes ← canopy_size canopy_depth
    ok (record {
      height = height;
      canopy_depth = canopy_depth;
      next_index = 0;
      sequence_number = 0;
      rightmost_leaf = zero_hash;
      filled_subtrees = Plain.with_capacity height;
      changelog = Cyclic.with_capacity changelog_size;
      roots = Cyclic.with_capacity roots_size;
      canopy = Plain.with_capacity nodes;
    })

  -- `H::zero_bytes()[i]`
  abbrev pub zero_byte : ℕ → TreeResult h Hash
  zero_byte i = unwrap (get_elem? zero_bytes i)

  -- the table's entries from `i` on, `n` of them
  unfoldable pub zero_row : ℕ → ℕ → TreeResult h (List Hash)
  zero_row zero i = ok []
  zero_row (suc n) i = do node ← zero_byte i; row ← zero_row n (i + 1); ok (node ∷ row)

  -- `vec.push(node)?`, `n` times
  unfoldable pub push_times : ℕ → Hash → BoundedVec Hash → TreeResult h (BoundedVec Hash)
  push_times zero node v = ok v
  push_times (suc n) node v = do v' ← map_err bounded_vec (Plain.push v node); push_times n node v'

  -- the loop of `init` over the levels of the canopy, `n` of them from `level_i` on
  unfoldable pub init_canopy : ℕ → ℕ → ℕ → BoundedVec Hash → TreeResult h (BoundedVec Hash)
  unfolding push_times
  init_canopy height zero level_i canopy = ok canopy
  init_canopy height (suc n) level_i canopy = do
    level_nodes ← one_shl (level_i + 1)
    below ← sub height (level_i + 1)
    node ← zero_byte below
    canopy' ← push_times level_nodes node canopy
    init_canopy height n (level_i + 1) canopy'

  -- The `unwrap` of the loop over `filled_subtrees` makes an error a panic.
  unfoldable pub init_filled : BoundedVec Hash → List Hash → TreeResult h (BoundedVec Hash)
  init_filled v [] = ok v
  init_filled v (node ∷ nodes) = elim (Plain.push v node) [
    | ok v' ↦ init_filled v' nodes
    | err e ↦ panic
    | panic ↦ panic
  ]

  unfoldable pub init : ConcurrentMerkleTree Hash → TreeResult h (ConcurrentMerkleTree Hash)
  unfolding check_size_constraints
  init t = do
    check_size_constraints t
    root ← zero_byte t.height
    roots ← Cyclic.push t.roots root
    row ← zero_row height_const 0
    changelog ← Cyclic.push t.changelog (record { path = map some row; index = 0 })
    zeros ← zero_row t.height 0
    filled ← init_filled t.filled_subtrees zeros
    canopy ← init_canopy t.height t.canopy_depth 0 t.canopy
    ok (record t {
      filled_subtrees = filled;
      changelog = changelog;
      roots = roots;
      canopy = canopy;
    })

  unfoldable pub changelog_index : ConcurrentMerkleTree Hash → ℕ
  changelog_index t = t.changelog.last_index

  unfoldable pub root_index : ConcurrentMerkleTree Hash → ℕ
  root_index t = t.roots.last_index

  unfoldable pub root : ConcurrentMerkleTree Hash → TreeResult h Hash
  unfolding root_index
  root t = Cyclic.index t.roots (root_index t)

  unfoldable pub current_index : ConcurrentMerkleTree Hash → ℕ
  current_index t = if ltb 0 t.next_index then t.next_index - 1 else t.next_index

  unfoldable pub inc_next_index :
      ConcurrentMerkleTree Hash → TreeResult h (ConcurrentMerkleTree Hash)
  inc_next_index t = elim (checked_add t.next_index 1) [
    | none ↦ err integer_overflow
    | some n ↦ ok (record t { next_index = n })
  ]

  unfoldable pub inc_sequence_number :
      ConcurrentMerkleTree Hash → TreeResult h (ConcurrentMerkleTree Hash)
  inc_sequence_number t = elim (checked_add t.sequence_number 1) [
    | none ↦ err integer_overflow
    | some n ↦ ok (record t { sequence_number = n })
  ]
