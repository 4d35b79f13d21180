-- ===== src/Concurrent/Tree/Append.antt =====
-- merkle-tree/concurrent/src/lib.rs: appending a batch of leaves.
pub mod Levels
pub mod Loop
pub mod Leaf
pub mod Batch
pub mod Room
use light_protocol.Prelude.{
  ℕ, zero, suc, ◌+◌, ◌-◌, ◌*◌, ◌/◌, ◌%◌, Bool, true, false, List, [], ◌∷◌, Option, none, some,
  Result, ok, err, panic, ◌>>=◌, ◌>>◌, guard, length, set, map_err, not, ltb, leb, ◌==◌,
  if◌then◌else◌,
}
use light_protocol.Prelude.Words.{one_shl, sub, add, rem}
use light_protocol.Hasher.{Hasher}
use light_protocol.BoundedVec.Plain.{BoundedVec}
use light_protocol.BoundedVec.Plain
use light_protocol.BoundedVec.Cyclic
use light_protocol.Concurrent.Error.{
  ConcurrentMerkleTreeError, bounded_vec, empty_leaves, tree_full, batch_greater_than_changelog,
}
use light_protocol.Concurrent.Path.{TreeResult}
use light_protocol.Concurrent.Changelog.{ChangelogEntry, default_with_index}
use light_protocol.Concurrent.Tree.{
  ConcurrentMerkleTree, zero_byte, changelog_index, inc_next_index, inc_sequence_number,
}
use light_protocol.Concurrent.Tree.Canopy.{update_canopy}
use light_protocol.Concurrent.Tree.Update.{set_path}

-- What the loop over the levels changes: the tree's `filled_subtrees`, the path of the changelog
-- entry, the local `current_index` and `current_node`, and the proof that the caller wants, if
-- `WITH_PROOFS` is set.
pub record Climb (Hash : Type 0) : Type 0 where
  pub filled : BoundedVec Hash
  pub path : List (Option Hash)
  pub current_index : ℕ
  pub current_node : Hash
  pub proof : Option (BoundedVec Hash)

module _ (h : Hasher) (height_const : ℕ) where
  open h use {Hash, hashv, zero_hash}

  abbrev pub push_proof : Option (BoundedVec Hash) → Hash → TreeResult h (Option (BoundedVec Hash))
  push_proof none node = ok none
  push_proof (some proof) node = do
    proof' ← map_err bounded_vec (Plain.push proof node)
    ok (some proof')

  abbrev pub hash_pair : Hash → Hash → TreeResult h Hash
  hash_pair a b = map_err ConcurrentMerkleTreeError.hasher (hashv (a ∷ b ∷ []))

  -- the end of the loop's body: the node of the next level
  unfoldable pub next_level : ℕ → ℕ → Climb Hash → Hash → TreeResult h (Climb Hash)
  next_level height i s node = do
    top ← sub height 1
    path ← (if ltb i top then set_path h height_const s.path (i + 1) node else ok s.path)
    ok (record s { path = path; current_index = s.current_index / 2; current_node = node })

  -- The body where the current node is on the left; the flag says whether the loop goes on.
  unfoldable pub left_level : ℕ → Bool → ℕ → Climb Hash → TreeResult h (Climb Hash × Bool)
  unfolding next_level
  left_level height terminal i s = do
    empty_node ← zero_byte h height_const i
    proof ← push_proof s.proof empty_node
    filled ← Plain.index_mut s.filled i s.current_node
    let s' : Climb Hash = record s { filled = filled; proof = proof }
    if terminal
        then (do
          node ← hash_pair s.current_node empty_node
          s'' ← next_level height i s' node
          ok (s'', true))
        else ok (s', false)

  -- The body where the current node is on the right.
  unfoldable pub right_level : ℕ → ℕ → Climb Hash → TreeResult h (Climb Hash × Bool)
  unfolding next_level
  right_level height i s = do
    sibling ← Plain.index s.filled i
    proof ← push_proof s.proof sibling
    node ← hash_pair sibling s.current_node
    s' ← next_level height i (record s { proof = proof }) node
    ok (s', true)

  -- the loop, `n` levels from `i` on
  unfoldable pub climb_levels : ℕ → Bool → ℕ → ℕ → Climb Hash → TreeResult h (Climb Hash)
  climb_levels height terminal zero i s = ok s
  climb_levels height terminal (suc n) i s = do
    (s', go_on) ←
        (if s.current_index % 2 == 0
          then left_level height terminal i s
          else right_level height i s)
    if go_on then climb_levels height terminal n (i + 1) s' else ok s'

  -- The changelog entry is pushed first and its path is filled in place; here it is written when
  -- the loop over the levels is done.
  unfoldable pub append_leaf :
      ConcurrentMerkleTree Hash
      → Bool
      → Hash
      → Option (BoundedVec Hash)
      → TreeResult h (ConcurrentMerkleTree Hash × Option (BoundedVec Hash))
  unfolding default_with_index changelog_index inc_next_index inc_sequence_number
  append_leaf t terminal leaf proof = do
    let entry = default_with_index h height_const t.next_index
    changelog ← Cyclic.push t.changelog entry
    let i = changelog.last_index
    path ← set_path h height_const entry.path 0 leaf
    let start : Climb Hash = record {
      filled = t.filled_subtrees;
      path = path;
      current_index = t.next_index;
      current_node = leaf;
      proof = proof;
    }
    s ← climb_levels t.height terminal t.height 0 start
    changelog' ← Cyclic.index_mut changelog i (record entry { path = s.path })
    roots ← Cyclic.push t.roots (if terminal then s.current_node else zero_hash)
    t1 ←
        inc_next_index h height_const
          (record t { filled_subtrees = s.filled; changelog = changelog'; roots = roots })
    t2 ← inc_sequence_number h height_const t1
    ok (record t2 { rightmost_leaf = leaf }, s.proof)

  -- `proofs.as_mut().unwrap()[leaf_i]`, in order: the proof of this leaf and those of the rest
  abbrev pub take_proof :
      Option (List (BoundedVec Hash))
      → TreeResult h (Option (BoundedVec Hash) × Option (List (BoundedVec Hash)))
  take_proof none = ok (none, none)
  take_proof (some []) = panic
  take_proof (some (proof ∷ proofs)) = ok (some proof, some proofs)

  abbrev pub keep_proof : Option (BoundedVec Hash) → List (BoundedVec Hash) → List (BoundedVec Hash)
  keep_proof none proofs = proofs
  keep_proof (some proof) proofs = proof ∷ proofs

  -- the loop over the leaves; it returns the proofs that it filled
  unfoldable pub append_leaves :
      ConcurrentMerkleTree Hash
      → List Hash
      → Option (List (BoundedVec Hash))
      → TreeResult h (ConcurrentMerkleTree Hash × List (BoundedVec Hash))
  append_leaves t [] proofs = ok (t, [])
  append_leaves t (leaf ∷ leaves) proofs = do
    (proof, proofs') ← take_proof proofs
    (t', proof') ← append_leaf t (length leaves == 0) leaf proof
    (t'', filled) ← append_leaves t' leaves proofs'
    ok (t'', keep_proof proof' filled)

  -- `append_batch_common`, with `WITH_PROOFS` where `proofs` is given
  unfoldable pub append_batch_common :
      ConcurrentMerkleTree Hash
      → List Hash
      → Option (List (BoundedVec Hash))
      → TreeResult h (ConcurrentMerkleTree Hash × List (BoundedVec Hash) × ℕ × ℕ)
  append_batch_common t leaves proofs = do
    guard (not (length leaves == 0)) empty_leaves
    stop ← add t.next_index (length leaves)
    last ← sub stop 1
    places ← one_shl t.height
    guard (ltb last places) tree_full
    guard (leb (length leaves) t.changelog.capacity)
        (batch_greater_than_changelog (length leaves) t.changelog.capacity)
    first_changelog_index ← rem (t.changelog.last_index + 1) t.changelog.capacity
    first_sequence_number ← add t.sequence_number 1
    (t', filled) ← append_leaves t leaves proofs
    t'' ←
        (if ltb 0 t'.canopy_depth
          then update_canopy h t' first_changelog_index (length leaves)
          else ok t')
    ok (t'', filled, first_changelog_index, first_sequence_number)

  unfoldable pub append_batch :
      ConcurrentMerkleTree Hash → List Hash → TreeResult h (ConcurrentMerkleTree Hash × ℕ × ℕ)
  unfolding append_batch_common
  append_batch t leaves = do (t', filled, i, s) ← append_batch_common t leaves none; ok (t', i, s)

  unfoldable pub append :
      ConcurrentMerkleTree Hash → Hash → TreeResult h (ConcurrentMerkleTree Hash × ℕ × ℕ)
  unfolding append_batch
  append t leaf = append_batch t (leaf ∷ [])

  unfoldable pub append_with_proof :
      ConcurrentMerkleTree Hash
      → Hash
      → BoundedVec Hash
      → TreeResult h (ConcurrentMerkleTree Hash × List (BoundedVec Hash) × ℕ × ℕ)
  unfolding append_batch_common
  append_with_proof t leaf proof = append_batch_common t (leaf ∷ []) (some (proof ∷ []))
