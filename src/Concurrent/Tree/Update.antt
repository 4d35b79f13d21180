-- ===== src/Concurrent/Tree/Update.antt =====
-- merkle-tree/concurrent/src/lib.rs: replacing a leaf under a proof that may be outdated.
pub mod Filled
pub mod Correct
pub mod Validate
pub mod History
pub mod Refused
use light_protocol.Prelude.{
  ℕ, ◌+◌, Bool, List, [], ◌∷◌, Option, none, some, Result, ok, err, panic, ◌>>=◌, ◌>>◌, guard,
  guard_dec, length, set, drop, map_err, not, ltb, leb, ◌==◌, if◌then◌else◌,
}
use light_protocol.Prelude.Words.{one_shl, sub}
use light_protocol.Hasher.{Hasher}
use light_protocol.BoundedVec.Plain.{BoundedVec, as_slice}
use light_protocol.BoundedVec.Cyclic
use light_protocol.Concurrent.Error.{
  bounded_vec, invalid_proof, invalid_proof_length, cannot_update_empty,
}
use light_protocol.Concurrent.Path.{TreeResult, compute_parent_node, compute_root}
use light_protocol.Concurrent.Changelog.{ChangelogEntry, default_with_index, update_proof}
use light_protocol.Concurrent.Tree.{
  ConcurrentMerkleTree, changelog_index, root, current_index, inc_sequence_number,
}
use light_protocol.Concurrent.Tree.Canopy.{update_proof_from_canopy, update_canopy}

module _ (h : Hasher) (height_const : ℕ) where
  open h use {Hash, hash_discrete}

  -- The entries that the iterator gives, without the first.
  unfoldable pub changelog_entries :
      ConcurrentMerkleTree Hash → ℕ → TreeResult h (List (ChangelogEntry Hash))
  changelog_entries t i = do
    it ← map_err bounded_vec (Cyclic.iter_from t.changelog i)
    entries ← Cyclic.collect (t.changelog.capacity + 2) it
    ok (drop 1 entries)

  -- the loop of `update_proof_from_changelog`
  unfoldable pub patch_all :
      List (ChangelogEntry Hash) → ℕ → BoundedVec Hash → TreeResult h (BoundedVec Hash)
  patch_all [] leaf_index proof = ok proof
  patch_all (entry ∷ entries) leaf_index proof = do
    proof' ← update_proof h height_const entry leaf_index proof
    patch_all entries leaf_index proof'

  unfoldable pub update_proof_from_changelog :
      ConcurrentMerkleTree Hash → ℕ → ℕ → BoundedVec Hash → TreeResult h (BoundedVec Hash)
  update_proof_from_changelog t i leaf_index proof = do
    entries ← changelog_entries t i
    patch_all entries leaf_index proof

  unfoldable pub validate_proof :
      ConcurrentMerkleTree Hash → Hash → ℕ → BoundedVec Hash → TreeResult h (Unit {0})
  unfolding root compute_root
  validate_proof t leaf leaf_index proof = do
    expected_root ← root h height_const t
    computed_root ← compute_root h leaf leaf_index proof
    guard_dec (hash_discrete computed_root expected_root)
        (invalid_proof expected_root computed_root)

  -- `path[level] = Some(node)`
  abbrev pub set_path : List (Option Hash) → ℕ → Hash → TreeResult h (List (Option Hash))
  set_path path level node =
      if ltb level (length path) then ok (set path level (some node)) else panic

  -- the loop of `update_leaf_in_tree`, over the proof from `level` on
  unfoldable pub record_path :
      List Hash → ℕ → ℕ → List (Option Hash) → Hash → TreeResult h (List (Option Hash) × Hash)
  record_path [] leaf_index level path current_node = ok (path, current_node)
  record_path (sibling ∷ proof) leaf_index level path current_node = do
    path' ← set_path path level current_node
    parent ← compute_parent_node h current_node sibling leaf_index level
    record_path proof leaf_index (level + 1) path' parent

  -- The part that keeps `filled_subtrees` and the rightmost leaf, while the tree is not full.
  unfoldable pub refill :
      ConcurrentMerkleTree Hash
      → ChangelogEntry Hash
      → Hash
      → ℕ
      → TreeResult h (ConcurrentMerkleTree Hash)
  refill t entry new_leaf leaf_index = do
    leaves ← one_shl t.height
    if ltb t.next_index leaves
        then (do
          filled ← update_proof h height_const entry t.next_index t.filled_subtrees
          ok (record t {
            filled_subtrees = filled;
            rightmost_leaf =
                if leb (current_index h height_const t) leaf_index
                then new_leaf
                else t.rightmost_leaf;
          }))
        else ok t

  unfoldable pub update_leaf_in_tree :
      ConcurrentMerkleTree Hash
      → Hash
      → ℕ
      → BoundedVec Hash
      → TreeResult h (ConcurrentMerkleTree Hash × ℕ × ℕ)
  unfolding default_with_index inc_sequence_number
  update_leaf_in_tree t new_leaf leaf_index proof = do
    let entry = default_with_index h height_const leaf_index
    (path, current_node) ← record_path (as_slice proof) leaf_index 0 entry.path new_leaf
    let entry' : ChangelogEntry Hash = record entry { path = path }
    t1 ← inc_sequence_number h height_const t
    roots ← Cyclic.push t1.roots current_node
    t2 ← refill (record t1 { roots = roots }) entry' new_leaf leaf_index
    changelog ← Cyclic.push t2.changelog entry'
    let t3 : ConcurrentMerkleTree Hash = record t2 { changelog = changelog }
    t4 ← (if ltb 0 t3.canopy_depth then update_canopy h t3 t3.changelog.last_index 1 else ok t3)
    ok (t4, t4.changelog.last_index, t4.sequence_number)

  -- The proof is patched in place, so it is returned too.
  unfoldable pub update :
      ConcurrentMerkleTree Hash
      → ℕ
      → Hash
      → Hash
      → ℕ
      → BoundedVec Hash
      → TreeResult h (ConcurrentMerkleTree Hash × BoundedVec Hash × ℕ × ℕ)
  update t changelog_i old_leaf new_leaf leaf_index proof = do
    expected_proof_len ← sub t.height t.canopy_depth
    guard (proof.len == expected_proof_len) (invalid_proof_length expected_proof_len proof.len)
    guard (ltb leaf_index t.next_index) cannot_update_empty
    proof1 ←
        (if ltb 0 t.canopy_depth then update_proof_from_canopy h t leaf_index proof else ok proof)
    proof2 ←
        (if changelog_i == changelog_index h height_const t
          then ok proof1
          else update_proof_from_changelog t changelog_i leaf_index proof1)
    validate_proof t old_leaf leaf_index proof2
    (t', i, s) ← update_leaf_in_tree t new_leaf leaf_index proof2
    ok (t', proof2, i, s)
