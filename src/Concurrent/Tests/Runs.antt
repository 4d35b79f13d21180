-- ===== src/Concurrent/Tests/Runs.antt =====
-- The theorems on the concurrent Merkle tree at a tree of height 2.
use light_protocol.Prelude.{◌≡◌, ◌⊎◌, refl, arith, [], ◌∷◌, ok, err}
use light_protocol.BoundedVec.Plain.{BoundedVec, as_slice}
use light_protocol.BoundedVec.Plain.Refine
use light_protocol.BoundedVec.Cyclic
use light_protocol.Prelude.{◌>>=◌, ◌≢◌, ℕ}
use light_protocol.Concurrent.Error.{invalid_proof}
use light_protocol.Concurrent.Tree.{changelog_index}
use light_protocol.Concurrent.Tree.Update.Refused.{update_refused}
use light_protocol.Concurrent.Tree.{new, init}
use light_protocol.Concurrent.Tree.Init.{init-Holds}
use light_protocol.Concurrent.Tree.Append.Leaf.{Holds}
use light_protocol.Concurrent.Error.{tree_full, cannot_update_leaf}
use light_protocol.Concurrent.Path.{TreeError, compute_root}
use light_protocol.Concurrent.Path.Correct.{compute_root_lem}
use light_protocol.Concurrent.Changelog.{update_proof, intersection_index}
use light_protocol.Concurrent.Changelog.Critbit.{critbit, intersection_index_lem}
use light_protocol.Concurrent.Changelog.Patch.{update_proof_lem}
use light_protocol.Concurrent.Leaves.{update, proof_of, root_of}
use light_protocol.Concurrent.Tree.{ConcurrentMerkleTree, root}
use light_protocol.Concurrent.Tree.Append.{append_batch}
use light_protocol.Concurrent.Tree.Append.Room.{HasRoom, append_batch-HasRoom}
use light_protocol.Concurrent.Tree.Append.Batch.{Appends, append_batch-Appends, append_batch-full}
use light_protocol.Concurrent.Tree.Update
use light_protocol.Concurrent.Tree.Update.{patch_all, validate_proof}
use light_protocol.Concurrent.Tree.Update.Correct.{Updates}
use light_protocol.Concurrent.Tree.Update.Validate.{
  IsInjective, validate_proof_sound, validate_proof_complete,
}
use light_protocol.Concurrent.Tree.Update.History.{
  Changes, unchanged, changed, patch_all-same, update-Updates,
}
use light_protocol.Concurrent.Tests.Digests.{Digest, leaf, empty_root, free_hasher, free_lawful}
use light_protocol.Concurrent.Tests.Trees.{
  vec, no_leaves, one_leaf, two_leaves, entry_of, empty_tree, full_tree, vec-IsValid,
  empty_tree-Holds, full_tree-Holds,
}

-- the proof of leaf 0 before and after leaf 1 is appended
abbrev old_proof : BoundedVec Digest
old_proof = vec (leaf 0 ∷ empty_root 1 ∷ [])

abbrev new_proof : BoundedVec Digest
new_proof = vec (leaf 2 ∷ empty_root 1 ∷ [])

full_tree-root : root free_hasher 2 full_tree ≡ ok (root_of free_hasher free_lawful two_leaves 2)
unfolding root Cyclic.index
full_tree-root = refl

appended_later :
    Changes free_hasher free_lawful 2 0 one_leaf (entry_of two_leaves 1 ∷ []) two_leaves
appended_later =
    changed one_leaf two_leaves (leaf 2) (entry_of two_leaves 1) [] (omega arith) (omega arith) refl
      (unchanged two_leaves)

old_proof_right : as_slice old_proof ≡ proof_of free_hasher free_lawful one_leaf 0 2
unfolding as_slice
old_proof_right = refl

new_proof_right : as_slice new_proof ≡ proof_of free_hasher free_lawful two_leaves 0 2
unfolding as_slice
new_proof_right = refl

append_batch-Appends_example :
    (t' : ConcurrentMerkleTree Digest) × (append_batch free_hasher 2 empty_tree
        (leaf 1 ∷ leaf 2 ∷ [])
      ≡ ok (t', 1, 1))
    × Appends free_hasher free_lawful 2 empty_tree no_leaves (leaf 1 ∷ leaf 2 ∷ []) t'
append_batch-Appends_example =
    append_batch-Appends free_hasher free_lawful 2 (leaf 1) (leaf 2 ∷ []) empty_tree no_leaves
      empty_tree-Holds (omega arith) (omega arith) (omega arith) (omega arith) (omega arith)
      (omega arith) refl

append_batch-full_example :
    append_batch free_hasher 2 full_tree (leaf 3 ∷ leaf 4 ∷ leaf 5 ∷ []) ≡ err tree_full
append_batch-full_example =
    append_batch-full free_hasher free_lawful 2 full_tree (leaf 3 ∷ leaf 4 ∷ leaf 5 ∷ []) refl
      (omega arith) (omega arith) (omega arith) (omega arith)

append_batch-HasRoom_example :
    (HasRoom free_hasher free_lawful 2 empty_tree (leaf 1 ∷ leaf 2 ∷ [])
      × ((t' : ConcurrentMerkleTree Digest) × (append_batch free_hasher 2 empty_tree
              (leaf 1 ∷ leaf 2 ∷ [])
            ≡ ok (t', 1, 1))
          × Appends free_hasher free_lawful 2 empty_tree no_leaves (leaf 1 ∷ leaf 2 ∷ []) t'))
    ⊎ ((¬ HasRoom free_hasher free_lawful 2 empty_tree (leaf 1 ∷ leaf 2 ∷ []))
        × ((e : TreeError free_hasher) × (append_batch free_hasher 2 empty_tree
                (leaf 1 ∷ leaf 2 ∷ [])
              ≡ err e)))
append_batch-HasRoom_example =
    append_batch-HasRoom free_hasher free_lawful 2 (leaf 1 ∷ leaf 2 ∷ []) empty_tree no_leaves
      empty_tree-Holds (omega arith) (omega arith) (omega arith) (omega arith) (omega arith)
      (omega arith) refl

update-Updates_example :
    (t' : ConcurrentMerkleTree Digest) × (proof' : BoundedVec Digest) × (Update.update free_hasher 2
        full_tree 1
        (leaf 1)
        (leaf 7)
        0
        old_proof
      ≡ ok (t', proof', t'.changelog.last_index, t'.sequence_number))
    × Updates free_hasher free_lawful 2 full_tree two_leaves 0 (leaf 7) t'
update-Updates_example =
    update-Updates free_hasher free_lawful 2 full_tree one_leaf two_leaves 0 1 (leaf 7) old_proof
      full_tree-Holds full_tree-root (omega arith) (omega arith) (omega arith) (omega arith)
      (omega arith) refl (omega arith) appended_later (vec-IsValid (leaf 0) (empty_root 1))
      old_proof_right

pairs-IsInjective : IsInjective free_hasher free_lawful
pairs-IsInjective a b c d e = (cc e, cc e)

accepted : validate_proof free_hasher 2 full_tree (leaf 1) 0 new_proof ≡ ok tt
accepted =
    validate_proof_complete free_hasher free_lawful 2 full_tree two_leaves 0 new_proof
      full_tree-root (omega arith) (omega arith) new_proof_right

validate_proof_sound_example :
    (leaf 1 ≡ two_leaves 0) × (as_slice new_proof ≡ proof_of free_hasher free_lawful two_leaves 0 2)
unfolding as_slice
validate_proof_sound_example =
    validate_proof_sound free_hasher free_lawful 2 full_tree two_leaves 0 (leaf 1) new_proof
      pairs-IsInjective full_tree-root (omega arith) refl accepted

update_proof_lem_example :
    (proof' : BoundedVec Digest) × (update_proof free_hasher 2 (entry_of two_leaves 1) 0 old_proof
      ≡ ok proof')
    × Refine.IsValid proof'
    × (as_slice proof' ≡ proof_of free_hasher free_lawful two_leaves 0 2)
update_proof_lem_example =
    update_proof_lem free_hasher free_lawful one_leaf 2 0 (leaf 2) (entry_of two_leaves 1) old_proof
      (omega arith) (omega arith) (omega arith) (omega arith) refl
      (vec-IsValid (leaf 0) (empty_root 1)) old_proof_right

patch_all-same_example :
    patch_all free_hasher 2 (entry_of two_leaves 1 ∷ entry_of two_leaves 0 ∷ []) 0 old_proof
    ≡ err cannot_update_leaf
patch_all-same_example =
    patch_all-same free_hasher free_lawful 2 0 one_leaf two_leaves (entry_of two_leaves 1 ∷ []) []
      (entry_of two_leaves 0) old_proof appended_later refl (omega arith) (omega arith)
      (vec-IsValid (leaf 0) (empty_root 1)) old_proof_right

compute_root_lem_example :
    compute_root free_hasher (leaf 7) 0 new_proof
    ≡ ok (root_of free_hasher free_lawful (update free_hasher free_lawful two_leaves 0 (leaf 7)) 2)
compute_root_lem_example =
    compute_root_lem free_hasher free_lawful two_leaves 0 2 (leaf 7) new_proof (omega arith)
      (omega arith) new_proof_right

intersection_index_lem_example :
    intersection_index free_hasher 2 (entry_of two_leaves 1) 3 ≡ ok (critbit 2 3 1)
intersection_index_lem_example =
    intersection_index_lem free_hasher 2 3 (entry_of two_leaves 1) (omega arith) (omega arith)
      (omega arith) (omega arith)

init-Holds_example :
    (t : ConcurrentMerkleTree Digest) × ((new free_hasher 2 2 4 4 0 >>= init free_hasher 2) ≡ ok t)
    × Holds free_hasher free_lawful 2 t no_leaves
    × (root free_hasher 2 t ≡ ok (root_of free_hasher free_lawful no_leaves 2))
    × (t.next_index ≡ 0)
    × (t.sequence_number ≡ 0)
    × (t.canopy_depth ≡ 0)
init-Holds_example =
    init-Holds free_hasher free_lawful 2 4 4 (omega arith) (omega arith) (omega arith) (omega arith)

not_leaf_9 : leaf 9 ≢ two_leaves 0
not_leaf_9 e = nine_ne 9 1 refl refl (cc e)
  where
    nine_ne : (m n : ℕ) → m ≡ 9 → n ≡ 1 → m ≢ n
    nine_ne m n p q r = absurd (omega arith)

update_refused_example :
    (c : Digest) × (Update.update free_hasher 2 full_tree 2 (leaf 9) (leaf 7) 0 new_proof
      ≡ err (invalid_proof (root_of free_hasher free_lawful two_leaves 2) c))
unfolding changelog_index
update_refused_example =
    update_refused free_hasher free_lawful 2 0 full_tree two_leaves (leaf 9) (leaf 7) new_proof
      pairs-IsInjective full_tree-root refl refl (omega arith) (omega arith) (omega arith)
      (vec-IsValid (leaf 2) (empty_root 1)) refl not_leaf_9
