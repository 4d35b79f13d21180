-- ===== src/Concurrent/Tests/Trees.antt =====
-- A tree of height 2 before and after two leaves are appended.
use light_protocol.Prelude.{
  ℕ, zero, suc, ◌-◌, ◌^◌, ◌/◌, ◌%◌, ◌<◌, ◌≡◌, ◌≢◌, refl, arith, List, [], ◌∷◌, some, none, inl, map,
  get_elem?,
}
use native.Mathlib.Nat.{zero-div}
use light_protocol.Prelude.Words.{shr}
use light_protocol.BoundedVec.Plain.{BoundedVec, as_slice}
use light_protocol.BoundedVec.Plain.Refine
use light_protocol.Concurrent.Changelog.{ChangelogEntry}
use light_protocol.Concurrent.Leaves.{node, update, update-IsEmptyFrom, path_of, root_of}
use light_protocol.Concurrent.Tree.{ConcurrentMerkleTree}
use light_protocol.Concurrent.Tree.Append.Leaf.{Holds}
use light_protocol.Concurrent.Tests.Digests.{
  Digest, leaf, pair, empty_root, free_hasher, free_lawful,
}

abbrev pub vec : List Digest → BoundedVec Digest
vec xs = record { capacity = 2; len = 2; buffer = map some xs }

abbrev pub no_leaves : ℕ → Digest
no_leaves i = leaf 0

abbrev pub one_leaf : ℕ → Digest
one_leaf = update free_hasher free_lawful no_leaves 0 (leaf 1)

abbrev pub two_leaves : ℕ → Digest
two_leaves = update free_hasher free_lawful one_leaf 1 (leaf 2)

abbrev pub entry_of : (ℕ → Digest) → ℕ → ChangelogEntry Digest
entry_of f i = record { path = map some (path_of free_hasher free_lawful f i 2); index = i }

abbrev pub empty_tree : ConcurrentMerkleTree Digest
empty_tree = record {
  height = 2;
  canopy_depth = 0;
  next_index = 0;
  sequence_number = 0;
  rightmost_leaf = leaf 0;
  filled_subtrees = vec (empty_root 0 ∷ empty_root 1 ∷ []);
  changelog = record {
    capacity = 4;
    len = 1;
    first_index = 0;
    last_index = 0;
    buffer = some (entry_of no_leaves 0) ∷ none ∷ none ∷ none ∷ [];
  };
  roots = record {
    capacity = 4;
    len = 1;
    first_index = 0;
    last_index = 0;
    buffer = some (empty_root 2) ∷ none ∷ none ∷ none ∷ [];
  };
  canopy = record { capacity = 0; len = 0; buffer = [] };
}

abbrev pub full_tree : ConcurrentMerkleTree Digest
full_tree = record empty_tree {
  next_index = 2;
  sequence_number = 2;
  rightmost_leaf = leaf 2;
  filled_subtrees = vec (leaf 1 ∷ pair (leaf 1) (leaf 2) ∷ []);
  changelog = record {
    capacity = 4;
    len = 3;
    first_index = 0;
    last_index = 2;
    buffer =
        some (entry_of no_leaves 0)
        ∷ some (entry_of one_leaf 0)
        ∷ some (entry_of two_leaves 1)
        ∷ none
        ∷ [];
  };
  roots = record {
    capacity = 4;
    len = 3;
    first_index = 0;
    last_index = 2;
    buffer =
        some (empty_root 2)
        ∷ some (root_of free_hasher free_lawful one_leaf 2)
        ∷ some (root_of free_hasher free_lawful two_leaves 2)
        ∷ none
        ∷ [];
  };
}

pub vec-IsValid : (a b : Digest) → Refine.IsValid (vec (a ∷ b ∷ []))
vec-IsValid a b = record { storage = refl; within = omega arith; written = tt }

pub empty_tree-Holds : Holds free_hasher free_lawful 2 empty_tree no_leaves
unfolding as_slice
empty_tree-Holds = record {
  same_height = refl;
  empty = λ i le. refl;
  filled = λ l lt odd. absurd (nothing l odd);
  filled_valid = vec-IsValid (empty_root 0) (empty_root 1);
  filled_size = refl;
  changelog_valid = record {
    storage = refl;
    positive = omega arith;
    within = omega arith;
    written = tt;
    shape = inl (omega arith, refl, refl);
  };
  roots_valid = record {
    storage = refl;
    positive = omega arith;
    within = omega arith;
    written = tt;
    shape = inl (omega arith, refl, refl);
  };
}
  where
    nothing : (l : ℕ) → 0 / 2 ^ l % 2 ≢ 1
    nothing l odd = absurd (omega (arith, odd, zero-div (2 ^ l)))

pub full_tree-Holds : Holds free_hasher free_lawful 2 full_tree two_leaves
unfolding as_slice
full_tree-Holds = record {
  same_height = refl;
  empty =
      update-IsEmptyFrom free_hasher free_lawful one_leaf 1 (leaf 2)
        (update-IsEmptyFrom free_hasher free_lawful no_leaves 0 (leaf 1) (λ i le. refl));
  filled = slots;
  filled_valid = vec-IsValid (leaf 1) (pair (leaf 1) (leaf 2));
  filled_size = refl;
  changelog_valid = record {
    storage = refl;
    positive = omega arith;
    within = omega arith;
    written = tt;
    shape = inl (omega arith, refl, refl);
  };
  roots_valid = record {
    storage = refl;
    positive = omega arith;
    within = omega arith;
    written = tt;
    shape = inl (omega arith, refl, refl);
  };
}
  where
    slots :
        (l : ℕ)
        → l < 2
        → shr 2 l % 2 ≡ 1
        → get_elem? (leaf 1 ∷ pair (leaf 1) (leaf 2) ∷ []) l
          ≡ some (node free_hasher free_lawful two_leaves l (shr 2 l - 1))
    slots zero lt odd = absurd (omega arith)
    slots (suc zero) lt odd = refl
    slots (suc (suc l)) lt odd = absurd (omega arith)
