-- ===== src/Concurrent/Tree/Append/Leaf.antt =====
-- One round of the loop over the leaves of a batch.
use light_protocol.Prelude.{
  ℕ, zero, suc, ◌+◌, ◌/◌, ◌^◌, ◌≤◌, ◌<◌, ◌≡◌, refl, sym, ap, ap₂, subst, ◌∙◌, arith, Bool, true,
  false, ok, List, [], ◌∷◌, map, Option, none, some, length, get_elem?, get_elem?-set_self,
  length-set, length-replicate, replicate, set, ltb, if◌then◌else◌, lt→ltb,
}
use native.Mathlib.Nat.{add-zero}
use light_protocol.Prelude.Words.{shr, word}
use light_protocol.Prelude.Arith.{shr-zero, shr-suc, shr-eq-zero}
use light_protocol.Hasher.{Hasher, IsLawful, max_height}
use light_protocol.BoundedVec.Plain.{as_slice}
use light_protocol.BoundedVec.Plain.Refine
use light_protocol.BoundedVec.Cyclic.{CyclicBoundedVec}
use light_protocol.BoundedVec.Cyclic.Refine.{pushed, push-eq-pushed, pushed-IsValid}
use light_protocol.BoundedVec.Cyclic
use light_protocol.BoundedVec.Cyclic.Last.{index_mut-pushed}
use light_protocol.Concurrent.Path.{TreeError}
use light_protocol.Concurrent.Leaves.{
  node, nodes, update, IsEmptyFrom, update-IsEmptyFrom, path_of, root_of,
}
use light_protocol.Concurrent.Tree.{ConcurrentMerkleTree, inc_next_index, inc_sequence_number}
use light_protocol.Concurrent.Tree.Append.{Climb, climb_levels, append_leaf}
use light_protocol.Concurrent.Tree.Append.Levels.{IsFilled, IsAt}
use light_protocol.Concurrent.Tree.Append.Loop.{
  climb_terminal, climb_partial, IsKept, IsKept-of_done, IsKept-IsFilled,
}

module _ (h : Hasher) (lawful : IsLawful h) (height : ℕ) where
  open h use {Hash, zero_hash}

  -- The tree holds the leaves `f`, of which there are `next_index`; its vectors are well formed.
  pub record Holds (t : ConcurrentMerkleTree Hash) (f : ℕ → Hash) : Type 0 where
    pub same_height : t.height ≡ height
    pub empty : IsEmptyFrom h lawful f t.next_index
    pub filled : IsFilled h lawful height f t.next_index height (as_slice t.filled_subtrees)
    pub filled_valid : Refine.IsValid t.filled_subtrees
    pub filled_size : t.filled_subtrees.len ≡ height
    pub changelog_valid : Cyclic.Refine.IsValid t.changelog
    pub roots_valid : Cyclic.Refine.IsValid t.roots

  -- the loop's state before level 0
  abbrev start : ConcurrentMerkleTree Hash → Hash → Climb Hash
  start t leaf = record {
    filled = t.filled_subtrees;
    path = set (replicate height none) 0 (some leaf);
    current_index = t.next_index;
    current_node = leaf;
    proof = none;
  }

  start-IsAt :
      (t : ConcurrentMerkleTree Hash) (f : ℕ → Hash) (leaf : Hash)
      → Holds t f
      → IsAt h lawful height
          (update h lawful f t.next_index leaf)
          t.next_index
          height
          (as_slice t.filled_subtrees)
          0
          (start t leaf)
  start-IsAt t f leaf v = record {
    at_index = sym (shr-zero t.next_index);
    at_node = leaf_node;
    no_proof = refl;
    valid = v.filled_valid;
    size = v.filled_size;
    path_size = length-set (replicate height none) 0 (some leaf) ∙ length-replicate height none;
    kept = λ l lt odd. refl;
    stored = λ l lt even carried. absurd (omega arith);
    path_at = λ l le lt. first l le lt;
  }
    where
      leaf_node : leaf ≡ update h lawful f t.next_index leaf (shr t.next_index 0)
      leaf_node = ground (arith, shr-zero t.next_index)

      first :
          (l : ℕ)
          → l ≤ 0
          → l < height
          → get_elem? (set (replicate height none) 0 (some leaf)) l
            ≡ some
                (some (node h lawful (update h lawful f t.next_index leaf) l (shr t.next_index l)))
      first zero le lt =
          get_elem?-set_self (replicate height none) 0 (some leaf) (rw length-replicate lt)
          ∙ ap (λ x. some (some x)) leaf_node
      first (suc l) le lt = absurd (omega arith)

  -- the tree after a round in which the loop over the levels ends in `s`
  abbrev pub appended :
      ConcurrentMerkleTree Hash → Climb Hash → Hash → Hash → ConcurrentMerkleTree Hash
  appended t s leaf root = record t {
    next_index = t.next_index + 1;
    sequence_number = t.sequence_number + 1;
    rightmost_leaf = leaf;
    filled_subtrees = s.filled;
    changelog = pushed t.changelog (record { path = s.path; index = t.next_index });
    roots = pushed t.roots root;
  }

  append_leaf-eq :
      (t : ConcurrentMerkleTree Hash) (f : ℕ → Hash) (terminal : Bool) (leaf : Hash)
      (s : Climb Hash)
      → Holds t f
      → 0 < height
      → t.next_index + 1 < word
      → t.sequence_number + 1 < word
      → climb_levels h height t.height terminal t.height 0 (start t leaf) ≡ ok s
      → s.proof ≡ none
      → append_leaf h height t terminal leaf none
        ≡ ok (appended t s leaf (if terminal then s.current_node else zero_hash), none)
  unfolding append_leaf
  append_leaf-eq t f terminal leaf s v pos next_fits seq_fits climb no_proof =
      let some_level : ltb 0 (length (replicate {A = Option Hash} height none)) ≡ true =
        lt→ltb _ _ (rw (length-replicate {A = Option Hash} height none) pos) in
      rw (
        push-eq-pushed {E = TreeError h} t.changelog
            (record { path = replicate height none; index = t.next_index }) v.changelog_valid,
        some_level,
        climb,
        index_mut-pushed {E = TreeError h} t.changelog
            (record { path = replicate height none; index = t.next_index })
            (record { path = s.path; index = t.next_index }) v.changelog_valid,
        push-eq-pushed {E = TreeError h} t.roots (if terminal then s.current_node else zero_hash)
            v.roots_valid,
        inc_next_index,
        lt→ltb (t.next_index + 1) word next_fits,
        inc_sequence_number,
        lt→ltb (t.sequence_number + 1) word seq_fits,
        no_proof,
      )

  -- the tree holds the leaves before the round and one more after it
  appended-Holds :
      (t : ConcurrentMerkleTree Hash) (f : ℕ → Hash) (leaf root : Hash) (s : Climb Hash)
      → Holds t f
      → IsKept h lawful height f t.next_index height leaf (as_slice t.filled_subtrees) s
      → Holds (appended t s leaf root) (update h lawful f t.next_index leaf)
  appended-Holds t f leaf root s v k = record {
    same_height = v.same_height;
    empty = update-IsEmptyFrom h lawful f t.next_index leaf v.empty;
    filled =
        IsKept-IsFilled h lawful height f t.next_index height leaf (as_slice t.filled_subtrees) s
          v.filled k;
    filled_valid = k.valid;
    filled_size = k.size;
    changelog_valid = pushed-IsValid t.changelog _ v.changelog_valid;
    roots_valid = pushed-IsValid t.roots root v.roots_valid;
  }

  pub path_ext :
      (f : ℕ → Hash) (n l k m : ℕ) (path : List (Option Hash))
      → k ≡ shr n l
      → length path ≡ m
      → ((i : ℕ) → i < m → get_elem? path i ≡ some (some (node h lawful f (l + i) (shr n (l + i)))))
      → path ≡ map some (nodes h lawful f l k m)
  path_ext f n l k zero [] e size at = refl
  path_ext f n l k zero (p ∷ path) e size at = absurd (omega arith)
  path_ext f n l k (suc m) [] e size at = absurd (omega arith)
  path_ext f n l k (suc m) (p ∷ path) e size at =
      ap₂ ◌∷◌
        (first
          ∙ ap (λ j. some (node h lawful f j (shr n j))) (add-zero l)
          ∙ ap (λ j. some (node h lawful f l j)) (sym e))
        (path_ext f n (suc l) (k / 2) m path (ap (λ j. j / 2) e ∙ sym (shr-suc n l)) (omega arith)
          (λ i lt.
            at (suc i) (omega arith)
            ∙ ap (λ j. some (some (node h lawful f j (shr n j)))) (omega arith)))
    where
      first : p ≡ some (node h lawful f (l + 0) (shr n (l + 0)))
      first = cc (at 0 (omega arith))

  -- The last leaf of a batch: the pushed root and the changelog entry's path are those of the
  -- tree with the leaf.
  pub append_leaf_terminal :
      (t : ConcurrentMerkleTree Hash) (f : ℕ → Hash) (leaf : Hash)
      → Holds t f
      → 0 < height
      → height ≤ max_height
      → t.next_index < 2 ^ height
      → t.next_index + 1 < word
      → t.sequence_number + 1 < word
      → (s : Climb Hash) × (append_leaf h height t true leaf none
          ≡ ok (
            appended t s leaf (root_of h lawful (update h lawful f t.next_index leaf) height),
            none,
          ))
        × Holds
            (appended t s leaf (root_of h lawful (update h lawful f t.next_index leaf) height))
            (update h lawful f t.next_index leaf)
        × (s.path
            ≡ map some (path_of h lawful (update h lawful f t.next_index leaf) t.next_index height))
  append_leaf_terminal t f leaf v pos small room next_fits seq_fits =
      let f' = update h lawful f t.next_index leaf in
      let old = as_slice t.filled_subtrees in
      let (s, p, at) =
        climb_terminal h lawful height f t.next_index height leaf old height 0 (start t leaf)
          (omega arith) small v.empty v.filled (start-IsAt t f leaf v) in
      let top : s.current_node ≡ root_of h lawful f' height =
        at.at_node ∙ ap (node h lawful f' height) (shr-eq-zero t.next_index height room) in
      let run =
        subst (λ k. climb_levels h height k true k 0 (start t leaf) ≡ ok s) (sym v.same_height) p in
      (
        s,
        append_leaf-eq t f true leaf s v pos next_fits seq_fits run at.no_proof
            ∙ ap (λ r. ok (appended t s leaf r, none)) top,
        appended-Holds t f leaf _ s v
            (IsKept-of_done h lawful height f t.next_index height leaf old s at),
        path_ext f' t.next_index 0 t.next_index height s.path (sym (shr-zero t.next_index))
            at.path_size
            (λ i lt.
              at.path_at i (omega arith) lt
              ∙ ap (λ j. some (some (node h lawful f' j (shr t.next_index j)))) (omega arith)),
      )

  -- Any other leaf of a batch: a zero root is pushed.
  pub append_leaf_partial :
      (t : ConcurrentMerkleTree Hash) (f : ℕ → Hash) (leaf : Hash)
      → Holds t f
      → 0 < height
      → height ≤ max_height
      → t.next_index + 1 < word
      → t.sequence_number + 1 < word
      → (s : Climb Hash) × (append_leaf h height t false leaf none
          ≡ ok (appended t s leaf zero_hash, none))
        × Holds (appended t s leaf zero_hash) (update h lawful f t.next_index leaf)
  append_leaf_partial t f leaf v pos small next_fits seq_fits =
      let old = as_slice t.filled_subtrees in
      let (s, p, k) =
        climb_partial h lawful height f t.next_index height leaf old height 0 (start t leaf)
          (omega arith) small v.empty v.filled refl (start-IsAt t f leaf v) in
      let run =
        subst (λ k. climb_levels h height k false k 0 (start t leaf) ≡ ok s) (sym v.same_height)
          p in
      (
        s,
        append_leaf-eq t f false leaf s v pos next_fits seq_fits run k.no_proof,
        appended-Holds t f leaf zero_hash s v k,
      )
