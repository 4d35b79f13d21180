-- ===== src/Concurrent/Tree/Append/Batch.antt =====
-- Appending a batch of leaves, against the abstract tree.
use light_protocol.Prelude.{
  ℕ, suc, ◌+◌, ◌-◌, ◌^◌, ◌%◌, ◌≤◌, ◌<◌, ◌≡◌, refl, sym, subst, ◌∙◌, arith, false, ok, err, List, [],
  ◌∷◌, none, length, ltb, ◌==◌, lt→ltb, le→leb,
}
use native.Mathlib.Nat.{pow-le-pow_right}
use light_protocol.Prelude.Words.{word}
use light_protocol.Hasher.{Hasher, IsLawful, max_height}
use light_protocol.BoundedVec.Cyclic.Last.{index-pushed}
use light_protocol.Concurrent.Path.{TreeError}
use light_protocol.Concurrent.Error.{tree_full}
use light_protocol.Concurrent.Leaves.{update, root_of}
use light_protocol.Concurrent.Tree.{ConcurrentMerkleTree, root}
use light_protocol.Concurrent.Tree.Append.{append_leaves, append_batch}
use light_protocol.Concurrent.Tree.Append.Leaf.{
  Holds, appended, append_leaf_terminal, append_leaf_partial,
}

pub places-lt-word : (height : ℕ) → height ≤ max_height → 2 ^ height < word
places-lt-word height small =
    let le : 2 ^ height ≤ 4294967296 = pow-le-pow_right {n = 2} (omega arith) small in omega arith

suc_ne : (n : ℕ) → (suc n == 0) ≡ false
suc_ne n = ground arith

pub lt→suc : (n : ℕ) → 0 < n → (n == 0) ≡ false
lt→suc n pos = ground arith

pub le→ltb_false : (a b : ℕ) → b ≤ a → ltb a b ≡ false
le→ltb_false a b le = ground arith

module _ (h : Hasher) (lawful : IsLawful h) (height : ℕ) where
  open h use {Hash}

  -- the leaves placed side by side from position `n` on
  abbrev pub place : (ℕ → Hash) → ℕ → List Hash → ℕ → Hash
  place f n [] = f
  place f n (leaf ∷ leaves) = place (update h lawful f n leaf) (n + 1) leaves

  -- `t'` is `t` with the leaves appended, and its current root is the root of the tree of all
  -- leaves.
  pub record Appends (t : ConcurrentMerkleTree Hash) (f : ℕ → Hash) (leaves : List Hash)
      (t' : ConcurrentMerkleTree Hash) : Type 0 where
    pub holds : Holds h lawful height t' (place f t.next_index leaves)
    pub count : t'.next_index ≡ t.next_index + length leaves
    pub sequence : t'.sequence_number ≡ t.sequence_number + length leaves
    pub current_root : root h height t' ≡ ok (root_of h lawful (place f t.next_index leaves) height)
    pub same_depth : t'.canopy_depth ≡ t.canopy_depth
    pub same_canopy : t'.canopy ≡ t.canopy

  append_leaves_lem :
      (leaf : Hash) (leaves : List Hash) (t : ConcurrentMerkleTree Hash) (f : ℕ → Hash)
      → Holds h lawful height t f
      → 0 < height
      → height ≤ max_height
      → t.next_index + suc (length leaves) ≤ 2 ^ height
      → t.sequence_number + suc (length leaves) < word
      → (t' : ConcurrentMerkleTree Hash) × (append_leaves h height t (leaf ∷ leaves) none
          ≡ ok (t', []))
        × Appends t f (leaf ∷ leaves) t'
  unfolding append_leaves
  append_leaves_lem leaf [] t f v pos small room seq =
      let fits = places-lt-word height small in
      let (s, p, holds, path) =
        append_leaf_terminal h lawful height t f leaf v pos small (omega arith) (omega arith)
          (omega arith) in
      (
        appended h lawful height t s leaf
            (root_of h lawful (update h lawful f t.next_index leaf) height),
        rw p,
        record {
          holds = holds;
          count = refl;
          sequence = refl;
          current_root = unfold root in index-pushed {E = TreeError h} t.roots _ v.roots_valid;
          same_depth = refl;
          same_canopy = refl;
        },
      )
  append_leaves_lem leaf (next ∷ leaves) t f v pos small room seq =
      let fits = places-lt-word height small in
      let (s, p, holds) =
        append_leaf_partial h lawful height t f leaf v pos small (omega arith) (omega arith) in
      let (t', q, a) =
        append_leaves_lem next leaves (appended h lawful height t s leaf h.zero_hash)
          (update h lawful f t.next_index leaf) holds pos small (omega arith) (omega arith) in
      (
        t',
        rw (suc_ne (length leaves), p) (rw (append_leaves, q)),
        record {
          holds = a.holds;
          count = omega (arith, a.count);
          sequence = omega (arith, a.sequence);
          current_root = a.current_root;
          same_depth = a.same_depth;
          same_canopy = a.same_canopy;
        },
      )

  -- Let a tree hold the leaves `f` up to `next_index`, with a height from 1 to 32, no canopy,
  -- and indices and sequence numbers that do not overflow. Appending a batch of at least one
  -- leaf that fits in the tree and in the changelog returns `Ok` with the index of the first
  -- changelog entry and the first sequence number. The new tree holds the old leaves and
  -- those of the batch, its well-formedness is kept, and its current root is the root of the
  -- Merkle tree of all these leaves.
  pub append_batch-Appends :
      (leaf : Hash) (leaves : List Hash) (t : ConcurrentMerkleTree Hash) (f : ℕ → Hash)
      → Holds h lawful height t f
      → 0 < height
      → height ≤ max_height
      → t.next_index + suc (length leaves) ≤ 2 ^ height
      → t.sequence_number + suc (length leaves) < word
      → suc (length leaves) ≤ t.changelog.capacity
      → t.changelog.last_index + 1 < word
      → t.canopy_depth ≡ 0
      → (t' : ConcurrentMerkleTree Hash) × (append_batch h height t (leaf ∷ leaves)
          ≡ ok (t', (t.changelog.last_index + 1) % t.changelog.capacity, t.sequence_number + 1))
        × Appends t f (leaf ∷ leaves) t'
  unfolding append_batch
  append_batch-Appends leaf leaves t f v pos small room seq fits last no_canopy =
      let le = places-lt-word height small in
      let (t', p, a) = append_leaves_lem leaf leaves t f v pos small room seq in
      let pos_capacity : 0 < t.changelog.capacity = omega arith in
      (
        t',
        rw
            (
              suc_ne (length leaves),
              lt→ltb (t.next_index + suc (length leaves)) word (omega arith),
              le→leb 1 (t.next_index + suc (length leaves)) (omega arith),
              lt→ltb t.height 64 (omega (arith, v.same_height)),
              lt→ltb (t.next_index + suc (length leaves) - 1) (2 ^ t.height) (
                  subst (λ k. t.next_index + suc (length leaves) - 1 < 2 ^ k) (sym v.same_height)
                    (omega arith)),
              le→leb (suc (length leaves)) t.changelog.capacity fits,
              lt→ltb 0 t.changelog.capacity pos_capacity,
              lt→ltb (t.sequence_number + 1) word (omega arith),
              p,
              a.same_depth ∙ no_canopy,
            )
            refl,
        a,
      )

  -- A batch with more leaves than a tree of height at most 32 has places left is refused with
  -- `TreeFull`, where the index after the last leaf is below 2 ^ 64.
  pub append_batch-full :
      (t : ConcurrentMerkleTree Hash) (leaves : List Hash)
      → t.height ≡ height
      → height ≤ max_height
      → t.next_index ≤ 2 ^ height
      → t.next_index + length leaves < word
      → 2 ^ height < t.next_index + length leaves
      → append_batch h height t leaves ≡ err tree_full
  unfolding append_batch
  append_batch-full t leaves same small filled fits over =
      rw
        (
          lt→suc (length leaves) (omega arith),
          lt→ltb (t.next_index + length leaves) word fits,
          le→leb 1 (t.next_index + length leaves) (omega arith),
          same,
          lt→ltb height 64 (omega arith),
          le→ltb_false (t.next_index + length leaves - 1) (2 ^ height) (omega arith),
        )
        refl
