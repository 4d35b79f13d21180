-- ===== src/Concurrent/Tree/Append/Room.antt =====
-- What `append_batch` accepts.
use light_protocol.Prelude.{
  ℕ, suc, ◌+◌, ◌-◌, ◌^◌, ◌%◌, ◌≤◌, ◌<◌, ◌≡◌, refl, arith, ok, err, List, [], ◌∷◌, length, leb,
  lt→ltb, le→leb, lt→leb_false, ◌⊎◌, inl, inr, Bool-cases,
}
use light_protocol.Prelude.Words.{word}
use light_protocol.Hasher.{Hasher, IsLawful, max_height}
use light_protocol.Concurrent.Path.{TreeError}
use light_protocol.Concurrent.Error.{empty_leaves, tree_full, batch_greater_than_changelog}
use light_protocol.Concurrent.Tree.{ConcurrentMerkleTree}
use light_protocol.Concurrent.Tree.Append.{append_batch}
use light_protocol.Concurrent.Tree.Append.Leaf.{Holds}
use light_protocol.Concurrent.Tree.Append.Batch.{
  Appends, append_batch-Appends, append_batch-full, places-lt-word, lt→suc,
}

module _ (h : Hasher) (lawful : IsLawful h) (height : ℕ) where
  open h use {Hash}

  append_batch-empty :
      (t : ConcurrentMerkleTree Hash) → append_batch h height t [] ≡ err empty_leaves
  unfolding append_batch
  append_batch-empty t = refl

  append_batch-long :
      (t : ConcurrentMerkleTree Hash) (leaves : List Hash)
      → t.height ≡ height
      → height ≤ max_height
      → 0 < length leaves
      → t.next_index + length leaves ≤ 2 ^ height
      → t.changelog.capacity < length leaves
      → append_batch h height t leaves
        ≡ err (batch_greater_than_changelog (length leaves) t.changelog.capacity)
  unfolding append_batch
  append_batch-long t leaves same small any room long =
      let le = places-lt-word height small in
      rw
        (
          lt→suc (length leaves) any,
          lt→ltb (t.next_index + length leaves) word (omega arith),
          le→leb 1 (t.next_index + length leaves) (omega arith),
          same,
          lt→ltb height 64 (omega arith),
          lt→ltb (t.next_index + length leaves - 1) (2 ^ height) (omega arith),
          lt→leb_false (length leaves) t.changelog.capacity long,
        )
        refl

  -- the leaves of a batch have places in the tree and slots in the changelog
  abbrev pub HasRoom : ConcurrentMerkleTree Hash → List Hash → Type 0
  HasRoom t leaves =
      (0 < length leaves)
      × (t.next_index + length leaves ≤ 2 ^ height)
      × (length leaves ≤ t.changelog.capacity)

  -- Let a tree hold leaves up to `next_index`, with a height from 1 to 32, no canopy, and
  -- indices and sequence numbers that do not overflow. `append_batch` never panics: it
  -- accepts a batch exactly if it has at least one leaf, at most as many as the tree has
  -- places left and at most as many as the changelog has slots, and the new tree then holds
  -- the old leaves and those of the batch; it returns an error for every other batch.
  pub append_batch-HasRoom :
      (leaves : List Hash) (t : ConcurrentMerkleTree Hash) (f : ℕ → Hash)
      → Holds h lawful height t f
      → 0 < height
      → height ≤ max_height
      → t.next_index ≤ 2 ^ height
      → t.next_index + length leaves < word
      → t.sequence_number + length leaves < word
      → t.changelog.last_index + 1 < word
      → t.canopy_depth ≡ 0
      → (HasRoom t leaves
          × ((t' : ConcurrentMerkleTree Hash) × (append_batch h height t leaves
                ≡ ok (
                  t',
                  (t.changelog.last_index + 1) % t.changelog.capacity,
                  t.sequence_number + 1,
                ))
              × Appends h lawful height t f leaves t'))
        ⊎ ((¬ HasRoom t leaves) × ((e : TreeError h) × (append_batch h height t leaves ≡ err e)))
  append_batch-HasRoom [] t f v pos small filled index seq last no_canopy =
      inr (λ (any, room, slots). absurd (omega (arith, any)), (empty_leaves, append_batch-empty t))
  append_batch-HasRoom (leaf ∷ leaves) t f v pos small filled index seq last no_canopy =
      elim (Bool-cases (leb (t.next_index + suc (length leaves)) (2 ^ height))) [
        | inl fits ↦ elim (Bool-cases (leb (suc (length leaves)) t.changelog.capacity)) [
          | inl short ↦ inl (
            (omega arith, ground arith, ground arith),
            append_batch-Appends h lawful height leaf leaves t f v pos small (ground arith) seq
                (ground arith) last no_canopy,
          )
          | inr long ↦ inr (
            λ (any, room, slots). absurd (ground arith),
            (
              batch_greater_than_changelog (suc (length leaves)) t.changelog.capacity,
              append_batch-long t (leaf ∷ leaves) v.same_height small (omega arith) (ground arith)
                  (ground arith),
            ),
          )
        ]
        | inr over ↦ inr (
          λ (any, room, slots). absurd (ground arith),
          (
            tree_full,
            append_batch-full h lawful height t (leaf ∷ leaves) v.same_height small filled index
                (ground arith),
          ),
        )
      ]
