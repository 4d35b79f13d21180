-- ===== src/Concurrent/Tree/Update/Correct.antt =====
-- `update_leaf_in_tree` against the abstract tree.
use light_protocol.Prelude.{
  ℕ, zero, suc, ◌+◌, ◌%◌, ◌^◌, ◌≤◌, ◌<◌, ◌≡◌, refl, sym, ap, ap₂, ◌∙◌, arith, true, ok, List, map,
  Option, none, some, length, length-set, length-replicate, replicate, get_elem?,
  get_elem?-set_self, get_elem?-set_ne, set, ltb, leb, ◌==◌, if◌then◌else◌, Bool-cases, inl, inr,
  lt→ltb, add-one,
}
use light_protocol.Prelude.Words.{shr, word}
use light_protocol.Prelude.Arith.{shr-suc, shr-zero, shr-eq-zero}
use light_protocol.Hasher.{Hasher, IsLawful, max_height}
use light_protocol.BoundedVec.Plain.{BoundedVec, as_slice}
use light_protocol.BoundedVec.Plain.Refine
use light_protocol.BoundedVec.Cyclic
use light_protocol.BoundedVec.Cyclic.Refine.{pushed, push-eq-pushed, pushed-IsValid}
use light_protocol.BoundedVec.Cyclic.Last.{index-pushed}
use light_protocol.Concurrent.Path.{TreeError}
use light_protocol.Concurrent.Path.Correct.{parent_of_node}
use light_protocol.Concurrent.Changelog.{ChangelogEntry}
use light_protocol.Concurrent.Leaves.{
  node, siblings, siblings-update_self, node-update_self, update, proof_of, path_of, root_of,
  IsEmptyFrom,
}
use light_protocol.Concurrent.Tree.{ConcurrentMerkleTree, root, current_index, inc_sequence_number}
use light_protocol.Concurrent.Tree.Update.{record_path, refill, update_leaf_in_tree}
use light_protocol.Concurrent.Tree.Update.Filled.{IsFilled-update_proof, shr_full}
use light_protocol.Concurrent.Tree.Append.Levels.{IsFilled}
use light_protocol.Concurrent.Tree.Append.Leaf.{Holds, path_ext}

module _ (h : Hasher) (lawful : IsLawful h) (height : ℕ) where
  open h use {Hash}

  record_path_lem :
      (f : ℕ → Hash) (i l n : ℕ) (path : List (Option Hash))
      → height ≡ l + n
      → height ≤ 64
      → length path ≡ height
      → ((k : ℕ) → k < l → get_elem? path k ≡ some (some (node h lawful f k (shr i k))))
      → (path' : List (Option Hash)) × (record_path h height
            (siblings h lawful f l (shr i l) n)
            i
            l
            path
            (node h lawful f l (shr i l))
          ≡ ok (path', node h lawful f height (shr i height)))
        × (length path' ≡ height)
        × ((k : ℕ) → k < height → get_elem? path' k ≡ some (some (node h lawful f k (shr i k))))
  unfolding record_path
  record_path_lem f i l zero path e top size at = (
    path,
    ap (λ k. ok (path, node h lawful f k (shr i k))) (omega arith),
    size,
    λ k lt. at k (omega arith),
  )
  record_path_lem f i l (suc n) path e top size at =
      let here = node h lawful f l (shr i l) in
      let (path', p, size', at') =
        record_path_lem f i (suc l) n (set path l (some here)) (omega arith) top
          (length-set path l (some here) ∙ size)
          (λ k lt. elim (Bool-cases (k == l)) [
            | inl same ↦
                let at_l : k ≡ l = ground arith in
                rw at_l (get_elem?-set_self path l (some here) (omega arith))
            | inr other ↦ get_elem?-set_ne path l k (some here) (ground arith) ∙ at k (ground arith)
          ]) in
      (
        path',
        rw (lt→ltb l (length path) (omega arith), parent_of_node h lawful f i l (omega arith))
            (ap₂
                (λ k j.
                  record_path h height (siblings h lawful f (suc l) j n) i k
                    (set path l (some here)) (node h lawful f (suc l) (shr i (suc l))))
                (add-one l) (sym (shr-suc i l))
              ∙ p),
        size',
        at',
      )

  refill_lem :
      (t : ConcurrentMerkleTree Hash) (f : ℕ → Hash) (x : Hash) (entry : ChangelogEntry Hash)
      → t.height ≡ height
      → height ≤ max_height
      → entry.index < t.next_index
      → t.next_index ≤ 2 ^ height
      → entry.path
        ≡ map some (path_of h lawful (update h lawful f entry.index x) entry.index height)
      → Refine.IsValid t.filled_subtrees
      → t.filled_subtrees.len ≡ height
      → IsFilled h lawful height f t.next_index height (as_slice t.filled_subtrees)
      → (filled : BoundedVec Hash) × (rightmost : Hash) × (refill h height t entry x entry.index
          ≡ ok (record t { filled_subtrees = filled; rightmost_leaf = rightmost }))
        × Refine.IsValid filled
        × (filled.len ≡ height)
        × IsFilled h lawful height
            (update h lawful f entry.index x)
            t.next_index
            height
            (as_slice filled)
  unfolding refill
  refill_lem t f x entry same small before room path valid size right =
      let word_fits : ltb t.height 64 ≡ true = lt→ltb t.height 64 (omega (arith, same)) in
      let places : 2 ^ t.height ≡ 2 ^ height = ap (λ k. 2 ^ k) same in
      elim (Bool-cases (ltb t.next_index (2 ^ t.height))) [
        | inl more ↦
            let (filled, p, valid', size', right') =
              IsFilled-update_proof h lawful height f t.next_index x entry t.filled_subtrees
                (omega arith) (ground arith) before path valid size right in
            (
              filled,
              (if leb (current_index h height t) entry.index then x else t.rightmost_leaf),
              rw (word_fits, more, p) refl,
              valid',
              size',
              right',
            )
        | inr full ↦ (
          t.filled_subtrees,
          t.rightmost_leaf,
          rw (word_fits, full) refl,
          valid,
          size,
          λ l lt odd.
              let e : t.next_index ≡ 2 ^ height = ground arith in
              absurd (omega (arith, shr_full height l lt, odd, ap (λ k. shr k l % 2) e)),
        )
      ]

  -- the tree after an update, with the parts that the two branches of the code compute
  abbrev pub updated :
      ConcurrentMerkleTree Hash
      → ChangelogEntry Hash
      → Hash
      → BoundedVec Hash
      → Hash
      → ConcurrentMerkleTree Hash
  updated t entry root filled rightmost = record t {
    sequence_number = t.sequence_number + 1;
    rightmost_leaf = rightmost;
    filled_subtrees = filled;
    changelog = pushed t.changelog entry;
    roots = pushed t.roots root;
  }

  -- `t'` is `t` after the change of leaf `i` to `x`, and the newest entry of its changelog says so.
  pub record Updates (t : ConcurrentMerkleTree Hash) (f : ℕ → Hash) (i : ℕ) (x : Hash)
      (t' : ConcurrentMerkleTree Hash) : Type 0 where
    pub entry : ChangelogEntry Hash
    pub entry_index : entry.index ≡ i
    pub entry_path : entry.path ≡ map some (path_of h lawful (update h lawful f i x) i height)
    pub logged : t'.changelog ≡ pushed t.changelog entry
    pub holds : Holds h lawful height t' (update h lawful f i x)
    pub count : t'.next_index ≡ t.next_index
    pub sequence : t'.sequence_number ≡ t.sequence_number + 1
    pub current_root : root h height t' ≡ ok (root_of h lawful (update h lawful f i x) height)
    pub same_depth : t'.canopy_depth ≡ t.canopy_depth

  update-IsEmptyFrom_ne :
      (f : ℕ → Hash) (i n : ℕ) (x : Hash)
      → i < n
      → IsEmptyFrom h lawful f n
      → IsEmptyFrom h lawful (update h lawful f i x) n
  update-IsEmptyFrom_ne f i n x lt empty j le = ground (arith, empty j)

  update_leaf_in_tree-eq :
      (t : ConcurrentMerkleTree Hash) (entry : ChangelogEntry Hash) (r : Hash)
      (filled : BoundedVec Hash) (rightmost x : Hash) (proof : BoundedVec Hash)
      → Cyclic.Refine.IsValid t.changelog
      → Cyclic.Refine.IsValid t.roots
      → record_path h height (as_slice proof) entry.index 0 (replicate height none) x
        ≡ ok (entry.path, r)
      → t.sequence_number + 1 < word
      → t.canopy_depth ≡ 0
      → refill h height
          (record t { sequence_number = t.sequence_number + 1; roots = pushed t.roots r })
          entry
          x
          entry.index
        ≡ ok (record t {
          sequence_number = t.sequence_number + 1;
          rightmost_leaf = rightmost;
          filled_subtrees = filled;
          roots = pushed t.roots r;
        })
      → update_leaf_in_tree h height t x entry.index proof
        ≡ ok (
          updated t entry r filled rightmost,
          (updated t entry r filled rightmost).changelog.last_index,
          t.sequence_number + 1,
        )
  unfolding update_leaf_in_tree
  update_leaf_in_tree-eq t entry r filled rightmost x proof changelog_valid roots_valid run fits
        no_canopy q =
      rw
        (
          run,
          inc_sequence_number,
          lt→ltb (t.sequence_number + 1) word fits,
          push-eq-pushed {E = TreeError h} t.roots r roots_valid,
          q,
          push-eq-pushed {E = TreeError h} t.changelog entry changelog_valid,
          no_canopy,
        )
        refl

  -- With a proof that is right in the tree, the leaf is replaced.
  pub update_leaf_in_tree-Updates :
      (t : ConcurrentMerkleTree Hash) (f : ℕ → Hash) (i : ℕ) (x : Hash) (proof : BoundedVec Hash)
      → Holds h lawful height t f
      → 0 < height
      → height ≤ max_height
      → i < t.next_index
      → t.next_index ≤ 2 ^ height
      → t.sequence_number + 1 < word
      → t.canopy_depth ≡ 0
      → as_slice proof ≡ proof_of h lawful f i height
      → (t' : ConcurrentMerkleTree Hash) × (update_leaf_in_tree h height t x i proof
          ≡ ok (t', t'.changelog.last_index, t'.sequence_number))
        × Updates t f i x t'
  update_leaf_in_tree-Updates t f i x proof v pos small old room fits no_canopy right =
      let f' = update h lawful f i x in
      let start : shr i 0 ≡ i = shr-zero i in
      let same : siblings h lawful f' 0 (shr i 0) height ≡ as_slice proof =
        siblings-update_self h lawful f i x 0 (shr i 0) height refl
        ∙ ap (λ k. siblings h lawful f 0 k height) start
        ∙ sym right in
      let leaf : node h lawful f' 0 (shr i 0) ≡ x = ap f' start ∙ node-update_self h lawful f i x in
      let empty_path : List (Option Hash) = replicate height none in
      let (path, p, size, at) =
        record_path_lem f' i 0 height empty_path (omega arith) (omega arith)
          (length-replicate height none) (λ k lt. absurd (omega arith)) in
      let run : record_path h height (as_slice proof) i 0 empty_path x
          ≡ ok (path, root_of h lawful f' height) =
        sym (ap₂ (λ s y. record_path h height s i 0 empty_path y) same leaf)
        ∙ p
        ∙ ap (λ k. ok (path, node h lawful f' height k)) (shr-eq-zero i height (omega arith)) in
      let path_right : path ≡ map some (path_of h lawful f' i height) =
        path_ext h lawful height f' i 0 i height path (sym start) size
          (λ k lt. at k lt ∙ ap (λ j. some (some (node h lawful f' j (shr i j)))) (omega arith)) in
      let entry : ChangelogEntry Hash = record { path = path; index = i } in
      let r = root_of h lawful f' height in
      let (filled, rightmost, q, valid, filled_size, filled_right) =
        refill_lem (record t { sequence_number = t.sequence_number + 1; roots = pushed t.roots r })
          f x entry v.same_height small old room path_right v.filled_valid v.filled_size v.filled in
      (
        updated t entry r filled rightmost,
        update_leaf_in_tree-eq t entry r filled rightmost x proof v.changelog_valid v.roots_valid
            run fits no_canopy q,
        record {
          entry = entry;
          entry_index = refl;
          entry_path = path_right;
          logged = refl;
          holds = record {
            same_height = v.same_height;
            empty = update-IsEmptyFrom_ne f i t.next_index x old v.empty;
            filled = filled_right;
            filled_valid = valid;
            filled_size = filled_size;
            changelog_valid = pushed-IsValid t.changelog entry v.changelog_valid;
            roots_valid = pushed-IsValid t.roots r v.roots_valid;
          };
          count = refl;
          sequence = refl;
          current_root = unfold root in index-pushed {E = TreeError h} t.roots r v.roots_valid;
          same_depth = refl;
        },
      )
