-- ===== src/Concurrent/Tree/Init.antt =====
-- A new tree holds no leaves.
use light_protocol.Prelude.{
  ℕ, zero, suc, ◌+◌, ◌^◌, ◌≤◌, ◌<◌, ◌≡◌, refl, sym, ap, ◌∙◌, arith, true, false, ok, List, [], ◌∷◌,
  map, some, length, ◌>>=◌, ◌==◌, le→leb,
}
use native.Mathlib.Nat.{zero-div}
use light_protocol.Hasher.{Hasher, IsLawful, max_height}
use light_protocol.BoundedVec.Plain
use light_protocol.BoundedVec.Plain.{BoundedVec}
use light_protocol.BoundedVec.Plain.Refine.{pushed-IsValid, push-eq-pushed, with_capacity-IsValid}
use light_protocol.BoundedVec.Cyclic
use light_protocol.BoundedVec.Cyclic.Last.{index-pushed}
use light_protocol.Concurrent.Path.{TreeError}
use light_protocol.Concurrent.Changelog.{ChangelogEntry}
use light_protocol.Concurrent.Leaves.{root_of, node-empty}
use light_protocol.Concurrent.Tree.{
  ConcurrentMerkleTree, zero_row, init_filled, init_canopy, new, init, root,
}
use light_protocol.Concurrent.Tree.Append.Leaf.{Holds}

positive_ne : (n : ℕ) → 0 < n → (n == 0) ≡ false
positive_ne n pos = ground arith

same_eq : (n : ℕ) → (n == n) ≡ true
same_eq n = ground arith

module _ (h : Hasher) (lawful : IsLawful h) (height : ℕ) where
  open h use {Hash}
  open lawful use {zero_at}

  abbrev zeros : ℕ → ℕ → List Hash
  zeros zero i = []
  zeros (suc n) i = zero_at i ∷ zeros n (i + 1)

  length-zeros : (n i : ℕ) → length (zeros n i) ≡ n
  length-zeros zero i = refl
  length-zeros (suc n) i = ap suc (length-zeros n (i + 1))

  zero_row-eq-zeros : (n i : ℕ) → i + n ≤ max_height → zero_row h height n i ≡ ok (zeros n i)
  unfolding zero_row
  zero_row-eq-zeros zero i le = refl
  zero_row-eq-zeros (suc n) i le =
      rw (lawful.zero_table i (omega arith), zero_row-eq-zeros n (i + 1) (omega arith)) refl

  init_filled_lem :
      (v : BoundedVec Hash) (xs : List Hash)
      → Plain.Refine.IsValid v
      → v.len + length xs ≤ v.capacity
      → (v' : BoundedVec Hash) × (init_filled h height v xs ≡ ok v')
        × Plain.Refine.IsValid v'
        × (v'.len ≡ v.len + length xs)
  unfolding init_filled
  init_filled_lem v [] valid le = (v, refl, valid, omega arith)
  init_filled_lem v (x ∷ xs) valid le =
      let (v', p, valid', size) =
        init_filled_lem (Plain.Refine.pushed v x) xs (pushed-IsValid v x valid (omega arith))
          (omega arith) in
      (v', rw (init_filled, push-eq-pushed v x valid (omega arith)) p, valid', omega (arith, size))

  some_slots {ℓ} :
      (A : Type ℓ) (n : ℕ) → 0 < n → ((Cyclic.with_capacity {A = A} n).capacity == 0) ≡ false
  unfolding Cyclic.with_capacity
  some_slots A n pos = positive_ne n pos

  -- the tree that `init` leaves
  abbrev pub initial : ℕ → ℕ → BoundedVec Hash → ConcurrentMerkleTree Hash
  initial changelog_size roots_size filled = record {
    height = height;
    canopy_depth = 0;
    next_index = 0;
    sequence_number = 0;
    rightmost_leaf = h.zero_hash;
    filled_subtrees = filled;
    changelog =
        Cyclic.Refine.pushed (Cyclic.with_capacity changelog_size)
          (record { path = map some (zeros height 0); index = 0 });
    roots = Cyclic.Refine.pushed (Cyclic.with_capacity roots_size) (zero_at height);
    canopy = Plain.with_capacity 0;
  }

  init-eq :
      (changelog_size roots_size : ℕ) (filled : BoundedVec Hash)
      → 0 < height
      → height ≤ max_height
      → 0 < changelog_size
      → 0 < roots_size
      → init_filled h height (Plain.with_capacity height) (zeros height 0) ≡ ok filled
      → (new h height height changelog_size roots_size 0 >>= init h height)
        ≡ ok (initial changelog_size roots_size filled)
  unfolding new init init_canopy
  init-eq changelog_size roots_size filled pos small some_changes some_roots p =
      rw
        (
          positive_ne height pos,
          same_eq height,
          le→leb 0 height (omega arith),
          positive_ne changelog_size some_changes,
          positive_ne roots_size some_roots,
          some_slots (ChangelogEntry Hash) changelog_size some_changes,
          some_slots Hash roots_size some_roots,
          lawful.zero_table height small,
          Cyclic.Refine.push-eq-pushed {E = TreeError h} (Cyclic.with_capacity roots_size)
              (zero_at height)
              (Cyclic.Refine.with_capacity-IsValid {A = Hash} roots_size some_roots),
          zero_row-eq-zeros height 0 (omega arith),
          Cyclic.Refine.push-eq-pushed {E = TreeError h} (Cyclic.with_capacity changelog_size)
              (record { path = map some (zeros height 0); index = 0 })
              (Cyclic.Refine.with_capacity-IsValid {A = ChangelogEntry Hash} changelog_size
                some_changes),
          p,
        )
        (rw (positive_ne height pos, same_eq height, le→leb 0 height (omega arith)) refl)

  -- For a height from 1 to 32, a positive changelog size and a positive number of roots, and
  -- no canopy, `new` and then `init` return a well-formed tree that holds no leaf, with the
  -- root of the empty tree as its current root.
  pub init-Holds :
      (changelog_size roots_size : ℕ)
      → 0 < height
      → height ≤ max_height
      → 0 < changelog_size
      → 0 < roots_size
      → (t : ConcurrentMerkleTree Hash) × ((new h height height changelog_size roots_size 0
            >>= init h height)
          ≡ ok t)
        × Holds h lawful height t (λ i. zero_at 0)
        × (root h height t ≡ ok (root_of h lawful (λ i. zero_at 0) height))
        × (t.next_index ≡ 0)
        × (t.sequence_number ≡ 0)
        × (t.canopy_depth ≡ 0)
  unfolding new init root init_canopy Plain.with_capacity Cyclic.with_capacity
  init-Holds changelog_size roots_size pos small some_changes some_roots =
      let (filled, p, valid, size) =
        init_filled_lem (Plain.with_capacity height) (zeros height 0) (with_capacity-IsValid height)
          (omega (arith, length-zeros height 0)) in
      let entry : ChangelogEntry Hash = record { path = map some (zeros height 0); index = 0 } in
      let changes = Cyclic.with_capacity {A = ChangelogEntry Hash} changelog_size in
      let roots = Cyclic.with_capacity {A = Hash} roots_size in
      let changes_valid =
        Cyclic.Refine.with_capacity-IsValid {A = ChangelogEntry Hash} changelog_size some_changes in
      let roots_valid = Cyclic.Refine.with_capacity-IsValid {A = Hash} roots_size some_roots in
      let root_is : zero_at height ≡ root_of h lawful (λ i. zero_at 0) height =
        sym (node-empty h lawful (λ i. zero_at 0) 0 height 0 (λ i le. refl) (omega arith)) in
      (
        initial changelog_size roots_size filled,
        init-eq changelog_size roots_size filled pos small some_changes some_roots p,
        record {
          same_height = refl;
          empty = λ i le. refl;
          filled = λ l lt odd. absurd (omega (arith, odd, zero-div (2 ^ l)));
          filled_valid = valid;
          filled_size = omega (arith, size, length-zeros height 0);
          changelog_valid = Cyclic.Refine.pushed-IsValid changes entry changes_valid;
          roots_valid = Cyclic.Refine.pushed-IsValid roots (zero_at height) roots_valid;
        },
        index-pushed {E = TreeError h} roots (zero_at height) roots_valid ∙ ap ok root_is,
        refl,
        refl,
        refl,
      )
