-- ===== src/Concurrent/Path/Correct.antt =====
-- `compute_root` against the abstract tree.
use Prim.Native.Nat.{bit_and}
use light_protocol.Prelude.{
  ℕ, zero, suc, ◌+◌, ◌/◌, ◌%◌, ◌^◌, ◌≤◌, ◌<◌, ◌≡◌, refl, sym, ap, ap₂, ◌∙◌, arith, ◌==◌, add-one,
  Bool-cases, inl, inr, true, false, ok, lt→ltb,
}
use light_protocol.Prelude.Words.{shr}
use light_protocol.Prelude.Arith.{shr-suc, shr-zero, shr-eq-zero}
use light_protocol.Prelude.Bits.{bit_and-one}
use light_protocol.Hasher.{Hasher, IsLawful}
use light_protocol.BoundedVec.Plain.{BoundedVec, as_slice}
use light_protocol.Concurrent.Path.{compute_parent_node, climb, compute_root}
use light_protocol.Concurrent.Leaves.{
  sibling, node, siblings, proof_of, root_of, update, siblings-update_self, node-update_self,
}

module _ (h : Hasher) (lawful : IsLawful h) where
  open h use {Hash}
  open lawful use {combine, hashv_pair}

  pub parent_left :
      (a b : Hash) (i l : ℕ)
      → l < 64
      → shr i l % 2 ≡ 0
      → compute_parent_node h a b i l ≡ ok (combine a b)
  unfolding compute_parent_node
  parent_left a b i l small e =
      let even : (bit_and (shr i l) 1 == 0) ≡ true = ground (arith, bit_and-one (shr i l)) in
      rw (lt→ltb l 64 small, even, hashv_pair a b)

  pub parent_right :
      (a b : Hash) (i l : ℕ)
      → l < 64
      → shr i l % 2 ≡ 1
      → compute_parent_node h a b i l ≡ ok (combine b a)
  unfolding compute_parent_node
  parent_right a b i l small e =
      let odd : (bit_and (shr i l) 1 == 0) ≡ false = ground (arith, bit_and-one (shr i l)) in
      rw (lt→ltb l 64 small, odd, hashv_pair b a)

  -- One level up from a node of the tree is its parent.
  pub parent_of_node :
      (f : ℕ → Hash) (i l : ℕ)
      → l < 64
      → compute_parent_node h
          (node h lawful f l (shr i l))
          (node h lawful f l (sibling (shr i l)))
          i
          l
        ≡ ok (node h lawful f (suc l) (shr i (suc l)))
  parent_of_node f i l small = elim (Bool-cases (shr i l % 2 == 0)) [
    | inl even ↦
        parent_left _ _ i l small (ground arith)
        ∙ ap ok (
            ap₂ (λ a b. combine (node h lawful f l a) (node h lawful f l b))
              (ground (arith, shr-suc i l)) (ground (arith, shr-suc i l)))
    | inr odd ↦
        parent_right _ _ i l small (ground arith)
        ∙ ap ok (
            ap₂ (λ a b. combine (node h lawful f l a) (node h lawful f l b))
              (ground (arith, shr-suc i l)) (ground (arith, shr-suc i l)))
  ]

  climb-siblings :
      (f : ℕ → Hash) (i l n m : ℕ)
      → m ≡ l + n
      → m ≤ 64
      → climb h (node h lawful f l (shr i l)) i l (siblings h lawful f l (shr i l) n)
        ≡ ok (node h lawful f m (shr i m))
  unfolding climb
  climb-siblings f i l zero m e top = ap (λ k. ok (node h lawful f k (shr i k))) (omega arith)
  climb-siblings f i l (suc n) m e top = rw (parent_of_node f i l (omega arith)) (
      ap
        (λ k.
          climb h (node h lawful f (suc l) (shr i (suc l))) i k
            (siblings h lawful f (suc l) (shr i l / 2) n))
        (add-one l)
      ∙ ap
          (λ k.
            climb h (node h lawful f (suc l) (shr i (suc l))) i (suc l)
              (siblings h lawful f (suc l) k n))
          (sym (shr-suc i l))
      ∙ climb-siblings f i (suc l) n m (omega arith) top)

  -- From any leaf value and the right proof of position `i`, below the size of a tree of at
  -- most 64 levels, `compute_root` returns the root of the tree in which that leaf has that
  -- value.
  pub compute_root_lem :
      (f : ℕ → Hash) (i height : ℕ) (x : Hash) (proof : BoundedVec Hash)
      → i < 2 ^ height
      → height ≤ 64
      → as_slice proof ≡ proof_of h lawful f i height
      → compute_root h x i proof ≡ ok (root_of h lawful (update h lawful f i x) height)
  unfolding compute_root
  compute_root_lem f i height x proof lt top e =
      let f' = update h lawful f i x in
      let start : shr i 0 ≡ i = shr-zero i in
      let same : as_slice proof ≡ siblings h lawful f' 0 (shr i 0) height =
        e
        ∙ ap (λ k. siblings h lawful f 0 k height) (sym start)
        ∙ sym (siblings-update_self h lawful f i x 0 (shr i 0) height refl) in
      let leaf : x ≡ node h lawful f' 0 (shr i 0) =
        sym (ap f' start ∙ node-update_self h lawful f i x) in
      ap₂ (λ a p. climb h a i 0 p) leaf same
      ∙ climb-siblings f' i 0 height height (omega arith) top
      ∙ ap (λ k. ok (node h lawful f' height k)) (shr-eq-zero i height lt)
