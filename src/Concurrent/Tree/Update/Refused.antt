-- ===== src/Concurrent/Tree/Update/Refused.antt =====
-- An update that does not know the leaf it replaces.
use light_protocol.Prelude.{
  ℕ, ◌+◌, ◌-◌, ◌%◌, ◌^◌, ◌≤◌, ◌<◌, ◌≡◌, ◌≢◌, refl, ap, ◌∙◌, arith, true, false, ok, err, List, [],
  ◌∷◌, length, ltb, ◌==◌, Bool-cases, inl, inr, lt→ltb, le→leb, guard_dec,
}
use light_protocol.Prelude.Words.{shr}
use light_protocol.Hasher.{Hasher, IsLawful}
use light_protocol.BoundedVec.Plain.{BoundedVec, as_slice}
use light_protocol.BoundedVec.Plain.Refine.{IsValid, length-as_slice}
use light_protocol.Concurrent.Error.{invalid_proof}
use light_protocol.Concurrent.Path.{climb, compute_root}
use light_protocol.Concurrent.Path.Correct.{parent_left, parent_right}
use light_protocol.Concurrent.Leaves.{root_of}
use light_protocol.Concurrent.Tree.{ConcurrentMerkleTree, root, changelog_index}
use light_protocol.Concurrent.Tree.Update
use light_protocol.Concurrent.Tree.Update.Validate.{
  IsInjective, validate_proof-eq, compute_root-injective,
}

equal_eq : (m n : ℕ) → m ≡ n → (m == n) ≡ true
equal_eq m n e = ground arith

zero_depth : (d : ℕ) → d ≡ 0 → ltb 0 d ≡ false
zero_depth d e = ground arith

guard_dec-no {ℓ κ} : {E : Type ℓ} {P : Type κ} (d : Dec P) (e : E) → (P → ⊥) → guard_dec d e ≡ err e
guard_dec-no (yes p) e n = absurd (n p)
guard_dec-no (no n) e n' = refl

module _ (h : Hasher) (lawful : IsLawful h) where
  open h use {Hash, hash_discrete}
  open lawful use {combine}

  climb_total :
      (x : Hash) (i l : ℕ) (proof : List Hash)
      → l + length proof ≤ 64
      → (r : Hash) × (climb h x i l proof ≡ ok r)
  unfolding climb
  climb_total x i l [] top = (x, refl)
  climb_total x i l (s ∷ proof) top = elim (Bool-cases (shr i l % 2 == 0)) [
    | inl even ↦
        let (r, p) = climb_total (combine x s) i (l + 1) proof (omega (arith, top)) in
        let parity : shr i l % 2 ≡ 0 = ground arith in
        (r, rw (parent_left h lawful x s i l (omega (arith, top)) parity) p)
    | inr odd ↦
        let (r, p) = climb_total (combine s x) i (l + 1) proof (omega (arith, top)) in
        let parity : shr i l % 2 ≡ 1 = ground arith in
        (r, rw (parent_right h lawful x s i l (omega (arith, top)) parity) p)
  ]

  refused-eq :
      (height i : ℕ) (t : ConcurrentMerkleTree Hash) (leaf x r c : Hash) (proof : BoundedVec Hash)
      → t.height ≡ height
      → t.canopy_depth ≡ 0
      → proof.len ≡ height
      → i < t.next_index
      → root h height t ≡ ok r
      → compute_root h leaf i proof ≡ ok c
      → c ≢ r
      → Update.update h height t (changelog_index h height t) leaf x i proof
        ≡ err (invalid_proof r c)
  unfolding Update.update
  refused-eq height i t leaf x r c proof same no_canopy size old p q ne =
      let wrong : Update.validate_proof h height t leaf i proof ≡ err (invalid_proof r c) =
        validate_proof-eq h height t leaf r c i proof p q
        ∙ guard_dec-no (hash_discrete c r) (invalid_proof r c) ne in
      rw
        (
          le→leb t.canopy_depth t.height (omega (arith, no_canopy)),
          equal_eq proof.len (t.height - t.canopy_depth) (omega (arith, size, no_canopy, same)),
          lt→ltb i t.next_index old,
          zero_depth t.canopy_depth no_canopy,
          equal_eq (changelog_index h height t) (changelog_index h height t) refl,
          wrong,
        )
        refl

  -- Where no two pairs of nodes have the same hash and the tree, of at most 64 levels and
  -- without a canopy, has the root of the leaves `f` as its current root, an update of a
  -- position below `next_index` from a leaf that is not the one of `f` there, with any valid
  -- proof of the tree's height and the current changelog index, is refused with
  -- `InvalidProof`.
  pub update_refused :
      (height i : ℕ) (t : ConcurrentMerkleTree Hash) (f : ℕ → Hash) (leaf x : Hash)
      (proof : BoundedVec Hash)
      → IsInjective h lawful
      → root h height t ≡ ok (root_of h lawful f height)
      → t.height ≡ height
      → t.canopy_depth ≡ 0
      → i < t.next_index
      → t.next_index ≤ 2 ^ height
      → height ≤ 64
      → IsValid proof
      → proof.len ≡ height
      → leaf ≢ f i
      → (c : Hash) × (Update.update h height t (changelog_index h height t) leaf x i proof
          ≡ err (invalid_proof (root_of h lawful f height) c))
  unfolding compute_root
  update_refused height i t f leaf x proof inj p same no_canopy old room top valid size ne =
      let (c, q) =
        climb_total leaf i 0 (as_slice proof) (omega (arith, length-as_slice proof valid)) in
      let other : c ≢ root_of h lawful f height = λ e. ne (
        (compute_root-injective h lawful f height i leaf proof inj (omega arith)
          (omega (arith, length-as_slice proof valid)) (q ∙ ap ok e)).0) in
      (c, refused-eq height i t leaf x _ c proof same no_canopy size old p q other)
