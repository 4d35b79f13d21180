-- ===== src/Concurrent/Tree/Update/Validate.antt =====
-- `validate_proof` against the abstract tree.
use light_protocol.Prelude.{
  ℕ, zero, suc, ◌+◌, ◌*◌, ◌%◌, ◌^◌, ◌≤◌, ◌<◌, ◌≡◌, refl, sym, ap, ap₂, ◌∙◌, arith, ok, List, [],
  ◌∷◌, length, ◌==◌, Bool-cases, inl, inr, >>=-eq-ok, add-one, guard_dec, guard_dec-yes,
  guard_dec-ok,
}
use light_protocol.Prelude.Words.{shr, shift_right, shift_right-ok}
use light_protocol.Prelude.Arith.{shr-suc, shr-zero, shr-eq-zero}
use light_protocol.Hasher.{Hasher, IsLawful}
use light_protocol.BoundedVec.Plain.{BoundedVec, as_slice}
use light_protocol.Concurrent.Error.{invalid_proof}
use light_protocol.Concurrent.Path.{compute_parent_node, climb, compute_root}
use light_protocol.Concurrent.Path.Correct.{parent_left, parent_right, compute_root_lem}
use light_protocol.Concurrent.Leaves.{node, siblings, update, proof_of, root_of}
use light_protocol.Concurrent.Tree.{ConcurrentMerkleTree, root}
use light_protocol.Concurrent.Tree.Update.{validate_proof}

module _ (h : Hasher) where
  open h use {Hash, hash_discrete}

  pub validate_proof-eq :
      (height : ℕ) (t : ConcurrentMerkleTree Hash) (leaf r c : Hash) (i : ℕ)
      (proof : BoundedVec Hash)
      → root h height t ≡ ok r
      → compute_root h leaf i proof ≡ ok c
      → validate_proof h height t leaf i proof ≡ guard_dec (hash_discrete c r) (invalid_proof r c)
  unfolding validate_proof
  validate_proof-eq height t leaf r c i proof p q = rw (p, q) refl

module _ (h : Hasher) (lawful : IsLawful h) where
  open h use {Hash, hash_discrete}
  open lawful use {combine}

  -- Two pairs of nodes with the same parent are the same.
  abbrev pub IsInjective : Type 0
  IsInjective = (a b c d : Hash) → combine a b ≡ combine c d → (a ≡ c) × (b ≡ d)

  node-ext :
      (f g : ℕ → Hash) (l k : ℕ) → ((i : ℕ) → f i ≡ g i) → node h lawful f l k ≡ node h lawful g l k
  node-ext f g zero k same = same k
  node-ext f g (suc l) k same =
      ap₂ combine (node-ext f g l (2 * k) same) (node-ext f g l (2 * k + 1) same)

  -- A right proof of the leaf that the tree holds is accepted.
  pub validate_proof_complete :
      (height : ℕ) (t : ConcurrentMerkleTree Hash) (f : ℕ → Hash) (i : ℕ) (proof : BoundedVec Hash)
      → root h height t ≡ ok (root_of h lawful f height)
      → i < 2 ^ height
      → height ≤ 64
      → as_slice proof ≡ proof_of h lawful f i height
      → validate_proof h height t (f i) i proof ≡ ok tt
  validate_proof_complete height t f i proof p lt top right =
      let same : root_of h lawful (update h lawful f i (f i)) height ≡ root_of h lawful f height =
        node-ext _ f height 0 (λ j. ground arith) in
      validate_proof-eq h height t (f i) _ _ i proof p
        (compute_root_lem h lawful f i height (f i) proof lt top right)
      ∙ guard_dec-yes (hash_discrete _ _) _ same

  compute_parent_node-small :
      (a b c : Hash) (i l : ℕ) → compute_parent_node h a b i l ≡ ok c → l < 64
  unfolding compute_parent_node
  compute_parent_node-small a b c i l p =
      let (shifted, p1, q1) = >>=-eq-ok (shift_right i l) _ p in (shift_right-ok i l p1).0

  climb-injective :
      (f : ℕ → Hash) (x : Hash) (i l m : ℕ) (proof : List Hash)
      → IsInjective
      → m ≡ l + length proof
      → climb h x i l proof ≡ ok (node h lawful f m (shr i m))
      → (x ≡ node h lawful f l (shr i l)) × (proof ≡ siblings h lawful f l (shr i l) (length proof))
  unfolding climb
  climb-injective f x i l m [] inj e p =
      let here : m ≡ l = omega arith in (cc (p, ap (λ k. node h lawful f k (shr i k)) here), refl)
  climb-injective f x i l m (s ∷ proof) inj e p =
      let (parent, p1, q1) = >>=-eq-ok (compute_parent_node h x s i l) _ p in
      let small : l < 64 = compute_parent_node-small x s parent i l p1 in
      elim (Bool-cases (shr i l % 2 == 0)) [
        | inl even ↦
            let parity : shr i l % 2 ≡ 0 = ground arith in
            let (up, rest) = climb-injective f (combine x s) i (suc l) m proof inj (omega arith) (
              ap (λ k. climb h (combine x s) i k proof) (sym (add-one l))
              ∙ rw (parent_left h lawful x s i l small parity) at p) in
            let (left, right) = inj x s _ _ up in
            (
              left ∙ ap (node h lawful f l) (ground (arith, shr-suc i l)),
              ap₂ ◌∷◌ (right ∙ ap (node h lawful f l) (ground (arith, shr-suc i l)))
                  (rest ∙ ap (λ k. siblings h lawful f (suc l) k (length proof)) (shr-suc i l)),
            )
        | inr odd ↦
            let parity : shr i l % 2 ≡ 1 = ground arith in
            let (up, rest) = climb-injective f (combine s x) i (suc l) m proof inj (omega arith) (
              ap (λ k. climb h (combine s x) i k proof) (sym (add-one l))
              ∙ rw (parent_right h lawful x s i l small parity) at p) in
            let (left, right) = inj s x _ _ up in
            (
              right ∙ ap (node h lawful f l) (ground (arith, shr-suc i l)),
              ap₂ ◌∷◌ (left ∙ ap (node h lawful f l) (ground (arith, shr-suc i l)))
                  (rest ∙ ap (λ k. siblings h lawful f (suc l) k (length proof)) (shr-suc i l)),
            )
      ]

  pub compute_root-injective :
      (f : ℕ → Hash) (height i : ℕ) (x : Hash) (proof : BoundedVec Hash)
      → IsInjective
      → i < 2 ^ height
      → length (as_slice proof) ≡ height
      → compute_root h x i proof ≡ ok (root_of h lawful f height)
      → (x ≡ f i) × (as_slice proof ≡ proof_of h lawful f i height)
  unfolding compute_root
  compute_root-injective f height i x proof inj lt size p =
      let (leaf, rest) =
        climb-injective f x i 0 height (as_slice proof) inj (omega (arith, size))
          (p ∙ ap (λ k. ok (node h lawful f height k)) (sym (shr-eq-zero i height lt))) in
      (leaf ∙ ap f (shr-zero i), rest ∙ ap₂ (λ k n. siblings h lawful f 0 k n) (shr-zero i) size)

  -- Where no two pairs of nodes have the same hash and the current root is the root of the
  -- leaves `f`, `validate_proof` with as many siblings as the tree has levels accepts only
  -- the leaf `f i` of position `i`, below the tree's size, and only its own proof.
  pub validate_proof_sound :
      (height : ℕ) (t : ConcurrentMerkleTree Hash) (f : ℕ → Hash) (i : ℕ) (leaf : Hash)
      (proof : BoundedVec Hash)
      → IsInjective
      → root h height t ≡ ok (root_of h lawful f height)
      → i < 2 ^ height
      → length (as_slice proof) ≡ height
      → validate_proof h height t leaf i proof ≡ ok tt
      → (leaf ≡ f i) × (as_slice proof ≡ proof_of h lawful f i height)
  unfolding validate_proof
  validate_proof_sound height t f i leaf proof inj p lt size accepted =
      let (c, q, rest) = >>=-eq-ok (compute_root h leaf i proof) _ (rw p at accepted) in
      compute_root-injective f height i leaf proof inj lt size (
        q
        ∙ ap ok (
            guard_dec-ok (hash_discrete c (root_of h lawful f height))
              (invalid_proof (root_of h lawful f height) c) rest))
