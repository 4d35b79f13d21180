-- ===== src/Concurrent/Leaves.antt =====
-- The abstract tree behind the concurrent Merkle tree: a hash for each leaf position, and the
-- nodes above them.
use light_protocol.Prelude.{
  ℕ, zero, suc, ◌+◌, ◌-◌, ◌*◌, ◌/◌, ◌%◌, ◌^◌, ◌≡◌, ◌≢◌, refl, ap, ap₂, List, [], ◌∷◌, arith, ◌==◌,
  if◌then◌else◌, length, ◌∙◌, ◌≤◌,
}
use native.Mathlib.Nat.{pow-suc}
use light_protocol.Prelude.Words.{shr}
use light_protocol.Prelude.Arith.{shr-suc, shr-zero}
use light_protocol.Hasher.{Hasher, IsLawful}

abbrev pub sibling : ℕ → ℕ
sibling i = if i % 2 == 0 then i + 1 else i - 1

module _ (h : Hasher) (lawful : IsLawful h) where
  open h use {Hash}
  open lawful use {combine}

  -- the node `i` of level `l`, counted from the leaves
  abbrev pub node : (ℕ → Hash) → ℕ → ℕ → Hash
  node f zero i = f i
  node f (suc l) i = combine (node f l (2 * i)) (node f l (2 * i + 1))

  -- the siblings on the way up from node `i` of level `l`, `n` of them
  abbrev pub siblings : (ℕ → Hash) → ℕ → ℕ → ℕ → List Hash
  siblings f l i zero = []
  siblings f l i (suc n) = node f l (sibling i) ∷ siblings f (suc l) (i / 2) n

  -- the nodes on that way
  abbrev pub nodes : (ℕ → Hash) → ℕ → ℕ → ℕ → List Hash
  nodes f l i zero = []
  nodes f l i (suc n) = node f l i ∷ nodes f (suc l) (i / 2) n

  pub length-nodes : (f : ℕ → Hash) (l i n : ℕ) → length (nodes f l i n) ≡ n
  length-nodes f l i zero = refl
  length-nodes f l i (suc n) = ap suc (length-nodes f (suc l) (i / 2) n)

  pub length-siblings : (f : ℕ → Hash) (l i n : ℕ) → length (siblings f l i n) ≡ n
  length-siblings f l i zero = refl
  length-siblings f l i (suc n) = ap suc (length-siblings f (suc l) (i / 2) n)

  -- the tree with another leaf
  abbrev pub update : (ℕ → Hash) → ℕ → Hash → ℕ → Hash
  update f i x j = if j == i then x else f j

  -- A node away from the path of the leaf does not change with it.
  pub node-update_ne :
      (f : ℕ → Hash) (i : ℕ) (x : Hash) (l j : ℕ)
      → j ≢ shr i l
      → node (update f i x) l j ≡ node f l j
  node-update_ne f i x zero j ne = ground (arith, shr-zero i)
  node-update_ne f i x (suc l) j ne =
      ap₂ combine (node-update_ne f i x l (2 * j) (ground (arith, shr-suc i l)))
        (node-update_ne f i x l (2 * j + 1) (ground (arith, shr-suc i l)))

  pub node-update_self : (f : ℕ → Hash) (i : ℕ) (x : Hash) → node (update f i x) 0 i ≡ x
  node-update_self f i x = ground arith

  -- The siblings of a leaf's path do not change with the leaf.
  pub siblings-update_self :
      (f : ℕ → Hash) (i : ℕ) (x : Hash) (l k n : ℕ)
      → k ≡ shr i l
      → siblings (update f i x) l k n ≡ siblings f l k n
  siblings-update_self f i x l k zero e = refl
  siblings-update_self f i x l k (suc n) e =
      ap₂ ◌∷◌ (node-update_ne f i x l (sibling k) (ground (arith, e)))
        (siblings-update_self f i x (suc l) (k / 2) n (ground (arith, shr-suc i l)))

  -- a leaf's proof, and the root, in a tree of the given height
  abbrev pub proof_of : (ℕ → Hash) → ℕ → ℕ → List Hash
  proof_of f i height = siblings f 0 i height

  -- the nodes from a leaf to below the root
  abbrev pub path_of : (ℕ → Hash) → ℕ → ℕ → List Hash
  path_of f i height = nodes f 0 i height

  abbrev pub root_of : (ℕ → Hash) → ℕ → Hash
  root_of f height = node f height 0

module _ (h : Hasher) (lawful : IsLawful h) where
  open h use {Hash}
  open lawful use {combine, zero_at, zero_step}

  -- no leaf from `n` on
  abbrev pub IsEmptyFrom : (ℕ → Hash) → ℕ → Type 0
  IsEmptyFrom f n = (i : ℕ) → n ≤ i → f i ≡ zero_at 0

  -- A node above empty places only is an entry of the table of zeros.
  pub node-empty :
      (f : ℕ → Hash) (n l k : ℕ) → IsEmptyFrom f n → n ≤ k * 2 ^ l → node h lawful f l k ≡ zero_at l
  node-empty f n zero k empty le = empty k (omega arith)
  node-empty f n (suc l) k empty le =
      let doubled : k * 2 ^ suc l ≡ 2 * k * 2 ^ l = omega (arith, ap (λ m. k * m) (pow-suc 2 l)) in
      ap₂ combine (node-empty f n l (2 * k) empty (omega (arith, doubled)))
        (node-empty f n l (2 * k + 1) empty (omega (arith, doubled)))
      ∙ zero_step l

  pub update-IsEmptyFrom :
      (f : ℕ → Hash) (n : ℕ) (x : Hash)
      → IsEmptyFrom f n
      → IsEmptyFrom (update h lawful f n x) (n + 1)
  update-IsEmptyFrom f n x empty i le = ground (arith, empty i)
