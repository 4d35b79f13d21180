-- ===== src/Concurrent/Tree/Update/Filled.antt =====
-- `filled_subtrees` when a leaf of a tree that is not full changes.
use light_protocol.Prelude.{
  ℕ, zero, suc, ◌+◌, ◌-◌, ◌/◌, ◌%◌, ◌^◌, ◌≤◌, ◌<◌, ◌≡◌, ◌≢◌, sym, ap, ap₂, ◌∙◌, arith, false, ok,
  map, some, get_elem?, get_elem?_lt, get_elem?-map, get_elem?-set_self, get_elem?-set_ne, ◌==◌,
  Bool-cases, inl, inr,
}
use native.Mathlib.Nat.{pow-suc, mul_comm, div-div-eq-div-mul}
use light_protocol.Prelude.Words.{shr}
use light_protocol.Prelude.Arith.{shr-suc, shr-zero}
use light_protocol.Hasher.{Hasher, IsLawful}
use light_protocol.BoundedVec.Plain.{BoundedVec, as_slice}
use light_protocol.BoundedVec.Plain.Refine.{
  IsValid, changed, index_mut-eq-changed, changed-IsValid, as_slice-changed, length-as_slice,
}
use light_protocol.Concurrent.Leaves.{node, nodes, length-nodes, update, node-update_ne, path_of}
use light_protocol.Concurrent.Changelog.{ChangelogEntry, update_proof}
use light_protocol.Concurrent.Changelog.Critbit.{critbit, intersection_index_lem}
use light_protocol.Concurrent.Changelog.Patch.{critbit-lt}
use light_protocol.Concurrent.Tree.Append.Levels.{IsFilled}

shr-half : (i l : ℕ) → i / 2 ^ suc l ≡ i / 2 / 2 ^ l
shr-half i l =
    ap (λ k. i / k) (pow-suc 2 l)
    ∙ ap (λ k. i / k) (mul_comm (2 ^ l) 2)
    ∙ sym (div-div-eq-div-mul i 2 (2 ^ l))

-- Where the paths of two leaves meet, the left one is the sibling of the right one.
pub shr-critbit :
    (height i j : ℕ)
    → i < 2 ^ height
    → j < i
    → (shr i (critbit height i j) % 2 ≡ 1)
      × (shr j (critbit height i j) ≡ shr i (critbit height i j) - 1)
shr-critbit zero i j hi lt = absurd (omega arith)
shr-critbit (suc n) i j hi lt = elim (Bool-cases (i / 2 == j / 2)) [
  | inl meet ↦
      let level : critbit (suc n) i j ≡ 0 = ground arith in
      rw level (rw (shr-zero i, shr-zero j) (ground arith, ground arith))
  | inr apart ↦
      let level : critbit (suc n) i j ≡ suc (critbit n (i / 2) (j / 2)) = ground arith in
      let (odd, left) = shr-critbit n (i / 2) (j / 2) (omega (arith, pow-suc 2 n)) (ground arith) in
      rw level (
        rw (shr-half i (critbit n (i / 2) (j / 2)), shr-half j (critbit n (i / 2) (j / 2)))
          (odd, left))
]

-- and they meet nowhere else
pub critbit_unique :
    (height i j l : ℕ)
    → l < height
    → shr i l % 2 ≡ 1
    → shr j l ≡ shr i l - 1
    → critbit height i j ≡ l
critbit_unique zero i j l lt odd left = absurd (omega arith)
critbit_unique (suc n) i j zero lt odd left = ground (arith, shr-zero i, shr-zero j)
critbit_unique (suc n) i j (suc l) lt odd left =
    let rest : critbit n (i / 2) (j / 2) ≡ l =
      critbit_unique n (i / 2) (j / 2) l (omega arith) (omega (arith, odd, shr-half i l))
        (omega (arith, left, shr-half i l, shr-half j l)) in
    let apart : i / 2 ≢ j / 2 =
      λ e. absurd (omega (arith, odd, left, shr-half i l, shr-half j l, ap (λ k. k / 2 ^ l) e)) in
    ground arith

-- A full tree has no slot of an odd position.
pub shr_full : (height l : ℕ) → l < height → shr (2 ^ height) l % 2 ≡ 0
shr_full zero l lt = absurd (omega arith)
shr_full (suc n) zero lt = omega (arith, pow-suc 2 n, shr-zero (2 ^ suc n))
shr_full (suc n) (suc l) lt =
    let half : 2 ^ suc n / 2 ≡ 2 ^ n = omega (arith, pow-suc 2 n) in
    omega (arith, shr-half (2 ^ suc n) l, ap (λ k. shr k l) half, shr_full n l (omega arith))

module _ (h : Hasher) (lawful : IsLawful h) where
  open h use {Hash}

  pub get_elem?-nodes :
      (f : ℕ → Hash) (j l k n m : ℕ)
      → k ≡ shr j l
      → m < n
      → get_elem? (nodes h lawful f l k n) m ≡ some (node h lawful f (l + m) (shr j (l + m)))
  get_elem?-nodes f j l k zero m e lt = absurd (omega arith)
  get_elem?-nodes f j l k (suc n) zero e lt =
      ap (λ i. some (node h lawful f l i)) e
      ∙ ap (λ i. some (node h lawful f i (shr j i))) (omega arith)
  get_elem?-nodes f j l k (suc n) (suc m) e lt =
      get_elem?-nodes f j (suc l) (k / 2) n m (ap (λ i. i / 2) e ∙ sym (shr-suc j l)) (omega arith)
      ∙ ap (λ i. some (node h lawful f i (shr j i))) (omega arith)

  -- The entry of a changed leaf among the leaves of the tree carries `filled_subtrees` over the
  -- change: it is patched as if it were the proof of the next leaf.
  pub IsFilled-update_proof :
      (height : ℕ) (f : ℕ → Hash) (n : ℕ) (x : Hash) (entry : ChangelogEntry Hash)
      (filled : BoundedVec Hash)
      → height ≤ 64
      → n < 2 ^ height
      → entry.index < n
      → entry.path
        ≡ map some (path_of h lawful (update h lawful f entry.index x) entry.index height)
      → IsValid filled
      → filled.len ≡ height
      → IsFilled h lawful height f n height (as_slice filled)
      → (filled' : BoundedVec Hash) × (update_proof h height entry n filled ≡ ok filled')
        × IsValid filled'
        × (filled'.len ≡ height)
        × IsFilled h lawful height (update h lawful f entry.index x) n height (as_slice filled')
  unfolding update_proof
  IsFilled-update_proof height f n x entry filled small room before path valid size right =
      let j = entry.index in
      let f' = update h lawful f j x in
      let c = critbit height n j in
      let (odd, left) = shr-critbit height n j room before in
      let ne : n ≢ j = omega arith in
      let below : c < height = critbit-lt height n j room (omega arith) ne in
      let (y, at) =
        get_elem?_lt (nodes h lawful f' 0 j height) c
          (omega (arith, length-nodes h lawful f' 0 j height)) in
      let from_zero : 0 + c ≡ c = omega arith in
      let other : (n == j) ≡ false = ground arith in
      let path_at : get_elem? entry.path c ≡ some (some y) =
        ap (λ p. get_elem? p c) path ∙ get_elem?-map some (nodes h lawful f' 0 j height) c at in
      (
        changed filled c y,
        rw (other, intersection_index_lem h height n entry small room (omega arith) ne, path_at)
            (index_mut-eq-changed filled c y valid (omega arith)),
        changed-IsValid filled c y valid,
        size,
        λ l lt is_odd. elim (Bool-cases (l == c)) [
          | inl here ↦
              let e : l ≡ c = ground arith in
              rw (as_slice-changed filled c y valid (omega arith), e)
                (get_elem?-set_self (as_slice filled) c y
                    (omega (arith, length-as_slice filled valid))
                  ∙ sym at
                  ∙ get_elem?-nodes f' j 0 j height c (sym (shr-zero j)) below
                  ∙ ap some (ap₂ (node h lawful f') (omega arith) (ap (shr j) from_zero ∙ left)))
          | inr away ↦ rw (as_slice-changed filled c y valid (omega arith)) (
              get_elem?-set_ne (as_slice filled) c l y (ground arith)
              ∙ right l lt is_odd
              ∙ ap some (
                  sym (
                    node-update_ne h lawful f j x l (shr n l - 1) (λ e.
                      absurd (ground (arith, critbit_unique height n j l lt is_odd (sym e)))))))
        ],
      )
