-- ===== src/Concurrent/Changelog/Patch.antt =====
-- `update_proof` against the abstract tree: a changelog entry carries a proof over the change.
use light_protocol.Prelude.{
  ℕ, zero, suc, ◌/◌, ◌^◌, ◌≤◌, ◌<◌, ◌≡◌, ◌≢◌, sym, ap, ap₂, ◌∙◌, arith, false, ok, err, ◌∷◌, map,
  some, length, get_elem?, get_elem?_lt, get_elem?-map, set, ◌==◌, Bool-cases, inl, inr,
}
use native.Mathlib.Nat.{pow-suc}
use light_protocol.Prelude.Words.{shr}
use light_protocol.Prelude.Arith.{shr-suc, shr-zero}
use light_protocol.Hasher.{Hasher, IsLawful}
use light_protocol.BoundedVec.Plain.{BoundedVec, as_slice}
use light_protocol.BoundedVec.Plain.Refine.{
  IsValid, changed, index_mut-eq-changed, changed-IsValid, as_slice-changed, length-as_slice,
}
use light_protocol.Concurrent.Error.{cannot_update_leaf}
use light_protocol.Concurrent.Leaves.{
  sibling, node, siblings, nodes, length-nodes, length-siblings, update, node-update_ne,
  siblings-update_self, proof_of, path_of,
}
use light_protocol.Concurrent.Changelog.{ChangelogEntry, update_proof}
use light_protocol.Concurrent.Changelog.Critbit.{critbit, intersection_index_lem}

pub critbit-lt :
    (height i j : ℕ) → i < 2 ^ height → j < 2 ^ height → i ≢ j → critbit height i j < height
critbit-lt zero i j hi hj ne = absurd (omega arith)
critbit-lt (suc n) i j hi hj ne = ground (arith, critbit-lt n (i / 2) (j / 2), pow-suc 2 n)

module _ (h : Hasher) (lawful : IsLawful h) where
  open h use {Hash}

  -- Only the sibling at the level where the paths meet changes with the leaf `j`.
  siblings-patch :
      (f : ℕ → Hash) (j : ℕ) (x : Hash) (l ki kj n : ℕ) {y : Hash}
      → kj ≡ shr j l
      → ki ≢ kj
      → ki < 2 ^ n
      → kj < 2 ^ n
      → get_elem? (nodes h lawful (update h lawful f j x) l kj n) (critbit n ki kj) ≡ some y
      → set (siblings h lawful f l ki n) (critbit n ki kj) y
        ≡ siblings h lawful (update h lawful f j x) l ki n
  siblings-patch f j x l ki kj zero e ne hi hj at = absurd (omega arith)
  siblings-patch f j x l ki kj (suc n) {y} e ne hi hj at = elim (Bool-cases (ki / 2 == kj / 2)) [
    | inl meet ↦
        let level : critbit (suc n) ki kj ≡ 0 = ground arith in
        let beside : kj ≡ sibling ki = ground arith in
        let here : some (node h lawful (update h lawful f j x) l kj) ≡ some y = rw level at at in
        let value : y ≡ node h lawful (update h lawful f j x) l (sibling ki) =
          cc (here, ap (node h lawful (update h lawful f j x) l) beside) in
        let above : siblings h lawful f (suc l) (ki / 2) n
            ≡ siblings h lawful (update h lawful f j x) (suc l) (ki / 2) n =
          sym (
            siblings-update_self h lawful f j x (suc l) (ki / 2) n (ground (arith, shr-suc j l))) in
        rw level (ap₂ ◌∷◌ value above)
    | inr apart ↦
        let level : critbit (suc n) ki kj ≡ suc (critbit n (ki / 2) (kj / 2)) = ground arith in
        let kept : node h lawful f l (sibling ki)
            ≡ node h lawful (update h lawful f j x) l (sibling ki) =
          sym (node-update_ne h lawful f j x l (sibling ki) (ground (arith, e))) in
        rw level (
          ap₂ ◌∷◌ kept (
            siblings-patch f j x (suc l) (ki / 2) (kj / 2) n (ground (arith, shr-suc j l))
              (ground arith) (omega (arith, pow-suc 2 n)) (omega (arith, pow-suc 2 n))
              (rw level at at)))
  ]

  -- Let a valid proof be right for leaf `i` in a tree of height at most 64, and let the entry
  -- hold the path of another leaf in the tree after that leaf changed. Then `update_proof`
  -- returns `Ok`, and leaves a valid proof that is right for leaf `i` in the changed tree.
  pub update_proof_lem :
      (f : ℕ → Hash) (height i : ℕ) (x : Hash) (entry : ChangelogEntry Hash)
      (proof : BoundedVec Hash)
      → height ≤ 64
      → i < 2 ^ height
      → entry.index < 2 ^ height
      → i ≢ entry.index
      → entry.path
        ≡ map some (path_of h lawful (update h lawful f entry.index x) entry.index height)
      → IsValid proof
      → as_slice proof ≡ proof_of h lawful f i height
      → (proof' : BoundedVec Hash) × (update_proof h height entry i proof ≡ ok proof')
        × IsValid proof'
        × (as_slice proof' ≡ proof_of h lawful (update h lawful f entry.index x) i height)
  unfolding update_proof
  update_proof_lem f height i x entry proof small hi hj ne path valid right =
      let j = entry.index in
      let f' = update h lawful f j x in
      let c = critbit height i j in
      let below : c < height = critbit-lt height i j hi hj ne in
      let (y, at) =
        get_elem?_lt (nodes h lawful f' 0 j height) c
          (omega (arith, length-nodes h lawful f' 0 j height)) in
      let other : (i == j) ≡ false = ground arith in
      let path_at : get_elem? entry.path c ≡ some (some y) =
        ap (λ p. get_elem? p c) path ∙ get_elem?-map some (nodes h lawful f' 0 j height) c at in
      let in_proof : c < proof.len = omega (
        arith,
        length-as_slice proof valid,
        ap length right,
        length-siblings h lawful f 0 i height,
      ) in
      (
        changed proof c y,
        rw (other, intersection_index_lem h height i entry small hi hj ne, path_at)
            (index_mut-eq-changed proof c y valid in_proof),
        changed-IsValid proof c y valid,
        as_slice-changed proof c y valid in_proof
            ∙ ap (λ s. set s c y) right
            ∙ siblings-patch f j x 0 i j height (sym (shr-zero j)) ne hi hj at,
      )

  -- A proof of the changed leaf itself is refused.
  pub update_proof_same :
      (height : ℕ) (entry : ChangelogEntry Hash) (proof : BoundedVec Hash)
      → update_proof h height entry entry.index proof ≡ err cannot_update_leaf
  unfolding update_proof
  update_proof_same height entry proof = ground arith
