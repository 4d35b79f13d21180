-- ===== src/Concurrent/Tree/Update/History.antt =====
-- A proof that is older than the newest changelog entries, and `update` with such a proof.
use light_protocol.Prelude.{
  ℕ, suc, ◌+◌, ◌-◌, ◌^◌, ◌≤◌, ◌<◌, ◌≡◌, ◌≢◌, refl, sym, ap, subst, ◌∙◌, arith, true, false, ok, err,
  List, [], ◌∷◌, ◌++◌, map, some, length, ltb, ◌==◌, if◌then◌else◌, Bool-cases, inl, inr, ◌>>=◌,
  >>=-eq-ok, drop, drop-drop, map_err, lt→ltb, le→leb,
}
use light_protocol.Prelude.Words.{word}
use light_protocol.Prelude.Arith.{advance}
use light_protocol.Hasher.{Hasher, IsLawful, max_height}
use light_protocol.BoundedVec.Plain.{BoundedVec, as_slice}
use light_protocol.BoundedVec.Plain.Refine.{IsValid, length-as_slice}
use light_protocol.BoundedVec.Cyclic
use light_protocol.BoundedVec.Cyclic.Refine.{contents}
use light_protocol.BoundedVec.Cyclic.Iterate.{collect-iter_from, newest_slot}
use light_protocol.Concurrent.Error.{bounded_vec, cannot_update_leaf}
use light_protocol.Concurrent.Path.{TreeError}
use light_protocol.Concurrent.Changelog.{ChangelogEntry, update_proof}
use light_protocol.Concurrent.Changelog.Patch.{update_proof_lem, update_proof_same}
use light_protocol.Concurrent.Leaves.{update, proof_of, path_of, root_of, length-siblings}
use light_protocol.Concurrent.Tree.{ConcurrentMerkleTree, root, changelog_index}
use light_protocol.Concurrent.Tree.Append.Leaf.{Holds}
use light_protocol.Concurrent.Tree.Update
use light_protocol.Concurrent.Tree.Update.{
  changelog_entries, patch_all, update_proof_from_changelog,
}
use light_protocol.Concurrent.Tree.Update.Correct.{Updates, update_leaf_in_tree-Updates}
use light_protocol.Concurrent.Tree.Update.Validate.{validate_proof_complete}

add_two : (n : ℕ) → n + 2 ≡ suc (suc n)
add_two n = omega arith

eq→== : (m n : ℕ) → m ≡ n → (m == n) ≡ true
eq→== m n e = ground arith

no_depth : (d : ℕ) → d ≡ 0 → ltb 0 d ≡ false
no_depth d e = ground arith

module _ (h : Hasher) (lawful : IsLawful h) (height : ℕ) where
  open h use {Hash}

  -- The entries tell the changes that lead from the leaves `f` to the leaves `g`, none of them of
  -- leaf `i`.
  pub data Changes (i : ℕ) : (ℕ → Hash) → List (ChangelogEntry Hash) → (ℕ → Hash) → Type 0 where
    unchanged : (f : ℕ → Hash) → Changes i f [] f
    changed :
        (f g : ℕ → Hash) (x : Hash) (entry : ChangelogEntry Hash)
        (entries : List (ChangelogEntry Hash))
        → i ≢ entry.index
        → entry.index < 2 ^ height
        → entry.path
          ≡ map some (path_of h lawful (update h lawful f entry.index x) entry.index height)
        → Changes i (update h lawful f entry.index x) entries g
        → Changes i f (entry ∷ entries) g

  -- The leaf itself does not change.
  pub Changes-leaf :
      (i : ℕ) (f g : ℕ → Hash) (entries : List (ChangelogEntry Hash))
      → Changes i f entries g
      → g i ≡ f i
  Changes-leaf i f g [] (unchanged _) = refl
  Changes-leaf i f g (entry ∷ entries) (changed _ _ x _ _ ne lt path rest) =
      Changes-leaf i (update h lawful f entry.index x) g entries rest ∙ ground arith

  -- Patching a proof with the entries makes it right after the changes.
  pub patch_all-Changes :
      (i : ℕ) (f g : ℕ → Hash) (entries : List (ChangelogEntry Hash)) (proof : BoundedVec Hash)
      → Changes i f entries g
      → height ≤ 64
      → i < 2 ^ height
      → IsValid proof
      → as_slice proof ≡ proof_of h lawful f i height
      → (proof' : BoundedVec Hash) × (patch_all h height entries i proof ≡ ok proof')
        × IsValid proof'
        × (as_slice proof' ≡ proof_of h lawful g i height)
  unfolding patch_all
  patch_all-Changes i f g [] proof (unchanged _) small lt valid right = (proof, refl, valid, right)
  patch_all-Changes i f g (entry ∷ entries) proof (changed _ _ x _ _ ne room path rest) small lt
        valid right =
      let (proof', p, valid', right') =
        update_proof_lem h lawful f height i x entry proof small lt room ne path valid right in
      let (proof'', q, valid'', right'') =
        patch_all-Changes i (update h lawful f entry.index x) g entries proof' rest small lt valid'
          right' in
      (proof'', rw p q, valid'', right'')

  -- If the changelog entries are changes of other leaves, then one of leaf `i` itself, then
  -- any others, patching a valid proof of leaf `i`, right before the changes, in a tree of
  -- height at most 64, ends with `CannotUpdateLeaf`.
  pub patch_all-same :
      (i : ℕ) (f g : ℕ → Hash) (before after : List (ChangelogEntry Hash))
      (entry : ChangelogEntry Hash) (proof : BoundedVec Hash)
      → Changes i f before g
      → entry.index ≡ i
      → height ≤ 64
      → i < 2 ^ height
      → IsValid proof
      → as_slice proof ≡ proof_of h lawful f i height
      → patch_all h height (before ++ (entry ∷ after)) i proof ≡ err cannot_update_leaf
  unfolding patch_all
  patch_all-same i f g [] after entry proof (unchanged _) same small lt valid right =
      let p : update_proof h height entry i proof ≡ err cannot_update_leaf =
        ap (λ k. update_proof h height entry k proof) (sym same)
        ∙ update_proof_same h lawful height entry proof in
      rw p refl
  patch_all-same i f g (first ∷ before) after entry proof (changed _ _ x _ _ ne room path rest) same
        small lt valid right =
      let (proof', p, valid', right') =
        update_proof_lem h lawful f height i x first proof small lt room ne path valid right in
      rw p (
        patch_all-same i (update h lawful f first.index x) g before after entry proof' rest same
          small lt valid' right')

  -- Where the caller's changelog index points to the `k`-th oldest entry, `changelog_entries`
  -- gives the entries that are newer.
  pub changelog_entries-newer :
      (t : ConcurrentMerkleTree Hash) (k : ℕ)
      → Cyclic.Refine.IsValid t.changelog
      → k < t.changelog.len
      → changelog_entries h height t (advance t.changelog.capacity t.changelog.first_index k)
        ≡ ok (drop (k + 1) (contents t.changelog))
  unfolding changelog_entries
  changelog_entries-newer t k valid lt =
      let (it, p, q) =
        >>=-eq-ok {E = TreeError h}
          (map_err bounded_vec
            (Cyclic.iter_from t.changelog (advance t.changelog.capacity t.changelog.first_index k)))
          _ (collect-iter_from bounded_vec t.changelog k valid lt) in
      rw p (
        ap (λ n. Cyclic.collect {E = TreeError h} n it >>= λ entries. ok (drop 1 entries))
          (add_two t.changelog.capacity)
        ∙ rw q (ap ok (drop-drop 1 k (contents t.changelog))))

  -- Where it points to the newest entry, nothing has changed since.
  Changes-newest :
      (i k : ℕ) (f g : ℕ → Hash) (v : Cyclic.CyclicBoundedVec (ChangelogEntry Hash))
      → Cyclic.Refine.IsValid v
      → k < v.len
      → advance v.capacity v.first_index k ≡ v.last_index
      → Changes i f (drop (k + 1) (contents v)) g
      → f ≡ g
  Changes-newest i k f g v valid lt newest changes =
      nothing f (subst (λ es. Changes i f es g) (newest_slot v k valid lt newest) changes)
    where
      nothing : (f : ℕ → Hash) → Changes i f [] g → f ≡ g
      nothing f (unchanged _) = refl

  -- the proof that `update` validates
  patched :
      (t : ConcurrentMerkleTree Hash) (f g : ℕ → Hash) (i k : ℕ) (proof : BoundedVec Hash)
      → Cyclic.Refine.IsValid t.changelog
      → height ≤ 64
      → i < 2 ^ height
      → k < t.changelog.len
      → Changes i f (drop (k + 1) (contents t.changelog)) g
      → IsValid proof
      → as_slice proof ≡ proof_of h lawful f i height
      → (proof' : BoundedVec Hash) × ((if advance t.changelog.capacity t.changelog.first_index k
              == changelog_index h height t
            then ok proof
            else update_proof_from_changelog h height t
                (advance t.changelog.capacity t.changelog.first_index k)
                i
                proof)
          ≡ ok proof')
        × (as_slice proof' ≡ proof_of h lawful g i height)
  unfolding changelog_index update_proof_from_changelog
  patched t f g i k proof log small lt within changes valid right =
      let c = advance t.changelog.capacity t.changelog.first_index k in
      elim (Bool-cases (c == t.changelog.last_index)) [
        | inl newest ↦
            let same : f ≡ g =
              Changes-newest i k f g t.changelog log within (ground arith) changes in
            (proof, rw newest refl, right ∙ ap (λ l. proof_of h lawful l i height) same)
        | inr older ↦
            let (proof', p, valid', right') =
              patch_all-Changes i f g (drop (k + 1) (contents t.changelog)) proof changes small lt
                valid right in
            (proof', rw (older, changelog_entries-newer t k log within) p, right')
      ]

  update-eq :
      (t t' : ConcurrentMerkleTree Hash) (c i : ℕ) (leaf x : Hash) (proof proof' : BoundedVec Hash)
      → t.canopy_depth ≡ 0
      → proof.len ≡ t.height
      → i < t.next_index
      → (if c == changelog_index h height t
          then ok proof
          else update_proof_from_changelog h height t c i proof)
        ≡ ok proof'
      → Update.validate_proof h height t leaf i proof' ≡ ok tt
      → Update.update_leaf_in_tree h height t x i proof'
        ≡ ok (t', t'.changelog.last_index, t'.sequence_number)
      → Update.update h height t c leaf x i proof
        ≡ ok (t', proof', t'.changelog.last_index, t'.sequence_number)
  unfolding Update.update
  update-eq t t' c i leaf x proof proof' no_canopy size old p accepted q =
      rw
        (
          le→leb t.canopy_depth t.height (omega (arith, no_canopy)),
          eq→== proof.len (t.height - t.canopy_depth) (omega (arith, size, no_canopy)),
          lt→ltb i t.next_index old,
          no_depth t.canopy_depth no_canopy,
          p,
          accepted,
          q,
        )
        refl

  -- Let a tree hold the leaves `g`, with the root of `g` as its current root and without a
  -- canopy, and let a valid proof of leaf `i` be right in the tree of the leaves `f`, where
  -- the changelog entries newer than the given one are the changes that lead from `f` to `g`,
  -- none of them of leaf `i`. Then `update` from the leaf `f i` returns `Ok`: the new tree
  -- holds `g` with leaf `i` replaced, its root is that of these leaves, its well-formedness
  -- is kept, and its newest changelog entry is the path of the new leaf. The conditions on
  -- the height, the indices and the sequence number are those of an append.
  pub update-Updates :
      (t : ConcurrentMerkleTree Hash) (f g : ℕ → Hash) (i k : ℕ) (x : Hash)
      (proof : BoundedVec Hash)
      → Holds h lawful height t g
      → root h height t ≡ ok (root_of h lawful g height)
      → 0 < height
      → height ≤ max_height
      → i < t.next_index
      → t.next_index ≤ 2 ^ height
      → t.sequence_number + 1 < word
      → t.canopy_depth ≡ 0
      → k < t.changelog.len
      → Changes i f (drop (k + 1) (contents t.changelog)) g
      → IsValid proof
      → as_slice proof ≡ proof_of h lawful f i height
      → (t' : ConcurrentMerkleTree Hash) × (proof' : BoundedVec Hash) × (Update.update h height t
            (advance t.changelog.capacity t.changelog.first_index k)
            (f i)
            x
            i
            proof
          ≡ ok (t', proof', t'.changelog.last_index, t'.sequence_number))
        × Updates h lawful height t g i x t'
  update-Updates t f g i k x proof v current pos small old room fits no_canopy lt changes valid
        right =
      let c = advance t.changelog.capacity t.changelog.first_index k in
      let (proof', p, right') =
        patched t f g i k proof v.changelog_valid (omega arith) (omega arith) lt changes valid
          right in
      let (t', q, done) =
        update_leaf_in_tree-Updates h lawful height t g i x proof' v pos small old room fits
          no_canopy right' in
      let size : proof.len ≡ height = omega (
        arith,
        length-as_slice proof valid,
        ap length right,
        length-siblings h lawful f 0 i height,
      ) in
      let accepted : Update.validate_proof h height t (f i) i proof' ≡ ok tt =
        ap (λ y. Update.validate_proof h height t y i proof') (sym (Changes-leaf i f g _ changes))
        ∙ validate_proof_complete h lawful height t g i proof' current (omega arith) (omega arith)
            right' in
      (
        t',
        proof',
        update-eq t t' (advance t.changelog.capacity t.changelog.first_index k) i (f i) x proof
            proof' no_canopy (omega (arith, size, v.same_height)) old p accepted q,
        done,
      )
