-- ===== src/Concurrent/Tree/Append/Loop.antt =====
-- The whole loop of an append over the levels.
use light_protocol.Prelude.{
  ℕ, zero, suc, ◌+◌, ◌-◌, ◌/◌, ◌%◌, ◌≤◌, ◌<◌, ◌≡◌, refl, sym, ap, subst, ◌∙◌, arith, Bool, true,
  false, ok, List, Option, none, some, length, get_elem?, length-set, set, ltb, ◌==◌, if◌then◌else◌,
  Bool-cases, inl, inr, add-one,
}
use light_protocol.Prelude.Words.{shr}
use light_protocol.Prelude.Arith.{shr-suc, carry, shr-add_one, carry_reach}
use light_protocol.Hasher.{Hasher, IsLawful, max_height}
use light_protocol.BoundedVec.Plain.{as_slice}
use light_protocol.BoundedVec.Plain.Refine.{IsValid, changed-IsValid}
use light_protocol.Concurrent.Leaves.{node, update, IsEmptyFrom, node-update_ne}
use light_protocol.Concurrent.Tree.Append.{Climb, climb_levels}
use light_protocol.Concurrent.Tree.Append.Levels.{
  IsFilled, IsAt, ascended, path_step, up, right_level_lem, left_level_lem, stored_at,
  stored_at-kept, stored_at-stored,
}

module _ (h : Hasher) (lawful : IsLawful h) (height_const : ℕ) (f : ℕ → h.Hash) (n height : ℕ)
    (leaf : h.Hash) (old : List h.Hash) where
  open h use {Hash}

  abbrev Here : ℕ → Climb Hash → Type 0
  Here i s = IsAt h lawful height_const (update h lawful f n leaf) n height old i s

  abbrev above : ℕ → Hash
  above i = up h lawful height_const f n height leaf old i

  abbrev ascend : Climb Hash → ℕ → Climb Hash
  ascend s i = ascended h lawful height_const s height i (above (suc i))

  abbrev store : Climb Hash → ℕ → Climb Hash
  store s i = stored_at h lawful height_const f n height leaf old s i

  length-path :
      (i : ℕ) (path : List (Option Hash)) (x : Hash)
      → length (if ltb i (height - 1) then set path (i + 1) (some x) else path) ≡ length path
  length-path i path x = elim (Bool-cases (ltb i (height - 1))) [
    | inl room ↦ rw room (length-set path (i + 1) (some x))
    | inr last ↦ rw last
  ]

  ascend-right :
      (i : ℕ) (s : Climb Hash) → Here i s → i < height → shr n i % 2 ≡ 1 → Here (suc i) (ascend s i)
  ascend-right i s at lt odd = record {
    at_index = ap (λ k. k / 2) at.at_index ∙ sym (shr-suc n i);
    at_node = refl;
    no_proof = at.no_proof;
    valid = at.valid;
    size = at.size;
    path_size = length-path i s.path (above (suc i)) ∙ at.path_size;
    kept = at.kept;
    stored = λ l below even carried. at.stored l (lower l below even) even carried;
    path_at =
        path_step h lawful height_const (update h lawful f n leaf) n height i s.path (above (suc i))
          at.path_size refl at.path_at;
  }
    where
      lower : (l : ℕ) → l < suc i → shr n l % 2 ≡ 0 → l < i
      lower l below even = elim (Bool-cases (l == i)) [
        | inl e ↦
            let same : l ≡ i = ground arith in absurd (omega (arith, ap (λ k. shr n k % 2) same))
        | inr e ↦ ground arith
      ]

  ascend-left :
      (i : ℕ) (s : Climb Hash)
      → Here i s
      → i < height
      → shr n i % 2 ≡ 0
      → Here (suc i) (ascend (store s i) i)
  ascend-left i s at lt even = record {
    at_index = ap (λ k. k / 2) at.at_index ∙ sym (shr-suc n i);
    at_node = refl;
    no_proof = at.no_proof;
    valid = changed-IsValid s.filled i s.current_node at.valid;
    size = at.size;
    path_size = length-path i s.path (above (suc i)) ∙ at.path_size;
    kept = stored_at-kept h lawful height_const f n height leaf old i s at lt even;
    stored = stored_at-stored h lawful height_const f n height leaf old i s at lt;
    path_at =
        path_step h lawful height_const (update h lawful f n leaf) n height i s.path (above (suc i))
          at.path_size refl at.path_at;
  }

  even_test : (i : ℕ) (s : Climb Hash) → Here i s → (s.current_index % 2 == 0) ≡ (shr n i % 2 == 0)
  even_test i s at = ap (λ k. k % 2 == 0) at.at_index

  climb-right :
      (terminal : Bool) (m i : ℕ) (s : Climb Hash)
      → IsFilled h lawful height_const f n height old
      → Here i s
      → i < height
      → (shr n i % 2 == 0) ≡ false
      → climb_levels h height_const height terminal (suc m) i s
        ≡ climb_levels h height_const height terminal m (suc i) (ascend s i)
  unfolding climb_levels
  climb-right terminal m i s filled at lt odd =
      rw
        (
          even_test i s at ∙ odd,
          right_level_lem h lawful height_const f n height leaf old i s at filled lt (ground arith),
        )
        (ap (λ k. climb_levels h height_const height terminal m k (ascend s i)) (add-one i))

  climb-left :
      (m i : ℕ) (s : Climb Hash)
      → IsEmptyFrom h lawful f n
      → Here i s
      → i < height
      → height ≤ max_height
      → (shr n i % 2 == 0) ≡ true
      → climb_levels h height_const height true (suc m) i s
        ≡ climb_levels h height_const height true m (suc i) (ascend (store s i) i)
  unfolding climb_levels
  climb-left m i s empty at lt small even =
      rw
        (
          even_test i s at ∙ even,
          left_level_lem h lawful height_const f n height leaf old true i s at empty lt
              (omega arith) (ground arith),
        )
        (ap (λ k. climb_levels h height_const height true m k (ascend (store s i) i)) (add-one i))

  climb-stop :
      (m i : ℕ) (s : Climb Hash)
      → IsEmptyFrom h lawful f n
      → Here i s
      → i < height
      → height ≤ max_height
      → (shr n i % 2 == 0) ≡ true
      → climb_levels h height_const height false (suc m) i s ≡ ok (store s i)
  unfolding climb_levels
  climb-stop m i s empty at lt small even = rw (
    even_test i s at ∙ even,
    left_level_lem h lawful height_const f n height leaf old false i s at empty lt (omega arith)
        (ground arith),
  )

  -- For the last leaf of a batch the loop climbs to the root.
  pub climb_terminal :
      (m i : ℕ) (s : Climb Hash)
      → i + m ≡ height
      → height ≤ max_height
      → IsEmptyFrom h lawful f n
      → IsFilled h lawful height_const f n height old
      → IsAt h lawful height_const (update h lawful f n leaf) n height old i s
      → (s' : Climb Hash) × (climb_levels h height_const height true m i s ≡ ok s')
        × IsAt h lawful height_const (update h lawful f n leaf) n height old height s'
  climb_terminal zero i s e small empty filled at =
      (s, unfold climb_levels in refl, subst (λ k. Here k s) (omega arith) at)
  climb_terminal (suc m) i s e small empty filled at =
      let lt : i < height = omega arith in
      elim (Bool-cases (shr n i % 2 == 0)) [
        | inl even ↦
            let (s', p, done) =
              climb_terminal m (suc i) (ascend (store s i) i) (omega arith) small empty filled
                (ascend-left i s at lt (ground arith)) in
            (s', climb-left m i s empty at lt small even ∙ p, done)
        | inr odd ↦
            let (s', p, done) =
              climb_terminal m (suc i) (ascend s i) (omega arith) small empty filled
                (ascend-right i s at lt (ground arith)) in
            (s', climb-right true m i s filled at lt odd ∙ p, done)
      ]

  -- what the loop leaves in `filled_subtrees`, for any leaf of a batch
  pub record IsKept (s : Climb Hash) : Type 0 where
    pub valid : IsValid s.filled
    pub size : s.filled.len ≡ height
    pub no_proof : s.proof ≡ none
    pub path_size : length s.path ≡ height
    pub kept :
        (l : ℕ) → l < height → shr n l % 2 ≡ 1 → get_elem? (as_slice s.filled) l ≡ get_elem? old l
    pub stored :
        (l : ℕ)
        → l < height
        → shr n l % 2 ≡ 0
        → carry n l ≡ true
        → get_elem? (as_slice s.filled) l
          ≡ some (node h lawful (update h lawful f n leaf) l (shr n l))

  pub IsKept-of_done :
      (s : Climb Hash)
      → IsAt h lawful height_const (update h lawful f n leaf) n height old height s
      → IsKept s
  IsKept-of_done s at = record {
    valid = at.valid;
    size = at.size;
    no_proof = at.no_proof;
    path_size = at.path_size;
    kept = at.kept;
    stored = at.stored;
  }

  -- For another leaf it stops at the first left position, and everything that the next leaf
  -- needs is stored.
  pub climb_partial :
      (m i : ℕ) (s : Climb Hash)
      → i + m ≡ height
      → height ≤ max_height
      → IsEmptyFrom h lawful f n
      → IsFilled h lawful height_const f n height old
      → carry n i ≡ true
      → IsAt h lawful height_const (update h lawful f n leaf) n height old i s
      → (s' : Climb Hash) × (climb_levels h height_const height false m i s ≡ ok s') × IsKept s'
  climb_partial zero i s e small empty filled c at =
      (s, unfold climb_levels in refl, IsKept-of_done s (subst (λ k. Here k s) (omega arith) at))
  climb_partial (suc m) i s e small empty filled c at =
      let lt : i < height = omega arith in
      elim (Bool-cases (shr n i % 2 == 0)) [
        | inl even ↦ (
          store s i,
          climb-stop m i s empty at lt small even,
          record {
            valid = changed-IsValid s.filled i s.current_node at.valid;
            size = at.size;
            no_proof = at.no_proof;
            path_size = at.path_size;
            kept =
                stored_at-kept h lawful height_const f n height leaf old i s at lt (ground arith);
            stored = λ l below zero_bit carried.
                stored_at-stored h lawful height_const f n height leaf old i s at lt l
                  (carry_reach n l i (ground arith) carried) zero_bit carried;
          },
        )
        | inr odd ↦
            let (s', p, done) =
              climb_partial m (suc i) (ascend s i) (omega arith) small empty filled (ground arith)
                (ascend-right i s at lt (ground arith)) in
            (s', climb-right false m i s filled at lt odd ∙ p, done)
      ]

  -- The slots are those of the tree with the leaf appended.
  pub IsKept-IsFilled :
      (s : Climb Hash)
      → IsFilled h lawful height_const f n height old
      → IsKept s
      → IsFilled h lawful height_const (update h lawful f n leaf) (n + 1) height (as_slice s.filled)
  IsKept-IsFilled s filled k l lt odd = elim (Bool-cases (carry n l)) [
    | inl carried ↦
        let e : shr (n + 1) l ≡ shr n l + 1 = rw carried at (shr-add_one n l) in
        k.stored l lt (omega (arith, e)) carried
        ∙ ap (λ j. some (node h lawful (update h lawful f n leaf) l j)) (omega (arith, e))
    | inr stopped ↦
        let e : shr (n + 1) l ≡ shr n l = rw stopped at (shr-add_one n l) in
        let odd' : shr n l % 2 ≡ 1 = omega (arith, e) in
        k.kept l lt odd'
        ∙ filled l lt odd'
        ∙ ap some (
            sym (node-update_ne h lawful f n leaf l (shr n l - 1) (omega (arith, e)))
            ∙ ap (node h lawful (update h lawful f n leaf) l) (omega (arith, e)))
  ]
