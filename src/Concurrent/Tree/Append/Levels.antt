-- ===== src/Concurrent/Tree/Append/Levels.antt =====
-- The loop of an append over the levels, against the abstract tree.
use light_protocol.Prelude.{
  ℕ, suc, ◌+◌, ◌-◌, ◌/◌, ◌%◌, ◌≤◌, ◌<◌, ◌≡◌, ◌≢◌, sym, ap, ap₂, ◌∙◌, arith, Bool, true, false, ok,
  List, [], ◌∷◌, Option, none, some, length, get_elem?, get_elem?-set_self, get_elem?-set_ne, set,
  ltb, ◌==◌, if◌then◌else◌, Bool-cases, inl, inr, add-one,
}
use light_protocol.Prelude.Words.{shr}
use light_protocol.Prelude.Arith.{shr-suc, carry, lt-shr_next}
use light_protocol.Hasher.{Hasher, IsLawful, max_height}
use light_protocol.BoundedVec.Plain.{as_slice, index_mut}
use light_protocol.BoundedVec.Plain.Refine.{
  IsValid, changed, index_mut-eq-changed, as_slice-changed, length-as_slice, index_refines,
}
use light_protocol.Concurrent.Leaves.{
  node, update, node-update_ne, node-empty, update-IsEmptyFrom, IsEmptyFrom,
}
use light_protocol.Concurrent.Tree.Append.{Climb, next_level, left_level, right_level}

module _ (h : Hasher) (lawful : IsLawful h) (height_const : ℕ) where
  open h use {Hash, hashv}
  open lawful use {combine, hashv_pair, zero_at}

  -- the slots of `filled` are those of the tree `f` with `n` leaves
  abbrev pub IsFilled : (ℕ → Hash) → ℕ → ℕ → List Hash → Type 0
  IsFilled f n height filled =
      (l : ℕ)
      → l < height
      → shr n l % 2 ≡ 1
      → get_elem? filled l ≡ some (node h lawful f l (shr n l - 1))

  -- The state at level `i` of the loop that appends leaf `n` of the tree `f'`; `old` is what
  -- `filled` held before.
  pub record IsAt (f' : ℕ → Hash) (n height : ℕ) (old : List Hash) (i : ℕ) (s : Climb Hash)
      : Type 0 where
    pub at_index : s.current_index ≡ shr n i
    pub at_node : s.current_node ≡ node h lawful f' i (shr n i)
    pub no_proof : s.proof ≡ none
    pub valid : IsValid s.filled
    pub size : s.filled.len ≡ height
    pub path_size : length s.path ≡ height
    pub kept :
        (l : ℕ) → l < height → shr n l % 2 ≡ 1 → get_elem? (as_slice s.filled) l ≡ get_elem? old l
    pub stored :
        (l : ℕ)
        → l < i
        → shr n l % 2 ≡ 0
        → carry n l ≡ true
        → get_elem? (as_slice s.filled) l ≡ some (node h lawful f' l (shr n l))
    pub path_at :
        (l : ℕ)
        → l ≤ i
        → l < height
        → get_elem? s.path l ≡ some (some (node h lawful f' l (shr n l)))

  -- what the end of the body leaves
  abbrev pub ascended : Climb Hash → ℕ → ℕ → Hash → Climb Hash
  ascended s height i node = record s {
    path = if ltb i (height - 1) then set s.path (i + 1) (some node) else s.path;
    current_index = s.current_index / 2;
    current_node = node;
  }

  next_level-eq-ascended :
      (height i : ℕ) (s : Climb Hash) (node : Hash)
      → i < height
      → length s.path ≡ height
      → next_level h height_const height i s node ≡ ok (ascended s height i node)
  unfolding next_level
  next_level-eq-ascended height i s node lt e = ground (arith, e)

  pub path_step :
      (f' : ℕ → Hash) (n height i : ℕ) (path : List (Option Hash)) (x : Hash)
      → length path ≡ height
      → x ≡ node h lawful f' (suc i) (shr n (suc i))
      → ((l : ℕ)
          → l ≤ i
          → l < height
          → get_elem? path l ≡ some (some (node h lawful f' l (shr n l))))
      → (l : ℕ) → l ≤ suc i
      → l < height
      → get_elem? (if ltb i (height - 1) then set path (i + 1) (some x) else path) l
        ≡ some (some (node h lawful f' l (shr n l)))
  path_step f' n height i path x e value below l le lt = elim (Bool-cases (l == suc i)) [
    | inl top ↦
        let here : l ≡ suc i = ground arith in
        let room : ltb i (height - 1) ≡ true = ground arith in
        rw (room, here, add-one i)
          (get_elem?-set_self path (suc i) (some x) (omega arith) ∙ ap (λ y. some (some y)) value)
    | inr other ↦ elim (Bool-cases (ltb i (height - 1))) [
      | inl room ↦
          rw room
            (get_elem?-set_ne path (i + 1) l (some x) (ground arith) ∙ below l (ground arith) lt)
      | inr last ↦ rw last (below l (ground arith) lt)
    ]
  ]

  module _ (f : ℕ → Hash) (n height : ℕ) (leaf : Hash) (old : List Hash) where
    -- the node that the loop computes at level `i`
    abbrev pub up : ℕ → Hash
    up i = node h lawful (update h lawful f n leaf) i (shr n i)

    right_parent :
        (i : ℕ) → shr n i % 2 ≡ 1 → combine (node h lawful f i (shr n i - 1)) (up i) ≡ up (suc i)
    right_parent i odd =
        ap₂ combine
          (sym (node-update_ne h lawful f n leaf i (shr n i - 1) (ground arith))
            ∙ ap (node h lawful (update h lawful f n leaf) i) (ground (arith, shr-suc n i)))
          (ap (node h lawful (update h lawful f n leaf) i) (ground (arith, shr-suc n i)))

    left_parent :
        (i : ℕ)
        → IsEmptyFrom h lawful f n
        → shr n i % 2 ≡ 0
        → combine (up i) (zero_at i) ≡ up (suc i)
    left_parent i empty even =
        ap₂ combine (ap (node h lawful (update h lawful f n leaf) i) (ground (arith, shr-suc n i)))
          (sym (
              node-empty h lawful (update h lawful f n leaf) (n + 1) i (shr n i + 1)
                (update-IsEmptyFrom h lawful f n leaf empty) (lt-shr_next n i))
            ∙ ap (node h lawful (update h lawful f n leaf) i) (ground (arith, shr-suc n i)))

    pub right_level_lem :
        (i : ℕ) (s : Climb Hash)
        → IsAt (update h lawful f n leaf) n height old i s
        → IsFilled f n height old
        → i < height
        → shr n i % 2 ≡ 1
        → right_level h height_const height i s ≡ ok (ascended s height i (up (suc i)), true)
    unfolding right_level
    right_level_lem i s at filled lt odd =
        let left : get_elem? (as_slice s.filled) i ≡ some (node h lawful f i (shr n i - 1)) =
          at.kept i lt odd ∙ filled i lt odd in
        let next : hashv (node h lawful f i (shr n i - 1) ∷ s.current_node ∷ []) ≡ ok (up (suc i)) =
          hashv_pair _ _
          ∙ ap ok
              (ap (combine (node h lawful f i (shr n i - 1))) at.at_node ∙ right_parent i odd) in
        rw (index_refines s.filled i at.valid, left, at.no_proof, next)
          (rw (
            next_level-eq-ascended height i (record s { proof = none }) (up (suc i)) lt
              at.path_size))

    -- the state with the current node stored in `filled_subtrees`
    abbrev pub stored_at : Climb Hash → ℕ → Climb Hash
    stored_at s i = record s { filled = changed s.filled i s.current_node }

    written {κ} :
        {E : Type κ} (i : ℕ) (s : Climb Hash)
        → IsAt (update h lawful f n leaf) n height old i s
        → i < height
        → index_mut {E = E} s.filled i s.current_node ≡ ok (changed s.filled i s.current_node)
    written i s at lt = index_mut-eq-changed s.filled i s.current_node at.valid (rw at.size lt)

    pub left_level_lem :
        (terminal : Bool) (i : ℕ) (s : Climb Hash)
        → IsAt (update h lawful f n leaf) n height old i s
        → IsEmptyFrom h lawful f n
        → i < height
        → i ≤ max_height
        → shr n i % 2 ≡ 0
        → left_level h height_const height terminal i s ≡ (
            if terminal
            then ok (ascended (stored_at s i) height i (up (suc i)), true)
            else ok (stored_at s i, false))
    unfolding left_level
    left_level_lem true i s at empty lt small even =
        let next : hashv (s.current_node ∷ zero_at i ∷ []) ≡ ok (up (suc i)) =
          hashv_pair _ _
          ∙ ap ok (ap (λ c. combine c (zero_at i)) at.at_node ∙ left_parent i empty even) in
        rw (lawful.zero_table i small, at.no_proof, written i s at lt, next)
          (rw (
            next_level-eq-ascended height i
              (record s { filled = changed s.filled i s.current_node; proof = none }) (up (suc i))
              lt at.path_size))
    left_level_lem false i s at empty lt small even =
        rw (lawful.zero_table i small, at.no_proof, written i s at lt)

    -- The current node on the left is stored; the slots of odd positions are not touched.
    pub stored_at-kept :
        (i : ℕ) (s : Climb Hash)
        → IsAt (update h lawful f n leaf) n height old i s
        → i < height
        → shr n i % 2 ≡ 0
        → (l : ℕ) → l < height
        → shr n l % 2 ≡ 1
        → get_elem? (as_slice (changed s.filled i s.current_node)) l ≡ get_elem? old l
    stored_at-kept i s at lt even l below odd =
        rw (as_slice-changed s.filled i s.current_node at.valid (rw at.size lt)) (
          get_elem?-set_ne (as_slice s.filled) i l s.current_node (parity_ne i l even odd)
          ∙ at.kept l below odd)
      where
        parity_ne : (i l : ℕ) → shr n i % 2 ≡ 0 → shr n l % 2 ≡ 1 → i ≢ l
        parity_ne i l even odd e = absurd (omega (arith, ap (λ k. shr n k % 2) e))

    pub stored_at-stored :
        (i : ℕ) (s : Climb Hash)
        → IsAt (update h lawful f n leaf) n height old i s
        → i < height
        → (l : ℕ) → l < suc i
        → shr n l % 2 ≡ 0
        → carry n l ≡ true
        → get_elem? (as_slice (changed s.filled i s.current_node)) l ≡ some (up l)
    stored_at-stored i s at lt l below even carried =
        rw (as_slice-changed s.filled i s.current_node at.valid (rw at.size lt))
          (elim (Bool-cases (l == i)) [
            | inl here ↦
                let e : l ≡ i = ground arith in
                rw e (
                  get_elem?-set_self (as_slice s.filled) i s.current_node
                    (rw (length-as_slice s.filled at.valid, at.size) lt)
                  ∙ ap some at.at_node)
            | inr away ↦
                get_elem?-set_ne (as_slice s.filled) i l s.current_node (ground arith)
                ∙ at.stored l (ground arith) even carried
          ])
