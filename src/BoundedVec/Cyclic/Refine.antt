-- ===== src/BoundedVec/Cyclic/Refine.antt =====
-- A valid `CyclicBoundedVec` holds the newest elements that were pushed, oldest first.
use light_protocol.Prelude.{
  ℕ, zero, suc, ◌+◌, ◌-◌, ◌%◌, ◌≤◌, ◌<◌, ◌≡◌, refl, ap, ◌∙◌, ◌⊎◌, inl, inr, true, List, [], ◌∷◌,
  ◌++◌, Option, none, some, ok, arith, length, set, drop, length-set, length-replicate, ltb, ◌==◌,
  if◌then◌else◌, map_ok, add-one, Bool-cases, lt→ltb, mod-lt,
}
use light_protocol.Prelude.Arith.{advance, advance_closed, advance-ne, step-mod}
use light_protocol.BoundedVec.Cells.{
  cell, Written, Written-set_end, Written-set, cell-Written, cell-set_self, cell-set_ne,
}
use light_protocol.BoundedVec.Cyclic.{CyclicBoundedVec, with_capacity, push, inc_first_index}

module _ {ℓ} {A : Type ℓ} where
  abbrev cons_cell : Option A → List A → List A
  cons_cell none xs = xs
  cons_cell (some x) xs = x ∷ xs

  -- the elements of `n` slots from slot `h` on, going round
  abbrev pub walk : List (Option A) → ℕ → ℕ → ℕ → List A
  walk cells cap h zero = []
  walk cells cap h (suc n) = cons_cell (cell cells h) (walk cells cap ((h + 1) % cap) n)

  -- the elements, oldest first
  abbrev pub contents : CyclicBoundedVec A → List A
  contents v = walk v.buffer v.capacity v.first_index v.len

  -- Before the vector is full the elements stand from slot 0 on; then `first_index` follows
  -- `last_index`.
  abbrev pub Shape : CyclicBoundedVec A → Type 0
  Shape v =
      ((v.len < v.capacity) × (v.first_index ≡ 0) × (v.last_index ≡ v.len - 1))
      ⊎ ((v.len ≡ v.capacity)
          × (v.last_index < v.capacity)
          × (v.first_index ≡ (v.last_index + 1) % v.capacity))

  pub record IsValid (v : CyclicBoundedVec A) : Type 0 where
    pub storage : length v.buffer ≡ v.capacity
    pub positive : 0 < v.capacity
    pub within : v.len ≤ v.capacity
    pub written : Written v.len v.buffer
    pub shape : Shape v

  pub with_capacity-IsValid : (n : ℕ) → 0 < n → IsValid (with_capacity {A = A} n)
  unfolding with_capacity
  with_capacity-IsValid n h = record {
    storage = length-replicate n none;
    positive = h;
    within = omega arith;
    written = tt;
    shape = inl (omega arith, refl, refl);
  }

  -- the slot that `push` writes
  abbrev pub slot : CyclicBoundedVec A → ℕ
  slot v = if v.len == 0 then v.last_index else (v.last_index + 1) % v.capacity

  -- the vector that `push` leaves
  abbrev pub pushed : CyclicBoundedVec A → A → CyclicBoundedVec A
  pushed v x = record {
    capacity = v.capacity;
    len = if ltb v.len v.capacity then v.len + 1 else v.len;
    first_index = if ltb v.len v.capacity then v.first_index else (v.first_index + 1) % v.capacity;
    last_index = slot v;
    buffer = set v.buffer (slot v) (some x);
  }

  slot_partial : (v : CyclicBoundedVec A) → IsValid v → v.len < v.capacity → slot v ≡ v.len
  slot_partial v h lt = ground (arith, h.shape, step-mod v.capacity v.last_index)

  pub first-lt : (v : CyclicBoundedVec A) → IsValid v → v.first_index < v.capacity
  first-lt v h = ground (arith, h.shape, h.positive, step-mod v.capacity v.last_index)

  pub last-lt : (v : CyclicBoundedVec A) → IsValid v → 0 < v.len → v.last_index < v.len
  last-lt v h lt = ground (arith, h.shape)

  pub slot-lt : (v : CyclicBoundedVec A) → IsValid v → slot v < v.capacity
  slot-lt v h = ground (arith, h.shape, h.positive, step-mod v.capacity v.last_index)

  pub push-eq-pushed {κ} :
      {E : Type κ} (v : CyclicBoundedVec A) (x : A) → IsValid v → push {E = E} v x ≡ ok (pushed v x)
  unfolding push
  push-eq-pushed v x h =
      let inside : ltb (slot v) (length v.buffer) ≡ true =
        lt→ltb _ _ (rw h.storage (slot-lt v h)) in
      let some_room : ltb 0 v.capacity ≡ true = lt→ltb _ _ h.positive in
      elim (Bool-cases (v.len == 0)) [
        | inl e ↦
            let room : ltb v.len v.capacity ≡ true = ground (arith, h.positive) in
            rw (e, room, rw e at inside)
        | inr e ↦ elim (Bool-cases (ltb v.len v.capacity)) [
          | inl room ↦ rw (e, room, some_room, rw e at inside)
          | inr full ↦ rw (e, full, some_room, inc_first_index) (rw (some_room, rw e at inside))
        ]
      ]

  pushed-Shape : (v : CyclicBoundedVec A) (x : A) → IsValid v → Shape (pushed v x)
  pushed-Shape v x h = ground (
    arith,
    h.shape,
    h.positive,
    step-mod v.capacity v.last_index,
    step-mod v.capacity (slot v) (slot-lt v h),
  )

  pub pushed-IsValid : (v : CyclicBoundedVec A) (x : A) → IsValid v → IsValid (pushed v x)
  pushed-IsValid v x h = elim (Bool-cases (ltb v.len v.capacity)) [
    | inl room ↦
        let lt : v.len < v.capacity = ground arith in
        let at : slot v ≡ v.len = slot_partial v h lt in
        record {
          storage = length-set v.buffer (slot v) (some x) ∙ h.storage;
          positive = h.positive;
          within = ground arith;
          written =
              rw (room, at, add-one)
                (Written-set_end v.len v.buffer x h.written (omega (arith, h.storage)));
          shape = pushed-Shape v x h;
        }
    | inr full ↦ record {
      storage = length-set v.buffer (slot v) (some x) ∙ h.storage;
      positive = h.positive;
      within = ground arith;
      written = rw full (Written-set v.len v.buffer (slot v) x h.written);
      shape = pushed-Shape v x h;
    }
  ]

  length-walk :
      (cells : List (Option A)) (cap h n len : ℕ)
      → Written len cells
      → (len ≡ cap) ⊎ (h + n ≤ len)
      → h < cap
      → len ≤ cap
      → length (walk cells cap h n) ≡ n
  length-walk cells cap h zero len w inside hh hl = refl
  length-walk cells cap h (suc n) len w inside hh hl =
      let (x, e) = cell-Written len cells h w (ground arith) in
      let next : (h + 1) % cap < cap = mod-lt (h + 1) (omega arith) in
      rw e (
        ap suc (
          length-walk cells cap ((h + 1) % cap) n len w (ground (arith, step-mod cap h hh)) next
            hl))

  pub length-contents : (v : CyclicBoundedVec A) → IsValid v → length (contents v) ≡ v.len
  length-contents v h =
      length-walk v.buffer v.capacity v.first_index v.len v.len h.written (ground (arith, h.shape))
        (first-lt v h) h.within

  -- A write one past a run of slots extends it.
  walk-set :
      (cells : List (Option A)) (cap h n : ℕ) (x : A)
      → length cells ≡ cap
      → h < cap
      → n < cap
      → walk (set cells (advance cap h n) (some x)) cap h (suc n) ≡ walk cells cap h n ++ (x ∷ [])
  walk-set cells cap h zero x e hh hn =
      ap (λ c. cons_cell c []) (cell-set_self cells h x (omega arith))
  walk-set cells cap h (suc n) x e hh hn =
      rw (cell-set_ne cells (advance cap h (suc n)) h x (advance-ne cap h n hh hn)) (
        append_cell (cell cells h) _ _
          (walk-set cells cap ((h + 1) % cap) n x e (mod-lt (h + 1) (omega arith)) (omega arith)))
    where
      append_cell :
          (c : Option A) (ys zs : List A)
          → ys ≡ zs ++ (x ∷ [])
          → cons_cell c ys ≡ cons_cell c zs ++ (x ∷ [])
      append_cell none ys zs p = p
      append_cell (some y) ys zs p = ap (λ l. y ∷ l) p

  walk-set_at :
      (cells : List (Option A)) (cap h n i : ℕ) (x : A)
      → length cells ≡ cap
      → h < cap
      → n < cap
      → i ≡ advance cap h n
      → walk (set cells i (some x)) cap h (suc n) ≡ walk cells cap h n ++ (x ∷ [])
  walk-set_at cells cap h n i x e hh hn p =
      ap (λ k. walk (set cells k (some x)) cap h (suc n)) p ∙ walk-set cells cap h n x e hh hn

  -- In a full ring a write over the oldest element makes it the newest.
  walk-set_full :
      (cells : List (Option A)) (cap h len i : ℕ) (x : A)
      → length cells ≡ cap
      → h < cap
      → len ≡ cap
      → Written len cells
      → i ≡ h
      → walk (set cells i (some x)) cap ((h + 1) % cap) len
        ≡ drop 1 (walk cells cap h len) ++ (x ∷ [])
  walk-set_full cells cap h zero i x e hh full w p = absurd (omega arith)
  walk-set_full cells cap h (suc m) i x e hh full w p =
      let (y, q) = cell-Written (suc m) cells h w (omega arith) in
      let next : (h + 1) % cap < cap = mod-lt (h + 1) (omega arith) in
      let round : i ≡ advance cap ((h + 1) % cap) m =
        ground (arith, step-mod cap h hh, advance_closed cap ((h + 1) % cap) m next) in
      rw q (walk-set_at cells cap ((h + 1) % cap) m i x e next (omega arith) round)

  -- the list of elements after a push
  abbrev pub remember : ℕ → List A → A → List A
  remember capacity xs x =
      if ltb (length xs) capacity then xs ++ (x ∷ []) else drop 1 xs ++ (x ∷ [])

  pub contents-pushed :
      (v : CyclicBoundedVec A) (x : A)
      → IsValid v
      → contents (pushed v x) ≡ remember v.capacity (contents v) x
  contents-pushed v x h = rw (length-contents v h) (elim (Bool-cases (ltb v.len v.capacity)) [
    | inl room ↦
        let lt : v.len < v.capacity = ground arith in
        let at : slot v ≡ advance v.capacity v.first_index v.len = ground (
          arith,
          slot_partial v h lt,
          h.shape,
          advance_closed v.capacity v.first_index v.len (first-lt v h) lt,
        ) in
        rw (room, add-one v.len)
          (walk-set_at v.buffer v.capacity v.first_index v.len (slot v) x h.storage (first-lt v h)
            lt at)
    | inr full ↦ rw full (
        walk-set_full v.buffer v.capacity v.first_index v.len (slot v) x h.storage (first-lt v h)
          (ground (arith, h.within)) h.written (ground (arith, h.shape, h.positive)))
  ])

  -- On a valid cyclic vector `push` never panics or writes outside the allocation: it appends
  -- the value to the elements, and drops the oldest element first if the vector is full.
  pub push_refines {κ} :
      {E : Type κ} (v : CyclicBoundedVec A) (x : A)
      → IsValid v
      → map_ok contents (push {E = E} v x) ≡ ok (remember v.capacity (contents v) x)
  push_refines {E = E} v x h = rw (push-eq-pushed {E = E} v x h) (ap ok (contents-pushed v x h))
