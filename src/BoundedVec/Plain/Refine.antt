-- ===== src/BoundedVec/Plain/Refine.antt =====
-- A valid `BoundedVec` behaves as the list of its elements, bounded by its capacity.
use light_protocol.Prelude.{
  ℕ, suc, ◌+◌, ◌-◌, ◌≤◌, ◌<◌, ◌≡◌, refl, sym, ap, ◌∙◌, List, [], ◌∷◌, ◌++◌, Option, none, some,
  Result, ok, err, ◌>>=◌, arith, length, get_elem?, set, take, take-nil, length-set,
  length-replicate, get_elem?-eq-none, leb, ◌==◌, ==_iff, add-one, if◌then◌else◌, unwrap, map_ok,
  append-nil, append_assoc, Bool-cases, inl, inr,
}
use light_protocol.BoundedVec.Cells.{
  read, slice, cell-Written, Written, length-slice, cell-slice, Written-set_end, slice-set_end,
  Written-set, slice-set,
}
use light_protocol.BoundedVec.Plain.{
  BoundedVec, BoundedVecError, full, with_capacity, push, get, index, index_mut, as_slice, extend,
  from_slice, push_all, to_array,
}

module _ {ℓ} {A : Type ℓ} where
  pub record IsValid (v : BoundedVec A) : Type 0 where
    pub storage : length v.buffer ≡ v.capacity
    pub within : v.len ≤ v.capacity
    pub written : Written v.len v.buffer

  pub with_capacity-IsValid : (n : ℕ) → IsValid (with_capacity {A = A} n)
  unfolding with_capacity
  with_capacity-IsValid n = record {
    storage = length-replicate n none;
    within = omega arith;
    written = tt;
  }

  pub length-as_slice : (v : BoundedVec A) → IsValid v → length (as_slice v) ≡ v.len
  unfolding as_slice
  length-as_slice v h = length-slice v.len v.buffer h.written

  -- the vector that a push below the capacity leaves
  abbrev pub pushed : BoundedVec A → A → BoundedVec A
  pushed v x = record v { buffer = set v.buffer v.len (some x); len = v.len + 1 }

  pub push-eq-pushed :
      (v : BoundedVec A) (x : A) → IsValid v → v.len < v.capacity → push v x ≡ ok (pushed v x)
  unfolding push
  push-eq-pushed v x h lt = ground (arith, h.storage)

  pub push-full : (v : BoundedVec A) (x : A) → v.len ≡ v.capacity → push v x ≡ err full
  unfolding push
  push-full v x e = ground arith

  pub pushed-IsValid :
      (v : BoundedVec A) (x : A) → IsValid v → v.len < v.capacity → IsValid (pushed v x)
  pushed-IsValid v x h lt = record {
    storage = length-set v.buffer v.len (some x) ∙ h.storage;
    within = omega arith;
    written = rw add-one (Written-set_end v.len v.buffer x h.written (omega (arith, h.storage)));
  }

  pub as_slice-pushed :
      (v : BoundedVec A) (x : A)
      → IsValid v
      → v.len < v.capacity
      → as_slice (pushed v x) ≡ as_slice v ++ (x ∷ [])
  unfolding as_slice
  as_slice-pushed v x h lt =
      rw add-one (slice-set_end v.len v.buffer x h.written (omega (arith, h.storage)))

  -- `push` on the list of elements
  abbrev pub bounded_push : ℕ → List A → A → Result BoundedVecError (List A)
  bounded_push capacity xs x = if length xs == capacity then err full else ok (xs ++ (x ∷ []))

  -- On a valid bounded vector `push` appends the value below the capacity, returns `Full` at
  -- the capacity, and never writes outside the allocation.
  pub push-bounded_push :
      (v : BoundedVec A) (x : A)
      → IsValid v
      → map_ok as_slice (push v x) ≡ bounded_push v.capacity (as_slice v) x
  push-bounded_push v x h = rw (length-as_slice v h) (elim (Bool-cases (v.len == v.capacity)) [
    | inl e ↦ rw (e, push-full v x (ground arith))
    | inr ne ↦
        rw (ne, push-eq-pushed v x h (ground arith), map_ok, as_slice-pushed v x h (ground arith))
  ])

  -- A push that succeeds keeps the invariant and the capacity.
  pub push-IsValid :
      (v : BoundedVec A) (x : A) {v' : BoundedVec A}
      → IsValid v
      → push v x ≡ ok v'
      → IsValid v' × (v'.capacity ≡ v.capacity) × (v'.len ≡ v.len + 1)
  push-IsValid v x {v'} h p = elim (Bool-cases (v.len == v.capacity)) [
    | inl e ↦ cc (p, push-full v x (ground arith))
    | inr ne ↦
        let q : pushed v x ≡ v' = cc (p, push-eq-pushed v x h (ground arith)) in
        rw (← q) (pushed-IsValid v x h (ground arith), refl, refl)
  ]

  pub read-eq-slice {κ} :
      {E : Type κ} (n : ℕ) (cs : List (Option A)) (i : ℕ)
      → Written n cs
      → i < n
      → read {E = E} cs i ≡ unwrap (get_elem? (slice n cs) i)
  read-eq-slice n cs i w h = ap unwrap (cell-slice n cs i w h)

  -- On a valid vector `v[i]` is the element of the list, and a panic out of its range.
  pub index_refines {κ} :
      {E : Type κ} (v : BoundedVec A) (i : ℕ)
      → IsValid v
      → index {E = E} v i ≡ unwrap (get_elem? (as_slice v) i)
  unfolding index as_slice
  index_refines v i h = elim (Bool-cases (leb v.len i)) [
    | inl out ↦
        let beyond : length (slice v.len v.buffer) ≤ i =
          ground (arith, length-slice v.len v.buffer h.written) in
        rw (out, get_elem?-eq-none (slice v.len v.buffer) i beyond)
    | inr within ↦ rw within (read-eq-slice v.len v.buffer i h.written (ground arith))
  ]

  -- On a valid vector `get` is the element of the list, and `None` out of its range; it reads
  -- only cells that were written.
  pub get_refines {κ} :
      {E : Type κ} (v : BoundedVec A) (i : ℕ)
      → IsValid v
      → get {E = E} v i ≡ ok (get_elem? (as_slice v) i)
  unfolding get as_slice
  get_refines v i h = elim (Bool-cases (leb v.len i)) [
    | inl out ↦
        let beyond : length (slice v.len v.buffer) ≤ i =
          ground (arith, length-slice v.len v.buffer h.written) in
        rw (out, get_elem?-eq-none (slice v.len v.buffer) i beyond)
    | inr within ↦
        let (x, e) = cell-Written v.len v.buffer i h.written (ground arith) in
        ground (arith, e, cell-slice v.len v.buffer i h.written)
  ]

  -- the vector that a write in range leaves
  abbrev pub changed : BoundedVec A → ℕ → A → BoundedVec A
  changed v i x = record v { buffer = set v.buffer i (some x) }

  pub index_mut-eq-changed {κ} :
      {E : Type κ} (v : BoundedVec A) (i : ℕ) (x : A)
      → IsValid v
      → i < v.len
      → index_mut {E = E} v i x ≡ ok (changed v i x)
  unfolding index_mut
  index_mut-eq-changed v i x h lt = ground (arith, h.storage, h.within)

  pub changed-IsValid : (v : BoundedVec A) (i : ℕ) (x : A) → IsValid v → IsValid (changed v i x)
  changed-IsValid v i x h = record {
    storage = length-set v.buffer i (some x) ∙ h.storage;
    within = h.within;
    written = Written-set v.len v.buffer i x h.written;
  }

  pub as_slice-changed :
      (v : BoundedVec A) (i : ℕ) (x : A)
      → IsValid v
      → i < v.len
      → as_slice (changed v i x) ≡ set (as_slice v) i x
  unfolding as_slice
  as_slice-changed v i x h lt = slice-set v.len v.buffer i x h.written lt

  -- What `from_slice` builds holds the elements of the slice, at exactly their number.
  push_all_lem {κ} :
      {E : Type κ} (v : BoundedVec A) (xs : List A)
      → IsValid v
      → v.len + length xs ≡ v.capacity
      → (w : BoundedVec A) × (push_all {E = E} v xs ≡ ok w)
        × IsValid w
        × (w.len ≡ w.capacity)
        × (as_slice w ≡ as_slice v ++ xs)
  unfolding push_all
  push_all_lem {E = E} v [] h e = (v, refl, h, omega arith, sym (append-nil (as_slice v)))
  push_all_lem {E = E} v (x ∷ xs) h e =
      let (w, p, valid, count, elements) =
        push_all_lem {E = E} (pushed v x) xs (pushed-IsValid v x h (omega arith)) (omega arith) in
      (
        w,
        rw (push-eq-pushed v x h (omega arith), push_all) p,
        valid,
        count,
        elements ∙ rw (as_slice-pushed v x h (omega arith)) (append_assoc (as_slice v) (x ∷ []) xs),
      )

  -- A vector made from a slice gives the elements of the slice back as an array of their
  -- number. Neither function panics.
  pub to_array-from_slice : (xs : List A) → (from_slice xs >>= to_array (length xs)) ≡ ok xs
  unfolding from_slice to_array with_capacity
  to_array-from_slice xs =
      let (w, p, valid, count, elements) =
        push_all_lem {E = BoundedVecError} (with_capacity (length xs)) xs
          (with_capacity-IsValid (length xs)) (omega arith) in
      let e : as_slice w ≡ xs = elements in
      let n : w.len ≡ length xs = omega (arith, ap length e, length-as_slice w valid) in
      rw p (rw ((==_iff w.len (length xs)).1 n) (ap ok e))

  -- how many of the items `extend` takes
  abbrev room : BoundedVec A → ℕ
  room v = v.capacity - v.len

  -- On a valid bounded vector `extend` appends the items in order as long as there is room
  -- and keeps the vector valid. It succeeds exactly when all of them fit, and returns `Full`
  -- otherwise, with those that fit appended.
  pub extend_refines :
      (v : BoundedVec A) (xs : List A)
      → IsValid v
      → (as_slice (extend v xs).0 ≡ as_slice v ++ take (room v) xs)
        × ((extend v xs).1 ≡ (if leb (length xs) (room v) then ok tt else err full))
        × IsValid (extend v xs).0
  unfolding extend
  extend_refines v [] h = (rw (take-nil (room v), append-nil), ground arith, h)
  extend_refines v (x ∷ xs) h = elim (Bool-cases (v.len == v.capacity)) [
    | inl e ↦
        let none_left : room v ≡ 0 = ground arith in
        rw (push-full v x (ground arith), extend)
          (rw none_left (sym (append-nil (as_slice v)), ground arith, h))
    | inr ne ↦
        let lt : v.len < v.capacity = ground (arith, h.within) in
        let (elements, result, valid) = extend_refines (pushed v x) xs (pushed-IsValid v x h lt) in
        let left : room v ≡ suc (room (pushed v x)) = omega arith in
        rw (push-eq-pushed v x h lt, extend)
          (rw left (
            elements ∙ rw (as_slice-pushed v x h lt) (append_assoc (as_slice v) (x ∷ []) _),
            result ∙ ground arith,
            valid,
          ))
  ]
