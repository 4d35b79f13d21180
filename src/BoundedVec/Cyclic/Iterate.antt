-- ===== src/BoundedVec/Cyclic/Iterate.antt =====
-- The iterator of `CyclicBoundedVec`: its loops end, and give the elements oldest first.
use light_protocol.BoundedVec.Plain.{BoundedVecError}
use light_protocol.Prelude.{
  map_err, drop_all, ℕ, zero, suc, ◌+◌, ◌-◌, ◌%◌, ◌≤◌, ◌<◌, ◌≡◌, refl, sym, ap, ◌∙◌, ◌⊎◌, inl, inr,
  true, false, List, [], ◌∷◌, ◌++◌, some, Result, ok, ◌>>=◌, arith, length, drop, length-append,
  length-drop, drop-append, drop-drop, drop-nil, newest, append-nil, append_assoc, ltb, leb, ◌==◌,
  if◌then◌else◌, Bool-cases, lt→ltb, mod-lt,
}
use light_protocol.Prelude.Arith.{advance, advance_closed, advance-lt, advance-ne, step-mod}
use light_protocol.BoundedVec.Cells.{cell, cell-Written}
use light_protocol.BoundedVec.Plain.{BoundedVecError}
use light_protocol.BoundedVec.Cyclic.{
  CyclicBoundedVec, with_capacity, push, iter, iter_from, next, collect,
}
use light_protocol.BoundedVec.Cyclic.Refine.{
  walk, contents, IsValid, first-lt, length-contents, pushed, push-eq-pushed, pushed-IsValid,
  remember, contents-pushed, with_capacity-IsValid,
}

capacity-with_capacity {ℓ} :
    (A : Type ℓ) (capacity : ℕ) → (with_capacity {A = A} capacity).capacity ≡ capacity
unfolding with_capacity
capacity-with_capacity A capacity = refl

module _ {ℓ} {A : Type ℓ} where
  remember-newest :
      (capacity : ℕ) (seen : List A) (x : A)
      → 0 < capacity
      → remember capacity (newest capacity seen) x ≡ newest capacity (seen ++ (x ∷ []))
  remember-newest capacity seen x h = elim (Bool-cases (ltb (length seen) capacity)) [
    | inl room ↦
        let all : length seen - capacity ≡ 0 = ground arith in
        let all' : length (seen ++ (x ∷ [])) - capacity ≡ 0 =
          ground (arith, length-append seen (x ∷ [])) in
        rw (all, all', room)
    | inr full ↦
        let k = length seen - capacity in
        let count : length (newest capacity seen) ≡ capacity = ground (arith, length-drop k seen) in
        let no_room : ltb (length (newest capacity seen)) capacity ≡ false =
          ground (arith, count) in
        let more : length (seen ++ (x ∷ [])) - capacity ≡ k + 1 =
          ground (arith, length-append seen (x ∷ [])) in
        rw (no_room, more)
          (ap (λ l. l ++ (x ∷ [])) (drop-drop 1 k seen)
            ∙ sym (drop-append (k + 1) seen (x ∷ []) (ground arith)))
  ]

  next_lem {κ} :
      {E : Type κ} (v : CyclicBoundedVec A) (c : ℕ) {x : A}
      → IsValid v
      → c < v.len
      → cell v.buffer c ≡ some x
      → next {E = E} (record { vec = v; current = c; is_finished = false })
        ≡ ok (
          some x,
          record {
            vec = v;
            current = (c + 1) % v.capacity;
            is_finished = if c == v.last_index then true else false;
          },
        )
  unfolding next
  next_lem v c h lt e =
      let positive : (v.capacity == 0) ≡ false = ground (arith, h.positive) in
      let some_room : ltb 0 v.capacity ≡ true = lt→ltb _ _ h.positive in
      let inside : leb v.len c ≡ false = ground arith in rw (positive, some_room, inside, e)

  collect_finished {κ} :
      {E : Type κ} (fuel : ℕ) (v : CyclicBoundedVec A) (c : ℕ)
      → IsValid v
      → 0 < fuel
      → collect {E = E} fuel (record { vec = v; current = c; is_finished = true }) ≡ ok []
  unfolding collect
  collect_finished zero v c h lt = absurd (omega arith)
  collect_finished (suc fuel) v c h lt =
      let positive : (v.capacity == 0) ≡ false = ground (arith, h.positive) in rw positive

  cell_at :
      (v : CyclicBoundedVec A) (c : ℕ)
      → IsValid v
      → c < v.len
      → (x : A) × (cell v.buffer c ≡ some x)
  cell_at v c h lt = cell-Written v.len v.buffer c h.written lt

  -- A loop from slot `c`, `m` steps before the last element, ends with exactly `m + 1` elements.
  collect-walk {κ} :
      {E : Type κ} (fuel m : ℕ) (v : CyclicBoundedVec A) (c : ℕ)
      → IsValid v
      → c < v.len
      → m < v.capacity
      → v.last_index ≡ advance v.capacity c m
      → suc m < fuel
      → collect {E = E} fuel (record { vec = v; current = c; is_finished = false })
        ≡ ok (walk v.buffer v.capacity c (suc m))
  unfolding collect
  collect-walk zero m v c h lt lm e enough = absurd (omega arith)
  collect-walk {E = E} (suc fuel) zero v c h lt lm e enough =
      let (x, p) = cell_at v c h lt in
      let here : (c == v.last_index) ≡ true = ground arith in
      rw (
        next_lem {E = E} v c h lt p,
        p,
        here,
        collect_finished {E = E} fuel v ((c + 1) % v.capacity) h (omega arith),
      )
  collect-walk {E = E} (suc fuel) (suc m) v c h lt lm e enough =
      let (x, p) = cell_at v c h lt in
      let in_ring : c < v.capacity = omega (arith, h.within) in
      let away : (c == v.last_index) ≡ false =
        ground (arith, advance-ne v.capacity c m in_ring lm) in
      let next_in : (c + 1) % v.capacity < v.len =
        ground (arith, h.shape, step-mod v.capacity c in_ring) in
      rw (
        next_lem {E = E} v c h lt p,
        p,
        away,
        collect-walk {E = E} fuel m v ((c + 1) % v.capacity) h next_in (omega arith) e
            (omega arith),
      )

  collect_some {κ} :
      {E : Type κ} (n : ℕ) (v : CyclicBoundedVec A)
      → IsValid v
      → v.len ≡ n
      → collect {E = E} (suc (suc v.capacity)) (iter v)
        ≡ ok (walk v.buffer v.capacity v.first_index n)
  unfolding iter
  collect_some {E = E} zero v h e =
      let positive : (v.capacity == 0) ≡ false = ground (arith, h.positive) in
      let some_room : ltb 0 v.capacity ≡ true = lt→ltb _ _ h.positive in
      let outside : leb v.len v.first_index ≡ true = ground arith in
      unfold collect next in rw (positive, some_room, outside)
  collect_some {E = E} (suc n) v h e =
      let lm : n < v.capacity = omega (arith, h.within) in
      let at_end : v.last_index ≡ advance v.capacity v.first_index n = ground (
        arith,
        h.shape,
        step-mod v.capacity v.last_index,
        advance_closed v.capacity v.first_index n (first-lt v h) lm,
      ) in
      collect-walk {E = E} (suc (suc v.capacity)) n v v.first_index h (ground (arith, h.shape)) lm
        at_end (omega arith)

  -- A loop over `iter` of a valid vector ends, without a panic, with the elements oldest first.
  pub collect-iter {κ} :
      {E : Type κ} (v : CyclicBoundedVec A)
      → IsValid v
      → collect {E = E} (suc (suc v.capacity)) (iter v) ≡ ok (contents v)
  collect-iter {E = E} v h = collect_some {E = E} v.len v h refl

  -- `push` for each item
  unfoldable pub push_each {κ} :
      {E : Type κ} → CyclicBoundedVec A → List A → Result E (CyclicBoundedVec A)
  push_each v [] = ok v
  push_each v (x ∷ xs) = do v' ← push v x; push_each v' xs

  push_each-contents {κ} :
      {E : Type κ} (xs seen : List A) (v : CyclicBoundedVec A)
      → IsValid v
      → contents v ≡ newest v.capacity seen
      → (w : CyclicBoundedVec A) × (push_each {E = E} v xs ≡ ok w)
        × IsValid w
        × (w.capacity ≡ v.capacity)
        × (contents w ≡ newest v.capacity (seen ++ xs))
  unfolding push_each
  push_each-contents [] seen v h e =
      (v, refl, h, refl, e ∙ ap (newest v.capacity) (sym (append-nil seen)))
  push_each-contents {E = E} (x ∷ xs) seen v h e =
      let (w, p, valid, kept, elements) =
        push_each-contents {E = E} xs (seen ++ (x ∷ [])) (pushed v x) (pushed-IsValid v x h) (
          contents-pushed v x h
          ∙ ap (λ l. remember v.capacity l x) e
          ∙ remember-newest v.capacity seen x h.positive) in
      (
        w,
        rw (push-eq-pushed {E = E} v x h) p,
        valid,
        kept,
        elements ∙ ap (newest v.capacity) (append_assoc seen (x ∷ []) xs),
      )

  empty :
      (capacity : ℕ)
      → contents (with_capacity {A = A} capacity)
        ≡ newest {A = A} (with_capacity {A = A} capacity).capacity []
  unfolding with_capacity
  empty capacity = sym (drop-nil (0 - capacity))

  -- Whatever is pushed to a new cyclic vector of a positive capacity, a loop over its
  -- iterator ends with the newest of the pushed values, at most as many as the capacity, in
  -- the order of the pushes. No push and no step of the iterator panics.
  pub collect-push_each {κ} :
      {E : Type κ} (capacity : ℕ) (xs : List A)
      → 0 < capacity
      → (push_each {E = E} (with_capacity capacity) xs >>= λ v.
          collect (suc (suc capacity)) (iter v))
        ≡ ok (newest capacity xs)
  collect-push_each {E = E} capacity xs lt =
      let (w, p, valid, kept, elements) =
        push_each-contents {E = E} xs [] (with_capacity capacity)
          (with_capacity-IsValid capacity lt) (empty capacity) in
      rw p (
        ap (λ c. collect (suc (suc c)) (iter w)) (sym (kept ∙ capacity-with_capacity A capacity))
        ∙ collect-iter {E = E} w valid
        ∙ ap ok (elements ∙ ap (λ c. newest c xs) (capacity-with_capacity A capacity)))

  walk-drop :
      (v : CyclicBoundedVec A) (k t n c : ℕ)
      → IsValid v
      → c < v.capacity
      → (v.len ≡ v.capacity) ⊎ (c + t ≤ v.len)
      → t ≡ k + n
      → walk v.buffer v.capacity (advance v.capacity c k) n ≡ drop k (walk v.buffer v.capacity c t)
  walk-drop v zero t n c h lt inside e = ap (walk v.buffer v.capacity c) (omega arith)
  walk-drop v (suc k) zero n c h lt inside e = absurd (omega arith)
  walk-drop v (suc k) (suc t) n c h lt inside e =
      let (x, p) = cell_at v c h (ground (arith, h.within)) in
      rw p (
        walk-drop v k t n ((c + 1) % v.capacity) h (mod-lt (c + 1) h.positive)
          (ground (arith, step-mod v.capacity c lt, h.within)) (omega arith))

  -- On a valid cyclic vector, a loop over the iterator that starts at the slot of the `k`-th
  -- oldest element ends with the elements from that one on, oldest first.
  pub collect-iter_from {κ} :
      {E : Type κ} (into : BoundedVecError → E) (v : CyclicBoundedVec A) (k : ℕ)
      → IsValid v
      → k < v.len
      → (map_err into (iter_from v (advance v.capacity v.first_index k))
          >>= collect (suc (suc v.capacity)))
        ≡ ok (drop k (contents v))
  unfolding iter_from
  collect-iter_from into v k h lt =
      let c = advance v.capacity v.first_index k in
      let m = v.len - k - 1 in
      let start =
        advance_closed v.capacity v.first_index k (first-lt v h) (omega (arith, h.within)) in
      let in_ring : c < v.capacity =
        advance-lt v.capacity v.first_index k (first-lt v h) (omega (arith, h.within)) in
      let inside : c < v.len = ground (arith, h.shape, start, h.within) in
      let within : leb v.len c ≡ false = ground arith in
      let at_end : v.last_index ≡ advance v.capacity c m = ground (
        arith,
        h.shape,
        start,
        step-mod v.capacity v.last_index,
        advance_closed v.capacity c m in_ring (omega (arith, h.within)),
      ) in
      rw within (
        collect-walk (suc (suc v.capacity)) m v c h inside (omega (arith, h.within)) at_end
          (omega (arith, h.within))
        ∙ ap ok (
            walk-drop v k v.len (suc m) v.first_index h (first-lt v h) (ground (arith, h.shape))
              (omega arith)))

  -- Only the newest element is in the last slot.
  pub newest_slot :
      (v : CyclicBoundedVec A) (k : ℕ)
      → IsValid v
      → k < v.len
      → advance v.capacity v.first_index k ≡ v.last_index
      → drop (k + 1) (contents v) ≡ []
  newest_slot v k h lt newest =
      let closed =
        advance_closed v.capacity v.first_index k (first-lt v h) (omega (arith, h.within)) in
      let all : v.len ≤ k + 1 =
        ground (arith, h.shape, h.within, closed, step-mod v.capacity v.last_index) in
      drop_all (k + 1) (contents v) (omega (arith, length-contents v h))
