-- ===== src/HashSet/Total.antt =====
-- `insert` on a well-formed hash set does not panic.
use light_protocol.Prelude.{
  ℕ, zero, suc, ◌+◌, ◌*◌, ◌/◌, ◌%◌, ◌≤◌, ◌<◌, ◌≡◌, ◌≢◌, inl, inr, refl, arith, Bool, true, false,
  not, ◌&&◌, Option, none, some, Result, ok, err, panic, ok_or, ◌>>=◌, leb, ◌==◌, if◌then◌else◌,
  Bool-cases, length, get_elem?_lt, lt→ltb, lt→leb_false,
}
use native.Mathlib.Nat.{mod-lt}
use light_protocol.Prelude.Words.{word}
use light_protocol.BigInt.{BigUint, bigint_to_be_bytes_array}
use light_protocol.HashSet.{
  HashSet, HashSetCell, HashSetResult, full, element_already_exists, iterations, is_none, is_valid,
  probe, probe_index, get_bucket, set_bucket, value_biguint, new_cell, find_loop, insert_found,
  insert_into_occupied_cell, occupied, insert,
}
use light_protocol.HashSet.Probes.{Found, empty, expired, later, find_loop-Found}
use light_protocol.HashSet.Insert.{probe_parts}

-- There is at least one bucket, there are as many as the capacity says, and the step of a probe
-- does not overflow.
pub record IsWellFormed (s : HashSet) : Type 0 where
  pub storage : length s.buckets ≡ s.capacity
  pub positive : 0 < s.capacity
  pub small : s.capacity / 10 + iterations < word

bind-ne_panic {κ μ ν} :
    {E : Type ν} {A : Type κ} {B : Type μ} (m : Result E A) (f : A → Result E B)
    → m ≢ panic
    → ((a : A) → m ≡ ok a → f a ≢ panic)
    → (m >>= f) ≢ panic
bind-ne_panic (ok a) f ne next = next a refl
bind-ne_panic (err e) f ne next = λ p. cc p
bind-ne_panic panic f ne next = absurd (ne refl)

ok-ne_panic {κ ν} : {E : Type ν} {A : Type κ} (a : A) → ◌≢◌ {A = Result E A} (ok a) panic
ok-ne_panic a p = cc p

err-ne_panic {κ ν} : {E : Type ν} {A : Type κ} (e : E) → ◌≢◌ {A = Result E A} (err e) panic
err-ne_panic e p = cc p

-- a probe that finds a bucket
probe_total :
    (s : HashSet) (value i : ℕ)
    → IsWellFormed s
    → i < iterations
    → (j : ℕ) × (bucket : Option HashSetCell) × (probe s value i ≡ ok (j, bucket))
unfolding probe probe_index
probe_total s value i w lt =
    let step = i + s.capacity / 10 in
    let j = (value + step * step) % s.capacity in
    let below : j < s.capacity = mod-lt (value + step * step) w.positive in
    let (bucket, at) = get_elem?_lt s.buckets j (omega (arith, w.storage)) in
    (
      j,
      bucket,
      rw
          (
            lt→ltb step word (omega (arith, w.small)),
            lt→ltb 0 s.capacity w.positive,
            lt→leb_false s.capacity j below,
            at,
          )
          refl,
    )

module _ (b : BigUint) (s : HashSet) (value current : ℕ) (w : IsWellFormed s) where
  find_loop_total :
      (n i : ℕ) (free : Option (ℕ × Bool))
      → i + n ≤ iterations
      → find_loop b s value current n i free ≢ panic
  unfolding find_loop
  find_loop_total zero i free le = ok-ne_panic free
  find_loop_total (suc n) i free le =
      let (j, bucket, p) = probe_total s value i w (omega arith) in
      rw p (visit j bucket (λ f. find_loop_total n (i + 1) f (omega arith)))
    where
      visit :
          (j : ℕ) (bucket : Option HashSetCell)
          → ((f : Option (ℕ × Bool)) → find_loop b s value current n (i + 1) f ≢ panic)
          → ◌≢◌ {A = HashSetResult (Option (ℕ × Bool))}
              (elim bucket [
                | some cell ↦
                    if is_valid cell current && (value_biguint b cell == value)
                    then err element_already_exists
                    else find_loop b s value current n (i + 1) (
                        if is_none free && not (is_valid cell current)
                        then some (j, false)
                        else free)
                | none ↦
                    if is_none free
                    then ok (some (j, true))
                    else find_loop b s value current n (i + 1) free
              ])
              panic
      visit j none rest = elim (Bool-cases (is_none free)) [
        | inl first ↦ rw first (ok-ne_panic (some (j, true)))
        | inr later_one ↦ rw later_one (rest free)
      ]
      visit j (some cell) rest =
          elim (Bool-cases (is_valid cell current && (value_biguint b cell == value))) [
            | inl same ↦ rw same (err-ne_panic element_already_exists)
            | inr other ↦ rw other (rest _)
          ]

  new_cell_total : new_cell b value ≢ panic
  unfolding new_cell bigint_to_be_bytes_array
  new_cell_total = elim (Bool-cases (leb (length (b.to_bytes_be value)) 32)) [
    | inl fits ↦ rw fits (ok-ne_panic _)
    | inr over ↦ rw over (err-ne_panic _)
  ]

  -- the bucket that was found, and whether it is empty
  bucket_of :
      (n i index : ℕ) (is_new : Bool)
      → Found b s value current n i index is_new
      → (bucket : Option HashSetCell) × (get_bucket s index ≡ ok (some bucket))
        × (is_none bucket ≡ is_new)
  unfolding get_bucket
  bucket_of n i index is_new (empty _ _ _ p) =
      let (q, fits, at) = probe_parts s value i index none p in (none, rw (fits, at) refl, refl)
  bucket_of n i index is_new (expired _ _ _ cell p invalid) =
      let (q, fits, at) = probe_parts s value i index (some cell) p in
      (some cell, rw (fits, at) refl, refl)
  bucket_of n i index is_new (later m _ _ j _ cell p valid other rest) =
      bucket_of m (i + 1) index is_new rest

  occupied_total : (cell : HashSetCell) → occupied b s cell value ≢ panic
  occupied_total cell = elim (Bool-cases (value_biguint b cell == value)) [
    | inl same ↦ rw same (err-ne_panic element_already_exists)
    | inr other ↦ rw other (ok-ne_panic (s, false))
  ]

  overwrite_total :
      (index : ℕ) (cell : HashSetCell)
      → get_bucket s index ≡ ok (some (some cell))
      → insert_into_occupied_cell b s index value current ≢ panic
  unfolding insert_into_occupied_cell
  overwrite_total index cell at = rw at (by_number cell.sequence_number)
    where
      by_number :
          (number : Option ℕ)
          → ◌≢◌ {A = HashSetResult (HashSet × Bool)}
              (elim number [
                | none ↦ occupied b s cell value
                | some n ↦
                    if leb n current
                    then (new_cell b value >>= λ c. ok (set_bucket s index (some c), true))
                    else occupied b s cell value
              ])
              panic
      by_number none = occupied_total cell
      by_number (some n) = elim (Bool-cases (leb n current)) [
        | inl old ↦ rw old (
            bind-ne_panic (new_cell b value) _ new_cell_total
              (λ c e. ok-ne_panic (set_bucket s index (some c), true)))
        | inr young ↦ rw young (occupied_total cell)
      ]

  insert_found_total :
      (index : ℕ) (is_new : Bool) (bucket : Option HashSetCell)
      → get_bucket s index ≡ ok (some bucket)
      → is_none bucket ≡ is_new
      → insert_found b s value current index is_new ≢ panic
  unfolding insert_found
  insert_found_total index true bucket at e = rw at (
      bind-ne_panic (new_cell b value) _ new_cell_total
        (λ c p. ok-ne_panic (set_bucket s index (some c), index)))
  insert_found_total index false none at e = absurd (cc e)
  insert_found_total index false (some cell) at e =
      bind-ne_panic (insert_into_occupied_cell b s index value current) _
        (overwrite_total index cell at) (λ r p. finished r.0 r.1)
    where
      finished :
          (t : HashSet) (inserted : Bool)
          → ◌≢◌ {A = HashSetResult (HashSet × ℕ)}
              (if inserted then ok (t, index) else err full)
              panic
      finished t true = ok-ne_panic (t, index)
      finished t false = err-ne_panic full

  -- `insert` never panics on a well-formed set: one with at least one bucket, as many buckets
  -- as its capacity says, and a capacity for which the step of a probe does not overflow.
  pub insert_total : insert b s value current ≢ panic
  unfolding insert
  insert_total =
      bind-ne_panic (find_loop b s value current iterations 0 none) _
        (find_loop_total iterations 0 none (omega arith)) chosen
    where
      chosen :
          (o : Option (ℕ × Bool))
          → find_loop b s value current iterations 0 none ≡ ok o
          → ◌≢◌ {A = HashSetResult (HashSet × ℕ)}
              (ok_or o full >>= λ x. insert_found b s value current x.0 x.1)
              panic
      chosen none p = err-ne_panic full
      chosen (some (index, is_new)) p =
          let (bucket, at, e) =
            bucket_of iterations 0 index is_new
              (find_loop-Found b s value current iterations 0 index is_new p) in
          insert_found_total index is_new bucket at e
