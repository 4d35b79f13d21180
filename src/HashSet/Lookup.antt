-- ===== src/HashSet/Lookup.antt =====
-- Lookups in the hash set after an insertion.
use light_protocol.Prelude.{
  ℕ, ◌+◌, ◌≡◌, ◌≢◌, refl, sym, ap, ◌∙◌, arith, Bool, true, List, Option, none, some, ok, err,
  >>=-eq-ok, map_err-eq-ok, map_err, ◌==◌, get_elem?, get_elem?-set_ne,
}
use light_protocol.BigInt.{BigUint, bigint_to_be_bytes_array, bigint_to_be_bytes_array-ok}
use light_protocol.BigInt
use light_protocol.HashSet.{
  HashSet, HashSetCell, utils, element_already_exists, iterations, is_valid, set_bucket,
  value_biguint, new_cell, find_loop, insert, find_index_loop, find_element_index,
}
use light_protocol.HashSet.Probes.{Found, empty, expired, later}
use light_protocol.HashSet.Insert.{
  IsFree, Found-IsFree, free_ne, probe_parts, probe-set_self, probe-set_ne, insert-Inserted,
}

module _ (b : BigUint) (lawful : BigInt.IsLawful b) where
  open b use {from_bytes_be}

  new_cell_value :
      (value : ℕ) (cell : HashSetCell)
      → new_cell b value ≡ ok cell
      → ((value_biguint b cell == value) ≡ true) × (cell.sequence_number ≡ none)
  unfolding new_cell value_biguint
  new_cell_value value cell e =
      let (bytes, p, q) = >>=-eq-ok (map_err utils (bigint_to_be_bytes_array b 32 value)) _ e in
      let same : record { value = bytes; sequence_number = none } ≡ cell = cc q in
      let (size, number) =
        bigint_to_be_bytes_array-ok b lawful 32 value bytes (map_err-eq-ok utils _ p) in
      let read : from_bytes_be cell.value ≡ value =
        sym (ap (λ c. from_bytes_be (value_of c)) same) ∙ number in
      (equal (from_bytes_be cell.value) read, sym (ap number_of same))
    where
      value_of : HashSetCell → List ℕ
      value_of c = c.value

      number_of : HashSetCell → Option ℕ
      number_of c = c.sequence_number

      equal : (n : ℕ) → n ≡ value → (n == value) ≡ true
      equal n e = ground arith

  new_cell-is_valid :
      (cell : HashSetCell) (current : ℕ)
      → cell.sequence_number ≡ none
      → is_valid cell current ≡ true
  unfolding is_valid
  new_cell-is_valid cell current e = rw e refl

  -- If `insert` returns `Ok`, the bucket that it wrote was empty or held a cell that was no
  -- longer valid, every other bucket is as before, and the capacity is the same.
  pub insert-IsFree :
      (s s' : HashSet) (value current index : ℕ)
      → insert b s value current ≡ ok (s', index)
      → IsFree b s current index
        × ((j : ℕ) → index ≢ j → get_elem? s'.buckets j ≡ get_elem? s.buckets j)
        × (s'.capacity ≡ s.capacity)
  unfolding set_bucket
  insert-IsFree s s' value current index e =
      let done = insert-Inserted b s value current index s' e in
      (
        Found-IsFree b s value current iterations 0 index done.is_new done.found,
        λ j ne.
            ap (λ t. get_elem? (buckets_of t) j) done.written
            ∙ get_elem?-set_ne s.buckets index j (some done.cell) ne,
        ap capacity_of done.written,
      )
    where
      buckets_of : HashSet → List (Option HashSetCell)
      buckets_of t = t.buckets

      capacity_of : HashSet → ℕ
      capacity_of t = t.capacity

  module _ (s : HashSet) (value current : ℕ) (cell : HashSetCell)
      (made : new_cell b value ≡ ok cell) where
    Found-again :
        (n i index : ℕ) (is_new : Bool)
        → Found b s value current n i index is_new
        → find_index_loop b (set_bucket s index (some cell)) value (some current) n i
          ≡ ok (some index)
    unfolding find_index_loop
    Found-again n i index is_new (empty m _ _ p) =
        let (same, fresh) = new_cell_value value cell made in
        rw
          (
            probe-set_self s value i index none (some cell) p,
            same,
            new_cell-is_valid cell current fresh,
          )
          refl
    Found-again n i index is_new (expired m _ _ old p invalid) =
        let (same, fresh) = new_cell_value value cell made in
        rw
          (
            probe-set_self s value i index (some old) (some cell) p,
            same,
            new_cell-is_valid cell current fresh,
          )
          refl
    Found-again n i index is_new (later m _ _ j _ other p valid differs rest) =
        let (q, fits, at) = probe_parts s value i j (some other) p in
        let ne =
          free_ne b s current index j other
            (Found-IsFree b s value current m (i + 1) index is_new rest) at valid in
        rw (probe-set_ne s value i j index (some other) (some cell) p ne, differs)
          (Found-again m (i + 1) index is_new rest)

    refused_again :
        (n i index : ℕ) (is_new : Bool) (free : Option (ℕ × Bool))
        → Found b s value current n i index is_new
        → find_loop b (set_bucket s index (some cell)) value current n i free
          ≡ err element_already_exists
    unfolding find_loop
    refused_again n i index is_new free (empty m _ _ p) =
        let (same, fresh) = new_cell_value value cell made in
        rw
          (
            probe-set_self s value i index none (some cell) p,
            same,
            new_cell-is_valid cell current fresh,
          )
          refl
    refused_again n i index is_new free (expired m _ _ old p invalid) =
        let (same, fresh) = new_cell_value value cell made in
        rw
          (
            probe-set_self s value i index (some old) (some cell) p,
            same,
            new_cell-is_valid cell current fresh,
          )
          refl
    refused_again n i index is_new free (later m _ _ j _ other p valid differs rest) =
        let (q, fits, at) = probe_parts s value i j (some other) p in
        let ne =
          free_ne b s current index j other
            (Found-IsFree b s value current m (i + 1) index is_new rest) at valid in
        rw (probe-set_ne s value i j index (some other) (some cell) p ne, valid, differs)
          (refused_again m (i + 1) index is_new _ rest)

  -- If `insert` returns `Ok` with a bucket index, a lookup of the value at the same sequence
  -- number in the new set finds it in that bucket.
  pub find_element_index-insert :
      (s s' : HashSet) (value current index : ℕ)
      → insert b s value current ≡ ok (s', index)
      → find_element_index b s' value (some current) ≡ ok (some index)
  unfolding find_element_index
  find_element_index-insert s s' value current index e =
      let done = insert-Inserted b s value current index s' e in
      ap (λ t. find_index_loop b t value (some current) iterations 0) done.written
      ∙ Found-again s value current done.cell done.made iterations 0 index done.is_new done.found

  -- If `insert` returns `Ok`, a second insertion of the value at the same sequence number is
  -- refused with `ElementAlreadyExists`.
  pub insert-insert :
      (s s' : HashSet) (value current index : ℕ)
      → insert b s value current ≡ ok (s', index)
      → insert b s' value current ≡ err element_already_exists
  unfolding insert
  insert-insert s s' value current index e =
      let done = insert-Inserted b s value current index s' e in
      let again : find_loop b s' value current iterations 0 none ≡ err element_already_exists =
        ap (λ t. find_loop b t value current iterations 0 none) done.written
        ∙ refused_again s value current done.cell done.made iterations 0 index done.is_new none
            done.found in
      rw again refl
