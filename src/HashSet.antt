-- ===== src/HashSet.antt =====
-- merkle-tree/hash-set/src/lib.rs: the queue of nullifiers and addresses, a hash set in an account.
pub mod Probes
pub mod Insert
pub mod Lookup
pub mod Total
pub mod Mark
pub mod Tests
use light_protocol.Prelude.{
  ℕ, zero, suc, ◌+◌, ◌-◌, ◌*◌, ◌/◌, ◌%◌, Bool, true, false, not, ◌&&◌, List, [], ◌∷◌, Option, none,
  some, Result, ok, err, panic, ◌>>=◌, ◌>>◌, ok_or, unwrap, map_err, get_elem?, set, replicate, ltb,
  leb, ◌==◌, if◌then◌else◌,
}
use light_protocol.Prelude.Words.{add, rem}
use light_protocol.BigInt.{BigUint, UtilsError, bigint_to_be_bytes_array}
use light_protocol.BigInt

abbrev pub iterations : ℕ
iterations = 20

pub data HashSetError : Type 0 where
  full : HashSetError
  element_already_exists : HashSetError
  element_does_not_exist : HashSetError
  usize_conv : HashSetError
  integer_overflow : HashSetError
  buffer_size : ℕ → ℕ → HashSetError
  utils : UtilsError → HashSetError

pub record HashSetCell : Type 0 where
  pub value : List ℕ
  pub sequence_number : Option ℕ

pub record HashSet : Type 0 where
  pub capacity : ℕ
  pub sequence_threshold : ℕ
  pub buckets : List (Option HashSetCell)

abbrev pub HashSetResult {κ} : Type κ → Type κ
HashSetResult = Result HashSetError

-- `is_none` and `is_some`
abbrev pub is_none {ℓ} : {A : Type ℓ} → Option A → Bool
is_none none = true
is_none (some a) = false

unfoldable pub is_marked : HashSetCell → Bool
is_marked cell = not (is_none cell.sequence_number)

unfoldable pub is_valid : HashSetCell → ℕ → Bool
is_valid cell current_sequence_number = elim cell.sequence_number [
  | some n ↦ ltb current_sequence_number n
  | none ↦ true
]

unfoldable pub new : ℕ → ℕ → HashSet
new capacity_values sequence_threshold = record {
  capacity = capacity_values;
  sequence_threshold = sequence_threshold;
  buckets = replicate capacity_values none;
}

-- A bucket out of the capacity is `None`; a read out of the allocation, which the pointer would
-- allow, is a panic.
unfoldable pub get_bucket : HashSet → ℕ → HashSetResult (Option (Option HashSetCell))
get_bucket s index =
    if leb s.capacity index
    then ok none
    else (do b ← unwrap (get_elem? s.buckets index); ok (some b))

unfoldable pub get_unmarked_bucket : HashSet → ℕ → HashSetResult (Option HashSetCell)
unfolding get_bucket is_marked
get_unmarked_bucket s index = do
  bucket ← get_bucket s index
  ok (elim bucket [
    | none ↦ none
    | some b ↦ elim b [ none ↦ none | some cell ↦ if not (is_marked cell) then some cell else none ]
  ])

-- `self.get_bucket_mut(index).unwrap()`, with the bucket that is written
unfoldable pub set_bucket : HashSet → ℕ → Option HashSetCell → HashSet
set_bucket s index bucket = record s { buckets = set s.buckets index bucket }

unfoldable pub probe_index : ℕ → ℕ → ℕ → HashSetResult ℕ
probe_index capacity value iteration = do
  step ← add iteration (capacity / 10)
  rem (value + step * step) capacity

-- the bucket of the probe `i` of a value, and its index
unfoldable pub probe : HashSet → ℕ → ℕ → HashSetResult (ℕ × Option HashSetCell)
unfolding get_bucket
probe s value i = do
  index ← probe_index s.capacity value i
  found ← get_bucket s index
  bucket ← unwrap found
  ok (index, bucket)

module _ (b : BigUint) where
  open b use {from_bytes_be}

  unfoldable pub value_biguint : HashSetCell → ℕ
  value_biguint cell = from_bytes_be cell.value

  -- the cell that is written for a new value
  unfoldable pub new_cell : ℕ → HashSetResult HashSetCell
  new_cell value = do
    bytes ← map_err utils (bigint_to_be_bytes_array b 32 value)
    ok (record { value = bytes; sequence_number = none })

  -- the loop of `find_element_iter`, `n` iterations from `i` on
  unfoldable pub find_loop :
      HashSet → ℕ → ℕ → ℕ → ℕ → Option (ℕ × Bool) → HashSetResult (Option (ℕ × Bool))
  find_loop s value current zero i first_free_element = ok first_free_element
  find_loop s value current (suc n) i first_free_element = do
    (index, bucket) ← probe s value i
    elim bucket [
      | some cell ↦
          let rest = find_loop s value current n (i + 1) (
            if is_none first_free_element && not (is_valid cell current)
            then some (index, false)
            else first_free_element) in
          if is_valid cell current && (value_biguint cell == value)
          then err element_already_exists
          else rest
      | none ↦
          let rest = find_loop s value current n (i + 1) first_free_element in
          if is_none first_free_element then ok (some (index, true)) else rest
    ]

  unfoldable pub find_element_iter : HashSet → ℕ → ℕ → ℕ → ℕ → HashSetResult (Option (ℕ × Bool))
  find_element_iter s value current start_iter num_iterations = do
    stop ← add start_iter num_iterations
    find_loop s value current num_iterations start_iter none

  -- an element that cannot be overwritten
  abbrev pub occupied : HashSet → HashSetCell → ℕ → HashSetResult (HashSet × Bool)
  occupied s cell value =
      if value_biguint cell == value then err element_already_exists else ok (s, false)

  unfoldable pub insert_into_occupied_cell : HashSet → ℕ → ℕ → ℕ → HashSetResult (HashSet × Bool)
  insert_into_occupied_cell s index value current = do
    found ← get_bucket s index
    bucket ← unwrap found
    cell ← unwrap bucket
    elim cell.sequence_number [
      | none ↦ occupied s cell value
      | some n ↦
          if leb n current
          then (do cell' ← new_cell value; ok (set_bucket s index (some cell'), true))
          else occupied s cell value
    ]

  -- the `match is_new` of `insert`
  unfoldable pub insert_found : HashSet → ℕ → ℕ → ℕ → Bool → HashSetResult (HashSet × ℕ)
  unfolding set_bucket
  insert_found s value current index true = do
    found ← get_bucket s index
    bucket ← unwrap found
    cell ← new_cell value
    ok (set_bucket s index (some cell), index)
  insert_found s value current index false = do
    (s', inserted) ← insert_into_occupied_cell s index value current
    if inserted then ok (s', index) else err full

  unfoldable pub insert : HashSet → ℕ → ℕ → HashSetResult (HashSet × ℕ)
  unfolding find_element_iter
  insert s value current = do
    found ← find_element_iter s value current 0 iterations
    (index, is_new) ← ok_or found full
    insert_found s value current index is_new

  -- the loop of `find_element_index`
  unfoldable pub find_index_loop : HashSet → ℕ → Option ℕ → ℕ → ℕ → HashSetResult (Option ℕ)
  find_index_loop s value current zero i = ok none
  find_index_loop s value current (suc n) i = do
    (index, bucket) ← probe s value i
    let rest = find_index_loop s value current n (i + 1)
    elim bucket [
      | none ↦ ok none
      | some cell ↦
          if value_biguint cell == value
          then elim current [
            | none ↦ ok (some index)
            | some c ↦ if is_valid cell c then ok (some index) else rest
          ]
          else rest
    ]

  unfoldable pub find_element_index : HashSet → ℕ → Option ℕ → HashSetResult (Option ℕ)
  unfolding find_index_loop
  find_element_index s value current = find_index_loop s value current iterations 0

  unfoldable pub find_element : HashSet → ℕ → Option ℕ → HashSetResult (Option (HashSetCell × ℕ))
  unfolding find_element_index
  find_element s value current = do
    index ← find_element_index s value current
    elim index [
      | none ↦ ok none
      | some i ↦ (do
        found ← get_bucket s i
        bucket ← unwrap found
        ok (elim bucket [ none ↦ none | some cell ↦ some (cell, i) ]))
    ]

  unfoldable pub contains : HashSet → ℕ → Option ℕ → HashSetResult Bool
  unfolding find_element
  contains s value sequence_number = do
    element ← find_element s value sequence_number
    ok (not (is_none element))

unfoldable pub mark_with_sequence_number : HashSet → ℕ → ℕ → HashSetResult HashSet
unfolding get_bucket set_bucket
mark_with_sequence_number s index sequence_number = do
  found ← get_bucket s index
  bucket ← ok_or found element_does_not_exist
  cell ← ok_or bucket element_does_not_exist
  until ← add sequence_number s.sequence_threshold
  ok (set_bucket s index (some (record cell { sequence_number = some until })))

-- the loop of `first`, `n` buckets from `i` on
unfoldable pub first_loop : HashSet → ℕ → ℕ → ℕ → HashSetResult (Option HashSetCell)
first_loop s current zero i = ok none
first_loop s current (suc n) i = do
  found ← get_bucket s i
  bucket ← unwrap found
  let rest = first_loop s current n (i + 1)
  elim bucket [ none ↦ rest | some cell ↦ if is_valid cell current then ok (some cell) else rest ]

unfoldable pub first : HashSet → ℕ → HashSetResult (Option HashSetCell)
unfolding first_loop
first s current = first_loop s current s.capacity 0

-- the loop of `first_no_seq`; the index is cut to 16 bits
unfoldable pub first_no_seq_loop : HashSet → ℕ → ℕ → HashSetResult (Option (HashSetCell × ℕ))
first_no_seq_loop s zero i = ok none
first_no_seq_loop s (suc n) i = do
  found ← get_bucket s i
  bucket ← unwrap found
  let rest = first_no_seq_loop s n (i + 1)
  elim bucket [
    | none ↦ rest
    | some cell ↦ if is_none cell.sequence_number then ok (some (cell, i % 65536)) else rest
  ]

unfoldable pub first_no_seq : HashSet → HashSetResult (Option (HashSetCell × ℕ))
unfolding first_no_seq_loop
first_no_seq s = first_no_seq_loop s s.capacity 0
