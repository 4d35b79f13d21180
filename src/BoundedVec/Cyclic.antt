-- ===== src/BoundedVec/Cyclic.antt =====
-- `CyclicBoundedVec`: a vector that overwrites its oldest elements once it is full, and its
-- iterator.
pub mod Refine
pub mod Iterate
pub mod Last
use light_protocol.Prelude.{
  ℕ, zero, suc, ◌+◌, Bool, true, false, List, [], ◌∷◌, Option, none, some, Result, ok, err, panic,
  ◌>>=◌, replicate, ltb, leb, ◌==◌, ◌||◌, if◌then◌else◌, unwrap,
}
use light_protocol.Prelude.Words.{rem}
use light_protocol.BoundedVec.Cells.{read, write, slice}
use light_protocol.BoundedVec.Plain.{BoundedVecError, iter_from_out_of_bounds}

-- the metadata and the allocation
pub record CyclicBoundedVec {ℓ} (A : Type ℓ) : Type ℓ where
  pub capacity : ℕ
  pub len : ℕ
  pub first_index : ℕ
  pub last_index : ℕ
  pub buffer : List (Option A)

-- `CyclicBoundedVecIterator`
pub record Iter {ℓ} (A : Type ℓ) : Type ℓ where
  pub vec : CyclicBoundedVec A
  pub current : ℕ
  pub is_finished : Bool

module _ {ℓ} {A : Type ℓ} where
  unfoldable pub with_capacity : ℕ → CyclicBoundedVec A
  with_capacity capacity = record {
    capacity = capacity;
    len = 0;
    first_index = 0;
    last_index = 0;
    buffer = replicate capacity none;
  }

  unfoldable pub is_empty : CyclicBoundedVec A → Bool
  is_empty v = v.len == 0

  -- The indices stay below the capacity, and the length at most the capacity, so no addition
  -- wraps; the remainder panics at capacity 0.
  unfoldable pub inc_len : CyclicBoundedVec A → CyclicBoundedVec A
  inc_len v = record v { len = v.len + 1 }

  unfoldable pub inc_first_index {κ} :
      {E : Type κ} → CyclicBoundedVec A → Result E (CyclicBoundedVec A)
  inc_first_index v = do i ← rem (v.first_index + 1) v.capacity; ok (record v { first_index = i })

  unfoldable pub inc_last_index {κ} :
      {E : Type κ} → CyclicBoundedVec A → Result E (CyclicBoundedVec A)
  inc_last_index v = do i ← rem (v.last_index + 1) v.capacity; ok (record v { last_index = i })

  -- the branches of `push` before its write
  unfoldable pub make_room {κ} : {E : Type κ} → CyclicBoundedVec A → Result E (CyclicBoundedVec A)
  unfolding is_empty inc_len inc_last_index inc_first_index
  make_room v =
      if is_empty v
      then ok (inc_len v)
      else (if ltb v.len v.capacity
          then inc_last_index (inc_len v)
          else (do v' ← inc_last_index v; inc_first_index v'))

  unfoldable pub push {κ} : {E : Type κ} → CyclicBoundedVec A → A → Result E (CyclicBoundedVec A)
  unfolding make_room
  push v value = do
    v' ← make_room v
    cells ← write v'.buffer v'.last_index value
    ok (record v' { buffer = cells })

  unfoldable pub get {κ} : {E : Type κ} → CyclicBoundedVec A → ℕ → Result E (Option A)
  get v index = if leb v.len index then ok none else (do x ← read v.buffer index; ok (some x))

  unfoldable pub first {κ} : {E : Type κ} → CyclicBoundedVec A → Result E (Option A)
  unfolding get
  first v = get v v.first_index

  unfoldable pub last {κ} : {E : Type κ} → CyclicBoundedVec A → Result E (Option A)
  unfolding get
  last v = get v v.last_index

  -- `v[index]`
  unfoldable pub index {κ} : {E : Type κ} → CyclicBoundedVec A → ℕ → Result E A
  index v i = if leb v.len i then panic else read v.buffer i

  -- `v[index] = value`
  unfoldable pub index_mut {κ} :
      {E : Type κ} → CyclicBoundedVec A → ℕ → A → Result E (CyclicBoundedVec A)
  index_mut v i value =
      if leb v.len i
      then panic
      else (do cells ← write v.buffer i value; ok (record v { buffer = cells }))

  unfoldable pub iter : CyclicBoundedVec A → Iter A
  iter v = record { vec = v; current = v.first_index; is_finished = false }

  unfoldable pub iter_from : CyclicBoundedVec A → ℕ → Result BoundedVecError (Iter A)
  iter_from v start =
      if leb v.len start
      then err iter_from_out_of_bounds
      else ok (record { vec = v; current = start; is_finished = false })

  -- the flag that `next` leaves
  unfoldable pub finishes : Iter A → Bool
  finishes it = if it.current == it.vec.last_index then true else it.is_finished

  unfoldable pub next {κ} : {E : Type κ} → Iter A → Result E (Option A × Iter A)
  unfolding get finishes
  next it = if it.vec.capacity == 0 || it.is_finished then ok (none, it) else (do
    new_current ← rem (it.current + 1) it.vec.capacity
    element ← get it.vec it.current
    ok (element, record it { current = new_current; is_finished = finishes it }))

  -- A `for` loop over the iterator: the elements up to the first `None`. The fuel bounds the
  -- number of calls of `next`; a loop that is cut off is a panic.
  unfoldable pub collect {κ} : {E : Type κ} → ℕ → Iter A → Result E (List A)
  unfolding next
  collect zero it = panic
  collect (suc fuel) it = do
    (element, it') ← next it
    elim element [ none ↦ ok [] | some x ↦ (do rest ← collect fuel it'; ok (x ∷ rest)) ]
