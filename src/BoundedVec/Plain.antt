-- ===== src/BoundedVec/Plain.antt =====
-- `BoundedVec`: a vector that never reallocates.
pub mod Refine
use light_protocol.Prelude.{
  ℕ, zero, suc, ◌+◌, ◌-◌, Bool, List, [], ◌∷◌, Option, none, some, Result, ok, err, panic, ◌>>=◌,
  length, replicate, leb, ◌==◌, if◌then◌else◌,
}
use light_protocol.BoundedVec.Cells.{read, write, slice}

pub data BoundedVecError : Type 0 where
  full : BoundedVecError
  array_size : ℕ → ℕ → BoundedVecError
  iter_from_out_of_bounds : BoundedVecError

-- the metadata `capacity` and `length`, and the allocation
pub record BoundedVec {ℓ} (A : Type ℓ) : Type ℓ where
  pub capacity : ℕ
  pub len : ℕ
  pub buffer : List (Option A)

module _ {ℓ} {A : Type ℓ} where
  unfoldable pub with_capacity : ℕ → BoundedVec A
  with_capacity capacity = record { capacity = capacity; len = 0; buffer = replicate capacity none }

  -- `length += 1` runs only below the capacity, so it cannot wrap.
  unfoldable pub push : BoundedVec A → A → Result BoundedVecError (BoundedVec A)
  push v value = if v.len == v.capacity then err full else (do
    cells ← write v.buffer v.len value
    ok (record v { buffer = cells; len = v.len + 1 }))

  unfoldable pub is_empty : BoundedVec A → Bool
  is_empty v = v.len == 0

  unfoldable pub get {κ} : {E : Type κ} → BoundedVec A → ℕ → Result E (Option A)
  get v index = if leb v.len index then ok none else (do x ← read v.buffer index; ok (some x))

  -- `v[index]`
  unfoldable pub index {κ} : {E : Type κ} → BoundedVec A → ℕ → Result E A
  index v i = if leb v.len i then panic else read v.buffer i

  -- `v[index] = value`, and `*v.get_mut(index).unwrap() = value`
  unfoldable pub index_mut {κ} : {E : Type κ} → BoundedVec A → ℕ → A → Result E (BoundedVec A)
  index_mut v i value =
      if leb v.len i
      then panic
      else (do cells ← write v.buffer i value; ok (record v { buffer = cells }))

  unfoldable pub last {κ} : {E : Type κ} → BoundedVec A → Result E (Option A)
  unfolding is_empty get
  last v = if is_empty v then ok none else get v (v.len - 1)

  unfoldable pub as_slice : BoundedVec A → List A
  as_slice v = slice v.len v.buffer

  -- An error leaves the elements that were pushed before it.
  unfoldable pub extend : BoundedVec A → List A → BoundedVec A × Result BoundedVecError (Unit {0})
  unfolding push
  extend v [] = (v, ok tt)
  extend v (item ∷ iter) = elim (push v item) [
    | ok v' ↦ extend v' iter
    | err e ↦ (v, err e)
    | panic ↦ (v, panic)
  ]

  -- `from_array` and `from_slice`, whose `unwrap` turns an error into a panic
  push_all {κ} : {E : Type κ} → BoundedVec A → List A → Result E (BoundedVec A)
  unfolding push
  push_all v [] = ok v
  push_all v (element ∷ rest) = elim (push v element) [
    | ok v' ↦ push_all v' rest
    | err e ↦ panic
    | panic ↦ panic
  ]

  unfoldable pub from_slice {κ} : {E : Type κ} → List A → Result E (BoundedVec A)
  unfolding push_all with_capacity
  from_slice elements = push_all (with_capacity (length elements)) elements

  -- `to_array::<N>`
  unfoldable pub to_array : ℕ → BoundedVec A → Result BoundedVecError (List A)
  unfolding as_slice
  to_array n v = if v.len == n then ok (as_slice v) else err (array_size n v.len)
