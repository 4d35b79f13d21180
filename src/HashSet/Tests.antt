-- ===== src/HashSet/Tests.antt =====
-- The theorems on the hash set at a set of four buckets, with base-256 digits as the bytes.
use light_protocol.Prelude.{
  ℕ, zero, suc, ◌+◌, ◌*◌, ◌/◌, ◌%◌, ◌^◌, ◌≤◌, ◌<◌, ◌≡◌, ◌≢◌, ◌⊎◌, true, false, refl, ap, ◌∙◌, arith,
  List, [], ◌∷◌, ◌++◌, Option, some, none, ok, err, length, replicate, append-nil, ltb,
  if◌then◌else◌, Bool-cases, inl, inr, get_elem?,
}
use light_protocol.Prelude.{panic}
use light_protocol.HashSet.Total.{IsWellFormed, insert_total}
use light_protocol.HashSet.Mark.{is_valid-mark_with_sequence_number}
use light_protocol.HashSet.{mark_with_sequence_number}
use light_protocol.BigInt.{BigUint, bigint_to_be_bytes_array, bigint_to_be_bytes_array_lem}
use light_protocol.BigInt
use light_protocol.HashSet.{
  HashSet, HashSetCell, element_already_exists, insert, find_element_iter, find_loop,
  find_element_index, probe, probe_index, get_bucket, is_valid, value_biguint, new_cell,
  insert_found, insert_into_occupied_cell,
}
use light_protocol.HashSet.Insert.{IsFree}
use light_protocol.HashSet.Lookup.{find_element_index-insert, insert-insert, insert-IsFree}

-- The number that bytes after the number `n` make, the most significant byte first.
abbrev from_digits : ℕ → List ℕ → ℕ
from_digits n [] = n
from_digits n (b ∷ bytes) = from_digits (n * 256 + b) bytes

-- The digits of `n` before others. The fuel `n` is enough, since a division by 256 makes a number
-- that is not 0 smaller.
abbrev digits : ℕ → ℕ → List ℕ → List ℕ
digits zero n bytes = n ∷ bytes
digits (suc fuel) n bytes =
    let rest = digits fuel (n / 256) (n % 256 ∷ bytes) in if ltb n 256 then n ∷ bytes else rest

from_digits-digits :
    (fuel n : ℕ) (bytes : List ℕ) → from_digits 0 (digits fuel n bytes) ≡ from_digits n bytes
from_digits-digits zero n bytes = ap (λ k. from_digits k bytes) (omega arith)
from_digits-digits (suc fuel) n bytes = elim (Bool-cases (ltb n 256)) [
  | inl small ↦ rw small (ap (λ k. from_digits k bytes) (omega arith))
  | inr big ↦ rw big (
      from_digits-digits fuel (n / 256) (n % 256 ∷ bytes)
      ∙ ap (λ k. from_digits k bytes) (omega arith))
]

abbrev reversed : List ℕ → List ℕ → List ℕ
reversed [] done = done
reversed (x ∷ xs) done = reversed xs (x ∷ done)

reversed-reversed : (xs ys zs : List ℕ) → reversed (reversed xs ys) zs ≡ reversed ys (xs ++ zs)
reversed-reversed [] ys zs = refl
reversed-reversed (x ∷ xs) ys zs = reversed-reversed xs (x ∷ ys) zs

reversed-append : (xs zs ys : List ℕ) → reversed (xs ++ zs) ys ≡ reversed zs (reversed xs ys)
reversed-append [] zs ys = refl
reversed-append (x ∷ xs) zs ys = reversed-append xs zs (x ∷ ys)

abbrev bytes_of_numbers : BigUint
bytes_of_numbers = record {
  to_bytes_be = λ n. digits n n [];
  from_bytes_be = from_digits 0;
  to_bytes_le = λ n. reversed (digits n n []) [];
  from_bytes_le = λ bytes. from_digits 0 (reversed bytes []);
}

bytes_of_numbers-IsLawful : BigInt.IsLawful bytes_of_numbers
bytes_of_numbers-IsLawful = record {
  from_to_be = λ n. from_digits-digits n n [];
  from_zero_be = λ bytes. refl;
  from_to_le = λ n.
      ap (from_digits 0) (reversed-reversed (digits n n []) [] [] ∙ append-nil (digits n n []))
      ∙ from_digits-digits n n [];
  from_zero_le = λ bytes. ap (from_digits 0) (reversed-append bytes (0 ∷ []) []);
}

digits-append : (fuel n : ℕ) (xs ys : List ℕ) → digits fuel n (xs ++ ys) ≡ digits fuel n xs ++ ys
digits-append zero n xs ys = refl
digits-append (suc fuel) n xs ys = elim (Bool-cases (ltb n 256)) [
  | inl small ↦ rw small refl
  | inr big ↦ rw big (digits-append fuel (n / 256) (n % 256 ∷ xs) ys)
]

-- any fuel that is enough gives the same digits
digits-enough :
    (fuel more n : ℕ) (bytes : List ℕ)
    → n ≤ fuel
    → n ≤ more
    → digits fuel n bytes ≡ digits more n bytes
digits-enough zero zero n bytes le le' = refl
digits-enough zero (suc more) n bytes le le' =
    let small : ltb n 256 ≡ true = ground arith in rw small refl
digits-enough (suc fuel) zero n bytes le le' =
    let small : ltb n 256 ≡ true = ground arith in rw small refl
digits-enough (suc fuel) (suc more) n bytes le le' = elim (Bool-cases (ltb n 256)) [
  | inl small ↦ rw small refl
  | inr big ↦
      rw big (digits-enough fuel more (n / 256) (n % 256 ∷ bytes) (ground arith) (ground arith))
]

digits-more : (n : ℕ) → 256 ≤ n → digits n n [] ≡ digits (n / 256) (n / 256) [] ++ (n % 256 ∷ [])
digits-more zero large = absurd (omega (arith, large))
digits-more (suc n) large =
    let big : ltb (suc n) 256 ≡ false = ground arith in
    rw big (
      digits-enough n (suc n / 256) (suc n / 256) (suc n % 256 ∷ []) (omega (arith, large))
        (omega arith)
      ∙ digits-append (suc n / 256) (suc n / 256) [] (suc n % 256 ∷ []))

digits-one : (n : ℕ) → n < 256 → digits n n [] ≡ n ∷ []
digits-one zero small = refl
digits-one (suc n) small = let lt : ltb (suc n) 256 ≡ true = ground arith in rw lt refl

bytes_of_numbers-HasDigits : BigInt.HasDigits bytes_of_numbers
bytes_of_numbers-HasDigits = record { digit_be = digits-one; digits_be = digits-more }

bigint_to_be_bytes_array_lem_example :
    ((515 < 256 ^ 2)
      × ((array : List ℕ) × (bigint_to_be_bytes_array bytes_of_numbers 2 515 ≡ ok array)
          × (length array ≡ 2)
          × (from_digits 0 array ≡ 515)))
    ⊎ ((256 ^ 2 ≤ 515)
        × (bigint_to_be_bytes_array bytes_of_numbers 2 515 ≡ err (BigInt.input_too_large 2)))
bigint_to_be_bytes_array_lem_example =
    bigint_to_be_bytes_array_lem bytes_of_numbers bytes_of_numbers-IsLawful
      bytes_of_numbers-HasDigits 2 515 (omega arith)

-- Bucket 1 is taken by a valid cell of 9, bucket 2 by an expired one.
abbrev cell_of : ℕ → Option ℕ → HashSetCell
cell_of n number = record { value = replicate 31 0 ++ (n ∷ []); sequence_number = number }

abbrev before : HashSet
before = record {
  capacity = 4;
  sequence_threshold = 10;
  buckets = none ∷ some (cell_of 9 none) ∷ some (cell_of 6 (some 7)) ∷ none ∷ [];
}

abbrev after : HashSet
after = record before { buckets = none ∷ some (cell_of 9 none) ∷ some (cell_of 5 none) ∷ none ∷ [] }

inserted : insert bytes_of_numbers before 5 8 ≡ ok (after, 2)
unfolding insert find_element_iter find_loop probe probe_index get_bucket is_valid value_biguint
    new_cell insert_found insert_into_occupied_cell bigint_to_be_bytes_array
inserted = refl

find_element_index-insert_example :
    find_element_index bytes_of_numbers after 5 (some 8) ≡ ok (some 2)
find_element_index-insert_example =
    find_element_index-insert bytes_of_numbers bytes_of_numbers-IsLawful before after 5 8 2 inserted

insert-insert_example : insert bytes_of_numbers after 5 8 ≡ err element_already_exists
insert-insert_example =
    insert-insert bytes_of_numbers bytes_of_numbers-IsLawful before after 5 8 2 inserted

insert-IsFree_example :
    IsFree bytes_of_numbers before 8 2
    × ((j : ℕ) → 2 ≢ j → get_elem? after.buckets j ≡ get_elem? before.buckets j)
    × (after.capacity ≡ before.capacity)
insert-IsFree_example =
    insert-IsFree bytes_of_numbers bytes_of_numbers-IsLawful before after 5 8 2 inserted

before-IsWellFormed : IsWellFormed before
before-IsWellFormed = record { storage = refl; positive = omega arith; small = omega arith }

insert_total_example : insert bytes_of_numbers before 5 8 ≢ panic
insert_total_example = insert_total bytes_of_numbers before 5 8 before-IsWellFormed

abbrev marked : HashSet
marked = record before {
  buckets = none ∷ some (cell_of 9 (some 18)) ∷ some (cell_of 6 (some 7)) ∷ none ∷ [];
}

marks : mark_with_sequence_number before 1 8 ≡ ok marked
unfolding mark_with_sequence_number
marks = refl

is_valid-mark_with_sequence_number_example :
    (old new : HashSetCell) × (get_elem? before.buckets 1 ≡ some (some old))
    × (get_elem? marked.buckets 1 ≡ some (some new))
    × (new.value ≡ old.value)
    × ((current : ℕ) → is_valid new current ≡ ltb current 18)
    × ((j : ℕ) → 1 ≢ j → get_elem? marked.buckets j ≡ get_elem? before.buckets j)
is_valid-mark_with_sequence_number_example =
    is_valid-mark_with_sequence_number before marked 1 8 marks
