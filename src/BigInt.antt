-- ===== src/BigInt.antt =====
-- utils/src/bigint.rs: numbers of any size as byte arrays of a fixed size. `BigUint` is ℕ; the
-- bytes of a number are a parameter, `num_bigint` computes them.
use light_protocol.Prelude.{
  ℕ, zero, suc, ◌+◌, ◌-◌, ◌/◌, ◌%◌, ◌^◌, ◌≤◌, ◌<◌, ◌≡◌, ◌⊎◌, refl, sym, ap, ◌∙◌, arith, List, [],
  ◌∷◌, ◌++◌, Result, ok, err, length, length-append, length-replicate, replicate, leb, ltb, le→leb,
  lt→leb_false, if◌then◌else◌, Bool-cases, inl, inr,
}
use native.Mathlib.Nat.{pow-suc, pow-le-pow_right}

-- `to_bytes_be`, `from_bytes_be` and the same of the other byte order
pub record BigUint : Type 0 where
  pub to_bytes_be : ℕ → List ℕ
  pub from_bytes_be : List ℕ → ℕ
  pub to_bytes_le : ℕ → List ℕ
  pub from_bytes_le : List ℕ → ℕ

-- A number is read back from its bytes, and from its bytes with zeros before the most significant
-- one.
pub record IsLawful (b : BigUint) : Type 0 where
  pub from_to_be : (n : ℕ) → b.from_bytes_be (b.to_bytes_be n) ≡ n
  pub from_zero_be : (bytes : List ℕ) → b.from_bytes_be (0 ∷ bytes) ≡ b.from_bytes_be bytes
  pub from_to_le : (n : ℕ) → b.from_bytes_le (b.to_bytes_le n) ≡ n
  pub from_zero_le : (bytes : List ℕ) → b.from_bytes_le (bytes ++ (0 ∷ [])) ≡ b.from_bytes_le bytes

-- The big-endian bytes are the digits of the number in base 256, without leading zeros; 0 is one
-- byte.
pub record HasDigits (b : BigUint) : Type 0 where
  pub digit_be : (n : ℕ) → n < 256 → b.to_bytes_be n ≡ n ∷ []
  pub digits_be : (n : ℕ) → 256 ≤ n → b.to_bytes_be n ≡ b.to_bytes_be (n / 256) ++ (n % 256 ∷ [])

pub data UtilsError : Type 0 where
  input_too_large : ℕ → UtilsError

module _ (b : BigUint) where
  open b use {to_bytes_be, from_bytes_be, to_bytes_le, from_bytes_le}

  unfoldable pub bigint_to_le_bytes_array : ℕ → ℕ → Result UtilsError (List ℕ)
  bigint_to_le_bytes_array bytes_size bigint =
      let bytes = to_bytes_le bigint in
      if leb (length bytes) bytes_size
      then ok (bytes ++ replicate (bytes_size - length bytes) 0)
      else err (input_too_large bytes_size)

  unfoldable pub bigint_to_be_bytes_array : ℕ → ℕ → Result UtilsError (List ℕ)
  bigint_to_be_bytes_array bytes_size bigint =
      let bytes = to_bytes_be bigint in
      if leb (length bytes) bytes_size
      then ok (replicate (bytes_size - length bytes) 0 ++ bytes)
      else err (input_too_large bytes_size)

  from_zeros_be :
      (lawful : IsLawful b) (k : ℕ) (bytes : List ℕ)
      → from_bytes_be (replicate k 0 ++ bytes) ≡ from_bytes_be bytes
  from_zeros_be lawful zero bytes = refl
  from_zeros_be lawful (suc k) bytes =
      lawful.from_zero_be (replicate k 0 ++ bytes) ∙ from_zeros_be lawful k bytes

  -- the size and the number of the array that the conversion returns
  pub bigint_to_be_bytes_array-ok :
      (lawful : IsLawful b) (size n : ℕ) (array : List ℕ)
      → bigint_to_be_bytes_array size n ≡ ok array
      → (length array ≡ size) × (from_bytes_be array ≡ n)
  unfolding bigint_to_be_bytes_array
  bigint_to_be_bytes_array-ok lawful size n array p =
      elim (Bool-cases (leb (length (to_bytes_be n)) size)) [
        | inl fits ↦
            let e : replicate (size - length (to_bytes_be n)) 0 ++ to_bytes_be n ≡ array =
              cc (rw fits at p) in
            (
              sym (ap length e)
                  ∙ length-append (replicate (size - length (to_bytes_be n)) 0) (to_bytes_be n)
                  ∙ ground (arith, length-replicate {A = ℕ} (size - length (to_bytes_be n)) 0),
              sym (ap from_bytes_be e)
                  ∙ from_zeros_be lawful (size - length (to_bytes_be n)) (to_bytes_be n)
                  ∙ lawful.from_to_be n,
            )
        | inr over ↦ cc (rw over at p)
      ]

  length-more :
      (digits : HasDigits b) (n : ℕ)
      → 256 ≤ n
      → length (to_bytes_be n) ≡ length (to_bytes_be (n / 256)) + 1
  length-more digits n large =
      ap length (digits.digits_be n large) ∙ length-append (to_bytes_be (n / 256)) (n % 256 ∷ [])

  some_bytes : (digits : HasDigits b) (n : ℕ) → 0 < length (to_bytes_be n)
  some_bytes digits n = elim (Bool-cases (ltb n 256)) [
    | inl small ↦ omega (arith, ap length (digits.digit_be n (ground arith)))
    | inr large ↦ omega (arith, length-more digits n (ground arith))
  ]

  one-le : (k : ℕ) → 1 ≤ suc k
  one-le k = omega arith

  -- A number of `k + 1` digits or more.
  abbrev HasSize : ℕ → ℕ → Type 0
  HasSize k n =
      ((n < 256 ^ suc k) × (length (to_bytes_be n) ≤ suc k))
      ⊎ ((256 ^ suc k ≤ n) × (suc k < length (to_bytes_be n)))

  digit-HasSize : (digits : HasDigits b) (k n : ℕ) → n < 256 → HasSize k n
  digit-HasSize digits k n lt =
      let one : length (to_bytes_be n) ≡ 1 = ap length (digits.digit_be n lt) in
      let le : 256 ≤ 256 ^ suc k = pow-le-pow_right {n = 256} (omega arith) (one-le k) in
      inl (omega (arith, lt, le), omega (arith, one))

  -- a number has as many digits as its size needs
  to_bytes_be-HasSize : (digits : HasDigits b) (k n : ℕ) → HasSize k n
  to_bytes_be-HasSize digits zero n = elim (Bool-cases (ltb n 256)) [
    | inl small ↦ digit-HasSize digits zero n (ground arith)
    | inr large ↦
        let le : 256 ≤ n = ground arith in
        inr (le, omega (arith, length-more digits n le, some_bytes digits (n / 256)))
  ]
  to_bytes_be-HasSize digits (suc k) n = elim (Bool-cases (ltb n 256)) [
    | inl small ↦ digit-HasSize digits (suc k) n (ground arith)
    | inr large ↦
        let power = pow-suc 256 (suc k) in
        let size = length-more digits n (ground arith) in
        elim (to_bytes_be-HasSize digits k (n / 256)) [
          | inl (small, fits) ↦ inl (omega (arith, power, small), omega (arith, size, fits))
          | inr (big, over) ↦ inr (omega (arith, power, big), omega (arith, size, over))
        ]
  ]

  -- Let the bytes of the big number library be lawful, and the big-endian ones the digits in
  -- base 256. For a positive size, `bigint_to_be_bytes_array` converts every number below 256
  -- ^ size to an array of that size from which the number is read back, and refuses every
  -- other number with `InputTooLarge`.
  pub bigint_to_be_bytes_array_lem :
      (lawful : IsLawful b) (digits : HasDigits b) (size n : ℕ)
      → 0 < size
      → ((n < 256 ^ size)
          × ((array : List ℕ) × (bigint_to_be_bytes_array size n ≡ ok array)
              × (length array ≡ size)
              × (from_bytes_be array ≡ n)))
        ⊎ ((256 ^ size ≤ n) × (bigint_to_be_bytes_array size n ≡ err (input_too_large size)))
  unfolding bigint_to_be_bytes_array
  bigint_to_be_bytes_array_lem lawful digits zero n pos = absurd (omega (arith, pos))
  bigint_to_be_bytes_array_lem lawful digits (suc k) n pos = elim (to_bytes_be-HasSize digits k n) [
    | inl (small, fits) ↦
        let array = replicate (suc k - length (to_bytes_be n)) 0 ++ to_bytes_be n in
        let done : bigint_to_be_bytes_array (suc k) n ≡ ok array =
          rw (le→leb (length (to_bytes_be n)) (suc k) fits) refl in
        let (size, same) = bigint_to_be_bytes_array-ok lawful (suc k) n array done in
        inl (small, (array, done, size, same))
    | inr (large, over) ↦ inr (large, rw (lt→leb_false (length (to_bytes_be n)) (suc k) over) refl)
  ]
