-- ===== src/Utils/FieldHash.antt =====
-- utils/src/lib.rs: hashes that are elements of the scalar field of BN254. Keccak is a parameter,
-- as are the numbers of num_bigint.
use light_protocol.Prelude.{
  ℕ, zero, suc, ◌+◌, ◌*◌, ◌^◌, ◌<◌, ◌≡◌, refl, subst, arith, Bool, List, [], ◌∷◌, Option, none,
  some, length, set, ltb, lt→ltb, if◌then◌else◌,
}
use native.Mathlib.Nat.{pow-succ'}
use light_protocol.BigInt.{BigUint}

-- `ark_bn254::Fr::MODULUS`
abbrev pub modulus : ℕ
modulus = 21888242871839275222246405745257275088548364400416034343698204186575808495617

-- What the hashes rely on: `from_bytes_be` reads digits to the base 256, and Keccak has 32 bytes.
pub record IsPositional (b : BigUint) : Type 0 where
  pub read_empty : b.from_bytes_be [] ≡ 0
  pub read_digit :
      (x : ℕ) (bytes : List ℕ)
      → b.from_bytes_be (x ∷ bytes) ≡ x * 256 ^ length bytes + b.from_bytes_be bytes

abbrev pub AllBytes : List ℕ → Type 0
AllBytes [] = Unit {0}
AllBytes (x ∷ bytes) = (x < 256) × AllBytes bytes

pub record IsDigest (bytes : List ℕ) : Type 0 where
  pub size : length bytes ≡ 32
  pub in_range : AllBytes bytes

module _ (b : BigUint) (hashv : List (List ℕ) → List ℕ) where
  unfoldable pub is_smaller_than_bn254_field_size_be : List ℕ → Bool
  is_smaller_than_bn254_field_size_be bytes = ltb (b.from_bytes_be bytes) modulus

  -- the loop of `hash_to_bn254_field_size_be`: the bump seed, which begins at 255 like the number
  -- of rounds and falls by one in each, is the number of the rounds left
  unfoldable pub bump_loop : List ℕ → ℕ → Option (List ℕ × ℕ)
  unfolding is_smaller_than_bn254_field_size_be
  bump_loop bytes zero = none
  bump_loop bytes (suc n) =
      let hashed_value = set (hashv (bytes ∷ ((suc n ∷ []) ∷ []))) 0 0 in
      let rest = bump_loop bytes n in
      if is_smaller_than_bn254_field_size_be hashed_value then some (hashed_value, suc n) else rest

  unfoldable pub hash_to_bn254_field_size_be : List ℕ → Option (List ℕ × ℕ)
  hash_to_bn254_field_size_be bytes = bump_loop bytes 255

  unfoldable pub hashv_to_bn254_field_size_be : List (List ℕ) → List ℕ
  hashv_to_bn254_field_size_be bytes = set (hashv bytes) 0 0

  first_round :
      (bytes : List ℕ) (n : ℕ)
      → b.from_bytes_be (set (hashv (bytes ∷ ((suc n ∷ []) ∷ []))) 0 0) < modulus
      → bump_loop bytes (suc n) ≡ some (set (hashv (bytes ∷ ((suc n ∷ []) ∷ []))) 0 0, suc n)
  unfolding bump_loop
  first_round bytes n lt =
      rw (lt→ltb (b.from_bytes_be (set (hashv (bytes ∷ ((suc n ∷ []) ∷ []))) 0 0)) modulus lt) refl

  digit_lt : (x power low : ℕ) → x < 256 → low < power → x * power + low < 256 * power
  digit_lt x power low h k = grind arith

  value_lt :
      IsPositional b
      → (bytes : List ℕ) → AllBytes bytes
      → b.from_bytes_be bytes < 256 ^ length bytes
  value_lt p [] all = rw p.read_empty (omega arith)
  value_lt p (x ∷ bytes) (lt, all) =
      rw (p.read_digit, pow-succ')
        (digit_lt x (256 ^ length bytes) (b.from_bytes_be bytes) lt (value_lt p bytes all))

  -- the first byte is 0, so that 31 bytes are left
  value_of_cleared :
      IsPositional b
      → (bytes : List ℕ) → IsDigest bytes
      → b.from_bytes_be (set bytes 0 0) < 256 ^ 31
  value_of_cleared p [] d = absurd (omega (arith, d.size))
  value_of_cleared p (x ∷ bytes) d =
      let size : length bytes ≡ 31 = omega (arith, d.size) in
      let low : b.from_bytes_be bytes < 256 ^ 31 =
        subst (λ n. b.from_bytes_be bytes < 256 ^ n) size (value_lt p bytes d.in_range.1) in
      rw p.read_digit (omega (arith, low))

  -- If the big numbers read bytes as digits to the base 256 and the hash function returns 32
  -- bytes, the loop of `hash_to_bn254_field_size_be` ends in its first round, with the bump
  -- seed 255 and with the hash that `hashv_to_bn254_field_size_be` gives for the bytes and
  -- the seed. The hash is below 2 ^ 248 and below the modulus of the field.
  pub hash_to_bn254_field_size_be_lem :
      (bytes : List ℕ)
      → IsPositional b
      → ((input : List (List ℕ)) → IsDigest (hashv input))
      → (hash : List ℕ) × (hash_to_bn254_field_size_be bytes ≡ some (hash, 255))
        × (hash ≡ hashv_to_bn254_field_size_be (bytes ∷ ((255 ∷ []) ∷ [])))
        × (b.from_bytes_be hash < 2 ^ 248)
        × (b.from_bytes_be hash < modulus)
  unfolding hash_to_bn254_field_size_be hashv_to_bn254_field_size_be
  hash_to_bn254_field_size_be_lem bytes p digest =
      let hash = set (hashv (bytes ∷ ((255 ∷ []) ∷ []))) 0 0 in
      let low : b.from_bytes_be hash < 256 ^ 31 =
        value_of_cleared p (hashv (bytes ∷ ((255 ∷ []) ∷ [])))
          (digest (bytes ∷ ((255 ∷ []) ∷ []))) in
      (
        hash,
        first_round bytes 254 (omega (arith, low)),
        refl,
        omega (arith, low),
        omega (arith, low),
      )
