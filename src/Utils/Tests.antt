-- ===== src/Utils/Tests.antt =====
-- The theorems on the hashes to the field and on the fees at small inputs.
use light_protocol.Prelude.{
  ℕ, zero, suc, ◌+◌, ◌*◌, ◌^◌, ◌<◌, ◌≤◌, ◌≡◌, ◌⊎◌, refl, arith, List, [], ◌∷◌, some, ok, length,
  replicate,
}
use light_protocol.BigInt.{BigUint}
use light_protocol.Utils.FieldHash.{
  modulus, IsPositional, IsDigest, AllBytes, hash_to_bn254_field_size_be,
  hashv_to_bn254_field_size_be, hash_to_bn254_field_size_be_lem,
}
use light_protocol.Utils.Fee.{compute_rollover_fee, compute_rollover_fee-covers}

abbrev read_be : List ℕ → ℕ
read_be [] = 0
read_be (x ∷ bytes) = x * 256 ^ length bytes + read_be bytes

abbrev pub big_uint : BigUint
big_uint = record {
  to_bytes_be = λ n. n ∷ [];
  from_bytes_be = read_be;
  to_bytes_le = λ n. n ∷ [];
  from_bytes_le = read_be;
}

-- 32 bytes of 255, of any input
abbrev pub digest : List (List ℕ) → List ℕ
digest parts = replicate 32 255

big_uint-IsPositional : IsPositional big_uint
big_uint-IsPositional = record { read_empty = refl; read_digit = λ x bytes. refl }

replicate-AllBytes : (k : ℕ) → AllBytes (replicate k 255)
replicate-AllBytes zero = tt
replicate-AllBytes (suc k) = (omega arith, replicate-AllBytes k)

digest-IsDigest : (parts : List (List ℕ)) → IsDigest (digest parts)
digest-IsDigest parts = record { size = refl; in_range = replicate-AllBytes 32 }

hash_to_bn254_field_size_be_lem_example :
    (hash : List ℕ) × (hash_to_bn254_field_size_be big_uint digest (7 ∷ []) ≡ some (hash, 255))
    × (hash ≡ hashv_to_bn254_field_size_be big_uint digest ((7 ∷ []) ∷ ((255 ∷ []) ∷ [])))
    × (read_be hash < 2 ^ 248)
    × (read_be hash < modulus)
hash_to_bn254_field_size_be_lem_example =
    hash_to_bn254_field_size_be_lem big_uint digest (7 ∷ []) big_uint-IsPositional digest-IsDigest

-- a rent of 10 for a tree of 8 leaves that is rolled over at 95 per cent
fee_of_eight : compute_rollover_fee 95 3 10 ≡ ok 2
unfolding compute_rollover_fee
fee_of_eight = refl

compute_rollover_fee-covers_example :
    ((◌≡◌ {A = ℕ} 95 0) × (◌≡◌ {A = ℕ} 2 10))
    ⊎ ((95 ≤ 100) × (10 * 100 ≤ 2 * (2 ^ 3 * 95)) × (2 * (2 ^ 3 * 95) < 10 * 100 + 2 ^ 3 * 95))
compute_rollover_fee-covers_example = compute_rollover_fee-covers 95 3 10 2 fee_of_eight
