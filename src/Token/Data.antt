-- ===== src/Token/Data.antt =====
-- programs/compressed-token/src: token_data.rs, the errors of lib.rs, and what the program takes
-- from other code. A public key is its 256-bit number.
use light_protocol.Prelude.{
  ℕ, Bool, true, false, List, [], ◌∷◌, ◌++◌, Option, none, some, Result, ok, ◌>>=◌, map_err, unwrap,
}
use light_protocol.Prelude.Bytes.{to_le_bytes, to_be_bytes}
use light_protocol.BigInt.{BigUint}
use light_protocol.Utils.FieldHash.{hash_to_bn254_field_size_be}

pub data ErrorCode : Type 0 where
  public_key_amount_missmatch : ErrorCode
  compute_input_sum_failed : ErrorCode
  compute_output_sum_failed : ErrorCode
  compute_compress_sum_failed : ErrorCode
  compute_decompress_sum_failed : ErrorCode
  sum_check_failed : ErrorCode
  decompress_recipient_undefined_for_decompress : ErrorCode
  compressed_pda_undefined_for_decompress : ErrorCode
  de_compress_amount_undefined_for_decompress : ErrorCode
  compressed_pda_undefined_for_compress : ErrorCode
  de_compress_amount_undefined_for_compress : ErrorCode
  delegate_signer_check_failed : ErrorCode
  mint_too_large : ErrorCode
  spl_token_supply_mismatch : ErrorCode
  heap_memory_check_failed : ErrorCode
  instruction_not_callable : ErrorCode
  arithmetic_underflow : ErrorCode
  hash_to_field_error : ErrorCode
  invalid_authority_mint : ErrorCode
  invalid_freeze_authority : ErrorCode
  invalid_delegate_index : ErrorCode
  token_pool_pda_undefined : ErrorCode
  is_token_pool_pda : ErrorCode
  invalid_token_pool_pda : ErrorCode
  no_input_token_accounts_provided : ErrorCode
  no_inputs_provided : ErrorCode

-- The errors of anchor: the program's own, and those of other code by their number.
pub data TokenError : Type 0 where
  error_code : ErrorCode → TokenError
  program_error : ℕ → TokenError

abbrev pub TokenResult {κ} : Type κ → Type κ
TokenResult = Result TokenError

pub data AccountState : Type 0 where
  initialized : AccountState
  frozen : AccountState

pub record TokenData : Type 0 where
  pub mint : ℕ
  pub owner : ℕ
  pub amount : ℕ
  pub delegate : Option ℕ
  pub state : AccountState
  pub tlv : Option (List ℕ)

-- What the program takes from other code: the numbers of num_bigint, Keccak, Poseidon (with the
-- number of its error), the borsh form of a token, and the derivation of program addresses.
pub record TokenEnv : Type 0 where
  pub big_uint : BigUint
  pub keccak_hashv : List (List ℕ) → List ℕ
  pub poseidon_hashv : List (List ℕ) → Result ℕ (List ℕ)
  pub serialize : TokenData → List ℕ
  pub find_program_address : List (List ℕ) → ℕ → ℕ

-- `crate::ID`, cTokenmWW8bLPjZEBAUgYy3zKxQZW6VKi7bqNFEVv3m
abbrev pub id : ℕ
id = 4109046759515463434807186467156057489416782442188856414068770525709067574084

-- `TOKEN_COMPRESSED_ACCOUNT_DISCRIMINATOR`
abbrev pub token_compressed_account_discriminator : List ℕ
token_compressed_account_discriminator = 2 ∷ (0 ∷ (0 ∷ (0 ∷ (0 ∷ (0 ∷ (0 ∷ (0 ∷ [])))))))

-- `AccountState::Frozen as u8`
abbrev pub frozen_byte : ℕ
frozen_byte = 1

abbrev pub state_of : Bool → AccountState
state_of true = frozen
state_of false = initialized

-- The parts of the hash that are left out where they have no value.
abbrev pub delegate_part : Option (List ℕ) → List (List ℕ)
delegate_part none = []
delegate_part (some hashed_delegate) = hashed_delegate ∷ []

abbrev pub state_part : Bool → List (List ℕ)
state_part true = (frozen_byte ∷ []) ∷ []
state_part false = []

abbrev pub is_frozen : AccountState → Bool
is_frozen initialized = false
is_frozen frozen = true

module _ (env : TokenEnv) where
  -- `hash_to_bn254_field_size_be` of the bytes of a public key, without the bump
  unfoldable pub hash_key : ℕ → Option (List ℕ)
  unfolding hash_to_bn254_field_size_be
  hash_key key =
      elim (hash_to_bn254_field_size_be env.big_uint env.keccak_hashv (to_be_bytes 32 key)) [
        | none ↦ none
        | some (hash, bump) ↦ some hash
      ]

  -- `hash_inputs_with_hashed_values`, which `hash_with_hashed_values` calls with `false` and
  -- `hash_frozen_with_hashed_values` with `true`
  unfoldable pub hash_inputs_with_hashed_values :
      Bool → List ℕ → List ℕ → List ℕ → Option (List ℕ) → TokenResult (List ℕ)
  hash_inputs_with_hashed_values frozen_inputs mint owner amount_bytes hashed_delegate =
      map_err program_error (
        env.poseidon_hashv (
          mint
          ∷ (owner ∷ (amount_bytes ∷ (delegate_part hashed_delegate ++ state_part frozen_inputs)))))

  -- the hash of the delegate, if there is one
  unfoldable pub hash_delegate : Option ℕ → TokenResult (Option (List ℕ))
  hash_delegate none = ok none
  hash_delegate (some key) = do hash ← unwrap (hash_key key); ok (some hash)

  -- `DataHasher::hash` of `TokenData`
  unfoldable pub hash : TokenData → TokenResult (List ℕ)
  hash token = do
    hashed_mint ← unwrap (hash_key token.mint)
    hashed_owner ← unwrap (hash_key token.owner)
    hashed_delegate ← hash_delegate token.delegate
    hash_inputs_with_hashed_values (is_frozen token.state) hashed_mint hashed_owner
        (to_le_bytes 8 token.amount) hashed_delegate
