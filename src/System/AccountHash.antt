-- ===== src/System/AccountHash.antt =====
-- programs/system/src/sdk/compressed_account.rs: the hash of a compressed account. The hash
-- functions and the numbers of num_bigint are parameters.
pub mod Known
use light_protocol.Prelude.{
  ℕ, Bool, true, false, List, [], ◌∷◌, ◌++◌, Option, none, some, Result, ok, err, panic, ◌>>=◌,
  map_err, unwrap, ◌==◌, if◌then◌else◌,
}
use light_protocol.Prelude.Bytes.{to_le_bytes, to_be_bytes}
use light_protocol.BigInt.{BigUint}
use light_protocol.Utils.FieldHash.{hash_to_bn254_field_size_be}
use light_protocol.System.Accounts.{CompressedAccount, CompressedAccountData}
use light_protocol.System.CpiSigner.{SystemError, program_error}

-- What the program takes from other code: big numbers, Keccak, and Poseidon with its error's number.
pub record SystemEnv : Type 0 where
  pub big_uint : BigUint
  pub keccak_hashv : List (List ℕ) → List ℕ
  pub poseidon_hashv : List (List ℕ) → Result ℕ (List ℕ)

-- The parts of the hash that are left out where they have no value.
abbrev pub lamports_part : ℕ → List (List ℕ)
unfolding to_le_bytes
lamports_part lamports = if lamports == 0 then [] else (1 ∷ to_le_bytes 8 lamports) ∷ []

abbrev pub address_part : Option (List ℕ) → List (List ℕ)
address_part none = []
address_part (some address) = address ∷ []

abbrev pub data_part : Option CompressedAccountData → List (List ℕ)
data_part none = []
data_part (some account_data) = (2 ∷ account_data.discriminator) ∷ (account_data.data_hash ∷ [])

module _ (env : SystemEnv) where
  -- `hash_to_bn254_field_size_be` of the bytes of a public key, without the bump
  unfoldable pub hash_pubkey : ℕ → Option (List ℕ)
  hash_pubkey key =
      elim (hash_to_bn254_field_size_be env.big_uint env.keccak_hashv (to_be_bytes 32 key)) [
        | none ↦ none
        | some (hash, bump) ↦ some hash
      ]

  unfoldable pub hash_with_hashed_values :
      CompressedAccount → List ℕ → List ℕ → ℕ → Result SystemError (List ℕ)
  hash_with_hashed_values account owner_hashed merkle_tree_hashed leaf_index =
      map_err program_error (
        env.poseidon_hashv (
          owner_hashed
          ∷ (to_le_bytes 4 leaf_index
              ∷ (merkle_tree_hashed
                  ∷ (lamports_part account.lamports
                      ++ (address_part account.address ++ data_part account.account_data))))))

  unfoldable pub hash : CompressedAccount → ℕ → ℕ → Result SystemError (List ℕ)
  hash account merkle_tree_pubkey leaf_index = do
    hashed_owner ← unwrap (hash_pubkey account.owner)
    hashed_merkle_tree ← unwrap (hash_pubkey merkle_tree_pubkey)
    hash_with_hashed_values account hashed_owner hashed_merkle_tree leaf_index

  -- The hashes of public keys that are known: `hashed_pubkeys`, with `iter().find`.
  abbrev pub find_hashed : List (ℕ × List ℕ) → ℕ → Option (List ℕ)
  find_hashed [] key = none
  find_hashed ((known, hashed) ∷ rest) key =
      let found = find_hashed rest key in if known == key then some hashed else found

  -- the hash of a key that is known, or a new one, which is then known
  unfoldable pub find_or_hash :
      List (ℕ × List ℕ) → ℕ → Result SystemError (List ℕ × List (ℕ × List ℕ))
  find_or_hash hashed_pubkeys key =
      let new : Result SystemError (List ℕ × List (ℕ × List ℕ)) = (do
        hashed ← unwrap (hash_pubkey key)
        ok (hashed, hashed_pubkeys ++ ((key, hashed) ∷ []))) in
      elim (find_hashed hashed_pubkeys key) [
        | none ↦ new
        | some hashed ↦ ok (hashed, hashed_pubkeys)
      ]
