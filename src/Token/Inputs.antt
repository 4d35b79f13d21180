-- ===== src/Token/Inputs.antt =====
-- programs/compressed-token/src/process_transfer.rs: the input accounts that an instruction spends.
use light_protocol.Prelude.{
  ℕ, Bool, false, List, [], ◌∷◌, Option, none, some, ok, panic, ◌>>=◌, ◌>>◌, guard, unwrap,
  get_elem?, ◌==◌,
}
use light_protocol.Prelude.Bytes.{to_le_bytes}
use light_protocol.Prelude.Words.{add}
use light_protocol.System.Accounts.{
  CompressedAccountData, PackedMerkleContext, PackedCompressedAccountWithMerkleContext,
}
use light_protocol.Token.Data.{
  TokenEnv, TokenData, TokenResult, error_code, delegate_signer_check_failed, id, state_of,
  token_compressed_account_discriminator, hash_key, hash_delegate, hash_inputs_with_hashed_values,
}

pub record InputTokenDataWithContext : Type 0 where
  pub amount : ℕ
  pub delegate_index : Option ℕ
  pub merkle_context : PackedMerkleContext
  pub root_index : ℕ
  pub lamports : Option ℕ
  pub tlv : Option (List ℕ)

pub record DelegatedTransfer : Type 0 where
  pub owner : ℕ
  pub delegate_change_account_index : Option ℕ

-- `unwrap_or(0)` and `unwrap_or_default`
abbrev pub or_zero : Option ℕ → ℕ
or_zero none = 0
or_zero (some n) = n

-- `remaining_accounts[index as usize].key()`; an account is its key
abbrev pub key_at : List ℕ → ℕ → TokenResult ℕ
key_at remaining_accounts index = unwrap (get_elem? remaining_accounts index)

unfoldable pub input_owner : ℕ → Option DelegatedTransfer → Option ℕ → ℕ
input_owner signer signer_is_delegate none = signer
input_owner signer none (some index) = signer
input_owner signer (some delegated_transfer) (some index) = delegated_transfer.owner

-- the check that a signer who is a delegate is the delegate of the account
unfoldable pub check_delegate_signer :
    ℕ → Option DelegatedTransfer → List ℕ → Option ℕ → TokenResult (Unit {0})
check_delegate_signer signer none remaining_accounts delegate_index = ok tt
check_delegate_signer signer (some delegated_transfer) remaining_accounts none = ok tt
check_delegate_signer signer (some delegated_transfer) remaining_accounts (some index) = do
  key ← key_at remaining_accounts index
  guard (signer == key) (error_code delegate_signer_check_failed)

-- `unimplemented!` where there is tlv data
abbrev pub no_tlv : Option (List ℕ) → TokenResult (Unit {0})
no_tlv none = ok tt
no_tlv (some tlv) = panic

unfoldable pub delegate_key : List ℕ → Option ℕ → TokenResult (Option ℕ)
delegate_key remaining_accounts none = ok none
delegate_key remaining_accounts (some index) = do
  key ← key_at remaining_accounts index
  ok (some key)

-- What the loop over the inputs has pushed and summed up.
pub record Spent : Type 0 where
  pub accounts : List PackedCompressedAccountWithMerkleContext
  pub tokens : List TokenData
  pub sum_lamports : ℕ

module _ (is_frozen : Bool) (signer : ℕ) (signer_is_delegate : Option DelegatedTransfer)
    (remaining_accounts : List ℕ) (mint : ℕ) where
  -- one round of the loop, with the sum of the lamports so far
  unfoldable pub read_input :
      ℕ
      → InputTokenDataWithContext
      → TokenResult (PackedCompressedAccountWithMerkleContext × (TokenData × ℕ))
  read_input sum_lamports input = do
    check_delegate_signer signer signer_is_delegate remaining_accounts input.delegate_index
    sum ← add sum_lamports (or_zero input.lamports)
    no_tlv input.tlv
    delegate ← delegate_key remaining_accounts input.delegate_index
    ok (
      record {
        compressed_account = record {
          owner = id;
          lamports = or_zero input.lamports;
          address = none;
          account_data = none;
        };
        merkle_context = input.merkle_context;
        root_index = input.root_index;
        read_only = false;
      },
      (
        record {
          mint = mint;
          owner = input_owner signer signer_is_delegate input.delegate_index;
          amount = input.amount;
          delegate = delegate;
          state = state_of is_frozen;
          tlv = none;
        },
        sum,
      ),
    )

  unfoldable pub input_loop : ℕ → List InputTokenDataWithContext → TokenResult Spent
  input_loop sum_lamports [] =
      ok (record { accounts = []; tokens = []; sum_lamports = sum_lamports })
  input_loop sum_lamports (input ∷ inputs) = do
    (account, token_and_sum) ← read_input sum_lamports input
    rest ← input_loop token_and_sum.1 inputs
    ok (record {
      accounts = account ∷ rest.accounts;
      tokens = token_and_sum.0 ∷ rest.tokens;
      sum_lamports = rest.sum_lamports;
    })

  unfoldable pub get_input_compressed_accounts_with_merkle_context_and_check_signer :
      List InputTokenDataWithContext → TokenResult Spent
  get_input_compressed_accounts_with_merkle_context_and_check_signer inputs = input_loop 0 inputs

module _ (env : TokenEnv) where
  -- the data of one input account
  unfoldable pub token_account_data : Bool → TokenData → List ℕ → TokenResult CompressedAccountData
  token_account_data frozen_inputs token hashed_mint = do
    hashed_owner ← unwrap (hash_key env token.owner)
    hashed_delegate ← hash_delegate env token.delegate
    data_hash ←
        hash_inputs_with_hashed_values env frozen_inputs hashed_mint hashed_owner
          (to_le_bytes 8 token.amount) hashed_delegate
    ok (record {
      discriminator = token_compressed_account_discriminator;
      bytes = env.serialize token;
      data_hash = data_hash;
    })

  unfoldable pub add_token_data_to_input_compressed_accounts :
      Bool
      → List PackedCompressedAccountWithMerkleContext
      → List TokenData
      → List ℕ
      → TokenResult (List PackedCompressedAccountWithMerkleContext)
  add_token_data_to_input_compressed_accounts frozen_inputs [] tokens hashed_mint = ok []
  add_token_data_to_input_compressed_accounts frozen_inputs (account ∷ accounts) [] hashed_mint =
      panic
  add_token_data_to_input_compressed_accounts frozen_inputs (account ∷ accounts) (token ∷ tokens)
        hashed_mint =
      do
        account_data ← token_account_data frozen_inputs token hashed_mint
        rest ← add_token_data_to_input_compressed_accounts frozen_inputs accounts tokens hashed_mint
        ok (
            record account {
              compressed_account = record account.compressed_account {
                account_data = some account_data;
              };
            }
            ∷ rest)
