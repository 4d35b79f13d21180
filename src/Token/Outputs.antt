-- ===== src/Token/Outputs.antt =====
-- programs/compressed-token/src/process_transfer.rs: the output accounts that an instruction
-- creates, and the call of the system program.
use light_protocol.Prelude.{
  ℕ, ◌+◌, Bool, true, false, List, [], ◌∷◌, Option, none, some, ok, panic, ◌>>=◌, unwrap, get_elem?,
  replicate,
}
use light_protocol.Prelude.Bytes.{to_le_bytes}
use light_protocol.Prelude.Words.{add}
use light_protocol.System.Accounts.{
  CompressedProof, CompressedCpiContext, InstructionDataInvokeCpi,
  PackedCompressedAccountWithMerkleContext, OutputCompressedAccountWithPackedContext,
}
use light_protocol.Token.Data.{
  TokenEnv, TokenData, TokenResult, initialized, id, token_compressed_account_discriminator,
  hash_key, hash_inputs_with_hashed_values,
}
use light_protocol.Token.Inputs.{or_zero, key_at}

-- `OutputCompressedAccountWithPackedContext::default`
abbrev pub default_output : OutputCompressedAccountWithPackedContext
default_output = record {
  compressed_account = record { owner = 0; lamports = 0; address = none; account_data = none };
  merkle_tree_index = 0;
}

-- `is_delegate.map(|is_delegate| is_delegate[i]).unwrap_or(false)`
unfoldable pub is_delegate_at : Option (List Bool) → ℕ → TokenResult Bool
is_delegate_at none i = ok false
is_delegate_at (some is_delegate) i = unwrap (get_elem? is_delegate i)

-- `lamports.and_then(|lamports| lamports[i]).unwrap_or(0)`
unfoldable pub lamports_at : Option (List (Option ℕ)) → ℕ → TokenResult ℕ
lamports_at none i = ok 0
lamports_at (some lamports) i = do at ← unwrap (get_elem? lamports i); ok (or_zero at)

abbrev pub delegate_if : {A : Type 0} → Bool → Option A → Option A
delegate_if true delegate = delegate
delegate_if false delegate = none

module _ (env : TokenEnv) where
  -- `hashed_delegate_store`
  unfoldable pub hash_delegate_store : Option ℕ → TokenResult (List ℕ)
  hash_delegate_store none = ok (replicate 32 0)
  hash_delegate_store (some delegate) = unwrap (hash_key env delegate)

  module _ (mint : ℕ) (delegate : Option ℕ) (hashed_delegate_store : List ℕ)
      (is_delegate : Option (List Bool)) (lamports : Option (List (Option ℕ)))
      (hashed_mint : List ℕ) (merkle_tree_indices : List ℕ) where
    -- one round of the loop: the account with index `i`, and the sum of the lamports with its own
    unfoldable pub output_account :
        ℕ → ℕ → ℕ → ℕ → TokenResult (OutputCompressedAccountWithPackedContext × ℕ)
    output_account i owner amount sum_lamports = do
      delegated ← is_delegate_at is_delegate i
      let token : TokenData = record {
        mint = mint;
        owner = owner;
        amount = amount;
        delegate = delegate_if delegated delegate;
        state = initialized;
        tlv = none;
      }
      hashed_owner ← unwrap (hash_key env owner)
      data_hash ←
          hash_inputs_with_hashed_values env false hashed_mint hashed_owner (to_le_bytes 8 amount)
            (delegate_if delegated (some hashed_delegate_store))
      own_lamports ← lamports_at lamports i
      sum ← add sum_lamports own_lamports
      merkle_tree_index ← unwrap (get_elem? merkle_tree_indices i)
      ok (
        record {
          compressed_account = record {
            owner = id;
            lamports = own_lamports;
            address = none;
            account_data = some (record {
              discriminator = token_compressed_account_discriminator;
              bytes = env.serialize token;
              data_hash = data_hash;
            });
          };
          merkle_tree_index = merkle_tree_index;
        },
        sum,
      )

    -- The loop over the owners and amounts, from index `i` on. The slots of
    -- `output_compressed_accounts` from `i` on are the third list; the result has them filled.
    unfoldable pub output_loop :
        ℕ
        → List ℕ
        → List ℕ
        → List OutputCompressedAccountWithPackedContext
        → ℕ
        → TokenResult (List OutputCompressedAccountWithPackedContext × ℕ)
    output_loop i [] amounts slots sum_lamports = ok (slots, sum_lamports)
    output_loop i (owner ∷ owners) [] slots sum_lamports = ok (slots, sum_lamports)
    output_loop i (owner ∷ owners) (amount ∷ amounts) [] sum_lamports = do
      written ← output_account i owner amount sum_lamports
      panic
    output_loop i (owner ∷ owners) (amount ∷ amounts) (slot ∷ slots) sum_lamports = do
      (account, sum) ← output_account i owner amount sum_lamports
      (rest, total) ← output_loop (i + 1) owners amounts slots sum
      ok (account ∷ rest, total)

  unfoldable pub create_output_compressed_accounts :
      List OutputCompressedAccountWithPackedContext
      → ℕ
      → List ℕ
      → Option ℕ
      → Option (List Bool)
      → List ℕ
      → Option (List (Option ℕ))
      → List ℕ
      → List ℕ
      → TokenResult (List OutputCompressedAccountWithPackedContext × ℕ)
  create_output_compressed_accounts slots mint pubkeys delegate is_delegate amounts lamports
        hashed_mint merkle_tree_indices =
      do
        hashed_delegate_store ← hash_delegate_store delegate
        output_loop mint delegate hashed_delegate_store is_delegate lamports hashed_mint
            merkle_tree_indices 0 pubkeys amounts slots 0

-- What the program sends to the system program, with the account of the cpi context.
pub record Cpi : Type 0 where
  pub instruction : InstructionDataInvokeCpi
  pub cpi_context_account : Option ℕ

unfoldable pub cpi_context_account_of :
    Option CompressedCpiContext → List ℕ → TokenResult (Option ℕ)
cpi_context_account_of none remaining_accounts = ok none
cpi_context_account_of (some cpi_context) remaining_accounts = do
  key ← key_at remaining_accounts cpi_context.cpi_context_account_index
  ok (some key)

-- `CPI_AUTHORITY_PDA_SEED`, "cpi_authority", and `BUMP_CPI_AUTHORITY`
abbrev pub get_cpi_signer_seeds : List (List ℕ)
get_cpi_signer_seeds =
    (99
      ∷ (112
          ∷ (105
              ∷ (95 ∷ (97 ∷ (117 ∷ (116 ∷ (104 ∷ (111 ∷ (114 ∷ (105 ∷ (116 ∷ (121 ∷ [])))))))))))))
    ∷ ((254 ∷ []) ∷ [])

-- the data of the call
abbrev pub instruction_data :
    List PackedCompressedAccountWithMerkleContext
    → List OutputCompressedAccountWithPackedContext
    → Option CompressedProof
    → Option CompressedCpiContext
    → InstructionDataInvokeCpi
instruction_data inputs outputs proof cpi_context = record {
  proof = proof;
  new_address_params = [];
  input_compressed_accounts_with_merkle_context = inputs;
  output_compressed_accounts = outputs;
  relay_fee = none;
  compress_or_decompress_lamports = none;
  is_compress = false;
  signer_seeds = get_cpi_signer_seeds;
  cpi_context = cpi_context;
}

unfoldable pub cpi_execute_compressed_transaction_transfer :
    List PackedCompressedAccountWithMerkleContext
    → List OutputCompressedAccountWithPackedContext
    → Option CompressedProof
    → Option CompressedCpiContext
    → List ℕ
    → TokenResult Cpi
cpi_execute_compressed_transaction_transfer inputs outputs proof cpi_context remaining_accounts = do
  cpi_context_account ← cpi_context_account_of cpi_context remaining_accounts
  ok (record {
    instruction = instruction_data inputs outputs proof cpi_context;
    cpi_context_account = cpi_context_account;
  })
