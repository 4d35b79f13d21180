-- ===== src/Token/Freeze.antt =====
-- programs/compressed-token/src/freeze.rs: the instructions `freeze` and `thaw`.
pub mod Loops
pub mod Sound
use light_protocol.Prelude.{
  ℕ, Bool, List, [], ◌∷◌, map, Option, none, some, ok, err, panic, ◌>>=◌, ◌>>◌, guard, unwrap, ◌==◌,
  length, replicate,
}
use light_protocol.System.Accounts.{
  CompressedProof, CompressedCpiContext, PackedCompressedAccountWithMerkleContext,
  OutputCompressedAccountWithPackedContext,
}
use light_protocol.Token.Data.{
  TokenEnv, TokenData, TokenResult, TokenError, error_code, invalid_freeze_authority, id, state_of,
  token_compressed_account_discriminator, hash_key, hash,
}
use light_protocol.Token.Inputs.{
  InputTokenDataWithContext, Spent, or_zero, delegate_key,
  get_input_compressed_accounts_with_merkle_context_and_check_signer,
  add_token_data_to_input_compressed_accounts,
}
use light_protocol.Token.Outputs.{Cpi, default_output, cpi_execute_compressed_transaction_transfer}
use light_protocol.Token.Delegation.{Accounts, check_not_empty}

pub record CompressedTokenInstructionDataFreeze : Type 0 where
  pub proof : CompressedProof
  pub owner : ℕ
  pub input_token_data_with_context : List InputTokenDataWithContext
  pub cpi_context : Option CompressedCpiContext
  pub outputs_merkle_tree_index : ℕ

-- The accounts of the instruction that are read: its authority and the mint, with the authority
-- of the mint that may freeze.
pub record FreezeInstruction : Type 0 where
  pub authority : ℕ
  pub mint : ℕ
  pub freeze_authority : Option ℕ
  pub remaining_accounts : List ℕ

-- the constraint of anchor on `authority`
unfoldable pub check_freeze_authority : FreezeInstruction → TokenResult (Unit {0})
check_freeze_authority ctx = do
  freeze_authority ← unwrap ctx.freeze_authority
  guard (ctx.authority == freeze_authority) (error_code invalid_freeze_authority)

module _ (env : TokenEnv) (frozen_outputs : Bool) (remaining_accounts : List ℕ) (mint owner : ℕ)
    (outputs_merkle_tree_index : ℕ) where
  -- one round of the loop
  unfoldable pub token_output :
      InputTokenDataWithContext → TokenResult OutputCompressedAccountWithPackedContext
  token_output input = do
    delegate ← delegate_key remaining_accounts input.delegate_index
    let token : TokenData = record {
      mint = mint;
      owner = owner;
      amount = input.amount;
      delegate = delegate;
      state = state_of frozen_outputs;
      tlv = none;
    }
    data_hash ← hash env token
    ok (record {
      compressed_account = record {
        owner = id;
        lamports = or_zero input.lamports;
        address = none;
        account_data = some (record {
          discriminator = token_compressed_account_discriminator;
          bytes = env.serialize token;
          data_hash = data_hash;
        });
      };
      merkle_tree_index = outputs_merkle_tree_index;
    })

  -- The loop over the inputs, which fills the slots of `output_compressed_accounts` in order.
  unfoldable pub create_token_output_accounts :
      List InputTokenDataWithContext
      → List OutputCompressedAccountWithPackedContext
      → TokenResult (List OutputCompressedAccountWithPackedContext)
  create_token_output_accounts [] slots = ok slots
  create_token_output_accounts (input ∷ inputs) [] = do written ← token_output input; panic
  create_token_output_accounts (input ∷ inputs) (slot ∷ slots) = do
    output ← token_output input
    rest ← create_token_output_accounts inputs slots
    ok (output ∷ rest)

module _ (env : TokenEnv) (frozen_inputs frozen_outputs : Bool) where
  unfoldable pub create_input_and_output_accounts_freeze_or_thaw :
      CompressedTokenInstructionDataFreeze → ℕ → List ℕ → TokenResult Accounts
  create_input_and_output_accounts_freeze_or_thaw inputs mint remaining_accounts = do
    check_not_empty inputs.input_token_data_with_context
    spent ←
        get_input_compressed_accounts_with_merkle_context_and_check_signer frozen_inputs
          inputs.owner none remaining_accounts mint inputs.input_token_data_with_context
    hashed_mint ← unwrap (hash_key env mint)
    outputs ←
        create_token_output_accounts env frozen_outputs remaining_accounts mint inputs.owner
          inputs.outputs_merkle_tree_index inputs.input_token_data_with_context
          (replicate (length spent.accounts) default_output)
    accounts ←
        add_token_data_to_input_compressed_accounts env frozen_inputs spent.accounts spent.tokens
          hashed_mint
    ok (record { inputs = accounts; outputs = outputs })

  -- `freeze` from inputs that are not frozen to outputs that are, and `thaw` the other way
  unfoldable pub process_freeze_or_thaw :
      FreezeInstruction → CompressedTokenInstructionDataFreeze → TokenResult Cpi
  process_freeze_or_thaw ctx inputs = do
    check_freeze_authority ctx
    accounts ←
        create_input_and_output_accounts_freeze_or_thaw inputs ctx.mint ctx.remaining_accounts
    cpi_execute_compressed_transaction_transfer accounts.inputs accounts.outputs (some inputs.proof)
        inputs.cpi_context ctx.remaining_accounts
