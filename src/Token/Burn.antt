-- ===== src/Token/Burn.antt =====
-- programs/compressed-token/src/burn.rs: the instruction `burn`.
pub mod Sound
use light_protocol.Prelude.{
  ℕ, ◌+◌, ◌-◌, Bool, true, false, not, List, [], ◌∷◌, map, Option, none, some, ok, err, panic,
  ◌>>=◌, ◌>>◌, guard, ok_or, replicate, set, ltb, ◌==◌, ◌||◌, if◌then◌else◌,
}
use light_protocol.Prelude.Words.{sub, checked_sub}
use light_protocol.System.Accounts.{
  CompressedProof, CompressedCpiContext, OutputCompressedAccountWithPackedContext,
}
use light_protocol.Token.Data.{
  TokenEnv, TokenData, TokenResult, TokenError, error_code, arithmetic_underflow,
  hash_to_field_error, invalid_delegate_index, spl_token_supply_mismatch, hash_key,
}
use light_protocol.Token.Inputs.{
  InputTokenDataWithContext, DelegatedTransfer, Spent,
  get_input_compressed_accounts_with_merkle_context_and_check_signer,
  add_token_data_to_input_compressed_accounts,
}
use light_protocol.Token.Outputs.{
  Cpi, default_output, create_output_compressed_accounts,
  cpi_execute_compressed_transaction_transfer,
}
use light_protocol.Token.Delegation.{Accounts, OutputPlan, sum_amounts, create_accounts}

pub record CompressedTokenInstructionDataBurn : Type 0 where
  pub proof : CompressedProof
  pub input_token_data_with_context : List InputTokenDataWithContext
  pub cpi_context : Option CompressedCpiContext
  pub burn_amount : ℕ
  pub change_account_merkle_tree_index : ℕ
  pub delegated_transfer : Option DelegatedTransfer

-- The accounts of the instruction that the handler reads, with the balance of the token pool.
pub record BurnInstruction : Type 0 where
  pub authority : ℕ
  pub mint : ℕ
  pub token_pool_balance : ℕ
  pub remaining_accounts : List ℕ

-- `burn_spl_from_pool_pda`, with the burning of the SPL token program, which returns the balance
-- of the pool afterwards, as a parameter
unfoldable pub burn_spl_from_pool_pda : (ℕ → ℕ → TokenResult ℕ) → ℕ → ℕ → TokenResult ℕ
burn_spl_from_pool_pda spl_burn pre_token_balance burn_amount = do
  post_token_balance ← spl_burn pre_token_balance burn_amount
  expected ← sub pre_token_balance burn_amount
  guard (post_token_balance == expected) (error_code spl_token_supply_mismatch)
  ok post_token_balance

-- the marks, the owner and the delegate of the change account
pub record ChangeOwner : Type 0 where
  pub is_delegate : Option (List Bool)
  pub owner : ℕ
  pub delegate : Option ℕ

unfoldable pub change_owner : Option DelegatedTransfer → ℕ → TokenResult ChangeOwner
change_owner none authority = ok (record { is_delegate = none; owner = authority; delegate = none })
change_owner (some delegated_transfer) authority =
    elim delegated_transfer.delegate_change_account_index [
      | none ↦ err (error_code invalid_delegate_index)
      | some index ↦
          if ltb index 1
          then ok (record {
            is_delegate = some (set (false ∷ []) index true);
            owner = delegated_transfer.owner;
            delegate = some authority;
          })
          else panic
    ]

module _ (env : TokenEnv) where
  -- the change account, if tokens or lamports are left
  unfoldable pub burn_outputs :
      CompressedTokenInstructionDataBurn
      → ℕ
      → ℕ
      → List ℕ
      → ℕ
      → ℕ
      → TokenResult (List OutputCompressedAccountWithPackedContext)
  burn_outputs inputs authority mint hashed_mint change_amount sum_lamports =
      let with_change : TokenResult (List OutputCompressedAccountWithPackedContext) = (do
        change ← change_owner inputs.delegated_transfer authority
        (outputs, output_lamports) ←
            create_output_compressed_accounts env (default_output ∷ []) mint (change.owner ∷ [])
              change.delegate change.is_delegate (change_amount ∷ [])
              (if ltb 0 sum_lamports then some (some sum_lamports ∷ []) else none) hashed_mint
              (inputs.change_account_merkle_tree_index ∷ [])
        ok outputs) in
      if ltb 0 change_amount || ltb 0 sum_lamports then with_change else ok []

  unfoldable pub create_input_and_output_accounts_burn :
      CompressedTokenInstructionDataBurn → ℕ → List ℕ → ℕ → TokenResult Accounts
  create_input_and_output_accounts_burn inputs authority remaining_accounts mint = do
    spent ←
        get_input_compressed_accounts_with_merkle_context_and_check_signer false authority
          inputs.delegated_transfer remaining_accounts mint inputs.input_token_data_with_context
    sum_inputs ← sum_amounts 0 spent.tokens
    change_amount ←
        ok_or (checked_sub sum_inputs inputs.burn_amount) (error_code arithmetic_underflow)
    hashed_mint ← ok_or (hash_key env mint) (error_code hash_to_field_error)
    outputs ← burn_outputs inputs authority mint hashed_mint change_amount spent.sum_lamports
    accounts ←
        add_token_data_to_input_compressed_accounts env false spent.accounts spent.tokens
          hashed_mint
    ok (record { inputs = accounts; outputs = outputs })

  -- the balance of the pool after it, and the call
  unfoldable pub process_burn :
      (ℕ → ℕ → TokenResult ℕ)
      → BurnInstruction
      → CompressedTokenInstructionDataBurn
      → TokenResult (ℕ × Cpi)
  process_burn spl_burn ctx inputs = do
    balance ← burn_spl_from_pool_pda spl_burn ctx.token_pool_balance inputs.burn_amount
    accounts ←
        create_input_and_output_accounts_burn inputs ctx.authority ctx.remaining_accounts ctx.mint
    cpi ←
        cpi_execute_compressed_transaction_transfer accounts.inputs accounts.outputs
          (some inputs.proof) inputs.cpi_context ctx.remaining_accounts
    ok (balance, cpi)
