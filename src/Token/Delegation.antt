-- ===== src/Token/Delegation.antt =====
-- programs/compressed-token/src/delegation.rs: the instructions `approve` and `revoke`.
pub mod Plans
pub mod Sound
use light_protocol.Prelude.{
  ℕ, ◌+◌, ◌-◌, Bool, true, false, not, List, [], ◌∷◌, map, Option, none, some, ok, err, panic,
  ◌>>=◌, ◌>>◌, guard, ok_or, replicate, ltb, ◌==◌, ◌||◌, if◌then◌else◌,
}
use light_protocol.Prelude.Words.{add, checked_sub}
use light_protocol.System.Accounts.{
  CompressedProof, CompressedCpiContext, PackedCompressedAccountWithMerkleContext,
  OutputCompressedAccountWithPackedContext,
}
use light_protocol.Token.Data.{
  TokenEnv, TokenData, TokenResult, TokenError, error_code, arithmetic_underflow,
  hash_to_field_error, no_input_token_accounts_provided, hash_key,
}
use light_protocol.Token.Inputs.{
  InputTokenDataWithContext, Spent, or_zero,
  get_input_compressed_accounts_with_merkle_context_and_check_signer,
  add_token_data_to_input_compressed_accounts,
}
use light_protocol.Token.Outputs.{
  Cpi, default_output, create_output_compressed_accounts,
  cpi_execute_compressed_transaction_transfer,
}

pub record CompressedTokenInstructionDataApprove : Type 0 where
  pub proof : CompressedProof
  pub mint : ℕ
  pub input_token_data_with_context : List InputTokenDataWithContext
  pub cpi_context : Option CompressedCpiContext
  pub delegate : ℕ
  pub delegated_amount : ℕ
  pub delegate_merkle_tree_index : ℕ
  pub change_account_merkle_tree_index : ℕ
  pub delegate_lamports : Option ℕ

pub record CompressedTokenInstructionDataRevoke : Type 0 where
  pub proof : CompressedProof
  pub mint : ℕ
  pub input_token_data_with_context : List InputTokenDataWithContext
  pub cpi_context : Option CompressedCpiContext
  pub output_account_merkle_tree_index : ℕ

-- `iter().map(|x| x.amount).sum::<u64>()`, which panics on overflow
unfoldable pub sum_amounts : ℕ → List TokenData → TokenResult ℕ
sum_amounts sum [] = ok sum
sum_amounts sum (token ∷ tokens) = do sum' ← add sum token.amount; sum_amounts sum' tokens

unfoldable pub check_not_empty : List InputTokenDataWithContext → TokenResult (Unit {0})
check_not_empty [] = err (error_code no_input_token_accounts_provided)
check_not_empty (input ∷ inputs) = ok tt

-- `if n != 0 { Some(n) } else { None }`
abbrev pub non_zero : ℕ → Option ℕ
non_zero n = if n == 0 then none else some n

-- The lamports of the outputs, where the inputs have any.
abbrev pub lamports_if : ℕ → List (Option ℕ) → Option (List (Option ℕ))
lamports_if sum_lamports lamports = if sum_lamports == 0 then none else some lamports

-- what the outputs of an instruction are made from
pub record OutputPlan : Type 0 where
  pub pubkeys : List ℕ
  pub is_delegate : Option (List Bool)
  pub amounts : List ℕ
  pub lamports : Option (List (Option ℕ))
  pub merkle_tree_indices : List ℕ

-- The accounts of an instruction, with their data.
pub record Accounts : Type 0 where
  pub inputs : List PackedCompressedAccountWithMerkleContext
  pub outputs : List OutputCompressedAccountWithPackedContext

-- the plans of an approval: a delegated account and a change account, or the delegated one alone
abbrev pub plan_with_change :
    CompressedTokenInstructionDataApprove → ℕ → ℕ → Option (List (Option ℕ)) → OutputPlan
plan_with_change inputs authority change_amount lamports = record {
  pubkeys = authority ∷ (authority ∷ []);
  is_delegate = some (true ∷ (false ∷ []));
  amounts = inputs.delegated_amount ∷ (change_amount ∷ []);
  lamports = lamports;
  merkle_tree_indices =
      inputs.delegate_merkle_tree_index ∷ (inputs.change_account_merkle_tree_index ∷ []);
}

abbrev pub plan_without_change :
    CompressedTokenInstructionDataApprove → ℕ → Option (List (Option ℕ)) → OutputPlan
plan_without_change inputs authority lamports = record {
  pubkeys = authority ∷ [];
  is_delegate = some (true ∷ []);
  amounts = inputs.delegated_amount ∷ [];
  lamports = lamports;
  merkle_tree_indices = inputs.delegate_merkle_tree_index ∷ [];
}

unfoldable pub approve_plan : CompressedTokenInstructionDataApprove → ℕ → ℕ → ℕ → ℕ → OutputPlan
approve_plan inputs authority sum_lamports change_amount change_lamports =
    let lamports =
      lamports_if sum_lamports (inputs.delegate_lamports ∷ (non_zero change_lamports ∷ [])) in
    if ltb 0 change_amount || ltb 0 change_lamports
    then plan_with_change inputs authority change_amount lamports
    else plan_without_change inputs authority lamports

module _ (env : TokenEnv) where
  -- the outputs of a plan, in as many new slots, and the inputs with their data
  unfoldable pub create_accounts : Spent → ℕ → Option ℕ → OutputPlan → List ℕ → TokenResult Accounts
  create_accounts spent mint delegate plan hashed_mint = do
    (outputs, output_lamports) ←
        create_output_compressed_accounts env (map (λ owner. default_output) plan.pubkeys) mint
          plan.pubkeys delegate plan.is_delegate plan.amounts plan.lamports hashed_mint
          plan.merkle_tree_indices
    inputs ←
        add_token_data_to_input_compressed_accounts env false spent.accounts spent.tokens
          hashed_mint
    ok (record { inputs = inputs; outputs = outputs })

  unfoldable pub create_input_and_output_accounts_approve :
      CompressedTokenInstructionDataApprove → ℕ → List ℕ → TokenResult Accounts
  create_input_and_output_accounts_approve inputs authority remaining_accounts = do
    check_not_empty inputs.input_token_data_with_context
    spent ←
        get_input_compressed_accounts_with_merkle_context_and_check_signer false authority none
          remaining_accounts inputs.mint inputs.input_token_data_with_context
    sum_inputs ← sum_amounts 0 spent.tokens
    change_amount ←
        ok_or (checked_sub sum_inputs inputs.delegated_amount) (error_code arithmetic_underflow)
    change_lamports ←
        ok_or (checked_sub spent.sum_lamports (or_zero inputs.delegate_lamports))
          (error_code arithmetic_underflow)
    hashed_mint ← ok_or (hash_key env inputs.mint) (error_code hash_to_field_error)
    create_accounts spent inputs.mint (some inputs.delegate)
        (approve_plan inputs authority spent.sum_lamports change_amount change_lamports) hashed_mint

  unfoldable pub process_approve :
      CompressedTokenInstructionDataApprove → ℕ → List ℕ → TokenResult Cpi
  process_approve inputs authority remaining_accounts = do
    accounts ← create_input_and_output_accounts_approve inputs authority remaining_accounts
    cpi_execute_compressed_transaction_transfer accounts.inputs accounts.outputs (some inputs.proof)
        inputs.cpi_context remaining_accounts

  unfoldable pub create_input_and_output_accounts_revoke :
      CompressedTokenInstructionDataRevoke → ℕ → List ℕ → TokenResult Accounts
  create_input_and_output_accounts_revoke inputs authority remaining_accounts = do
    check_not_empty inputs.input_token_data_with_context
    spent ←
        get_input_compressed_accounts_with_merkle_context_and_check_signer false authority none
          remaining_accounts inputs.mint inputs.input_token_data_with_context
    sum_inputs ← sum_amounts 0 spent.tokens
    hashed_mint ← ok_or (hash_key env inputs.mint) (error_code hash_to_field_error)
    create_accounts spent inputs.mint none
        (record {
          pubkeys = authority ∷ [];
          is_delegate = none;
          amounts = sum_inputs ∷ [];
          lamports = lamports_if spent.sum_lamports (some spent.sum_lamports ∷ []);
          merkle_tree_indices = inputs.output_account_merkle_tree_index ∷ [];
        })
        hashed_mint

  unfoldable pub process_revoke :
      CompressedTokenInstructionDataRevoke → ℕ → List ℕ → TokenResult Cpi
  process_revoke inputs authority remaining_accounts = do
    accounts ← create_input_and_output_accounts_revoke inputs authority remaining_accounts
    cpi_execute_compressed_transaction_transfer accounts.inputs accounts.outputs (some inputs.proof)
        inputs.cpi_context remaining_accounts
