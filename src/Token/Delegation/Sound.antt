-- ===== src/Token/Delegation/Sound.antt =====
-- programs/compressed-token/src/delegation.rs: approving and revoking keep the tokens, and give
-- them to the delegate and back.
use light_protocol.Prelude.{
  ℕ, ◌+◌, ◌≡◌, ◌⊎◌, inl, inr, refl, arith, true, false, List, [], ◌∷◌, Option, none, some, ok,
  >>=-eq-ok, ok_or, ok_or-ok, ltb, ◌||◌, Bool-cases,
}
use light_protocol.Prelude.Words.{checked_sub, checked_sub-ok}
use light_protocol.System.Accounts.{
  CompressedProof, CompressedCpiContext, OutputCompressedAccountWithPackedContext,
}
use light_protocol.Token.Data.{
  TokenEnv, TokenData, initialized, error_code, arithmetic_underflow, hash_to_field_error, hash_key,
}
use light_protocol.Token.Inputs.{
  Spent, or_zero, get_input_compressed_accounts_with_merkle_context_and_check_signer,
}
use light_protocol.Token.Outputs.{Cpi, instruction_data}
use light_protocol.Token.Holds.{OutputsHold, amount_sum}
use light_protocol.Token.Backed.{IsSound, cpi-Sends}
use light_protocol.Token.Delegation.{
  CompressedTokenInstructionDataApprove, CompressedTokenInstructionDataRevoke, Accounts,
  sum_amounts, check_not_empty, non_zero, lamports_if, approve_plan, plan_with_change,
  plan_without_change, create_accounts, create_input_and_output_accounts_approve, process_approve,
  create_input_and_output_accounts_revoke, process_revoke,
}
use light_protocol.Token.Delegation.Plans.{
  sum_amounts-ok, one_lamport, two_lamports, only_lamports, no_change_of, create_accounts-Follows,
}

-- the account of an approval that the delegate may spend, and the one that is left
abbrev pub approved_token : CompressedTokenInstructionDataApprove → ℕ → TokenData
approved_token inputs authority = record {
  mint = inputs.mint;
  owner = authority;
  amount = inputs.delegated_amount;
  delegate = some inputs.delegate;
  state = initialized;
  tlv = none;
}

abbrev pub own_token : ℕ → ℕ → ℕ → TokenData
own_token mint owner amount = record {
  mint = mint;
  owner = owner;
  amount = amount;
  delegate = none;
  state = initialized;
  tlv = none;
}

-- The outputs of an approval.
abbrev pub Approves :
    TokenEnv
    → CompressedTokenInstructionDataApprove
    → ℕ
    → List OutputCompressedAccountWithPackedContext
    → Type 0
Approves env inputs authority outputs =
    OutputsHold env outputs (approved_token inputs authority ∷ [])
    ⊎ ((change : ℕ) × OutputsHold env outputs
          (approved_token inputs authority ∷ (own_token inputs.mint authority change ∷ [])))

module _ (env : TokenEnv) (inputs : CompressedTokenInstructionDataApprove) (authority : ℕ)
    (remaining_accounts : List ℕ) where
  abbrev ApprovedBy : Accounts → Type 0
  ApprovedBy accounts =
      ((proof : Option CompressedProof) (cpi_context : Option CompressedCpiContext)
        → IsSound env inputs.mint
            (instruction_data accounts.inputs accounts.outputs proof cpi_context) 0 0)
      × Approves env inputs authority accounts.outputs

  approve-ApprovedBy :
      (hashed_mint : List ℕ) (spent : Spent) (accounts : Accounts)
      (sum_inputs change_amount change_lamports : ℕ)
      → hash_key env inputs.mint ≡ some hashed_mint
      → get_input_compressed_accounts_with_merkle_context_and_check_signer false authority none
          remaining_accounts inputs.mint inputs.input_token_data_with_context
        ≡ ok spent
      → amount_sum spent.tokens ≡ inputs.delegated_amount + change_amount
      → or_zero inputs.delegate_lamports + change_lamports ≡ spent.sum_lamports
      → create_accounts env spent inputs.mint
          (some inputs.delegate)
          (approve_plan inputs authority spent.sum_lamports change_amount change_lamports)
          hashed_mint
        ≡ ok accounts
      → ApprovedBy accounts
  unfolding approve_plan
  approve-ApprovedBy hashed_mint spent accounts sum_inputs change_amount change_lamports hashed got
        amounts lamports e =
      by_change (Bool-cases (ltb 0 change_amount || ltb 0 change_lamports))
    where
      given : Option (List (Option ℕ))
      given =
          lamports_if spent.sum_lamports
            (inputs.delegate_lamports ∷ (non_zero change_lamports ∷ []))

      by_change :
          ((ltb 0 change_amount || ltb 0 change_lamports) ≡ true)
            ⊎ ((ltb 0 change_amount || ltb 0 change_lamports) ≡ false)
          → ApprovedBy accounts
      by_change (inl some_change) =
          let (sound, hold) =
            create_accounts-Follows env inputs.mint hashed_mint spent hashed authority
              remaining_accounts inputs.input_token_data_with_context got (some inputs.delegate)
              (plan_with_change inputs authority change_amount given) accounts refl
              (inr (inputs.delegate, refl))
              (λ outputs hold lamports_of.
                two_lamports spent.sum_lamports change_lamports inputs.delegate_lamports outputs
                  (approved_token inputs authority) (own_token inputs.mint authority change_amount)
                  env lamports hold lamports_of)
              (omega (arith, amounts)) (rw some_change at e) in
          (sound, inr (change_amount, hold))
      by_change (inr no_change) =
          let (sound, hold) =
            create_accounts-Follows env inputs.mint hashed_mint spent hashed authority
              remaining_accounts inputs.input_token_data_with_context got (some inputs.delegate)
              (plan_without_change inputs authority given) accounts refl
              (inr (inputs.delegate, refl))
              (λ outputs hold lamports_of.
                only_lamports spent.sum_lamports change_lamports inputs.delegate_lamports outputs
                  (approved_token inputs authority) env lamports
                  (no_change_of change_amount change_lamports no_change).1 hold lamports_of)
              (omega (arith, amounts, (no_change_of change_amount change_lamports no_change).0))
              (rw no_change at e) in
          (sound, inl hold)

  -- If `process_approve` returns, its call of the system program is sound with nothing moved
  -- into or out of the pool. Its outputs hold a token of the authority with the delegated
  -- amount and the delegate and, where there is a second one, a token of the authority
  -- without a delegate.
  pub process_approve-IsSound :
      (cpi : Cpi)
      → process_approve env inputs authority remaining_accounts ≡ ok cpi
      → IsSound env inputs.mint cpi.instruction 0 0
        × Approves env inputs authority cpi.instruction.output_compressed_accounts
  unfolding process_approve create_input_and_output_accounts_approve
  process_approve-IsSound cpi e =
      let (accounts, created, sent) =
        >>=-eq-ok (create_input_and_output_accounts_approve env inputs authority remaining_accounts)
          _ e in
      let (u, p, q) = >>=-eq-ok (check_not_empty inputs.input_token_data_with_context) _ created in
      let (spent, p1, q1) =
        >>=-eq-ok
          (get_input_compressed_accounts_with_merkle_context_and_check_signer false authority none
            remaining_accounts inputs.mint inputs.input_token_data_with_context)
          _ q in
      let (sum_inputs, p2, q2) = >>=-eq-ok (sum_amounts 0 spent.tokens) _ q1 in
      let (change_amount, p3, q3) =
        >>=-eq-ok
          (ok_or (checked_sub sum_inputs inputs.delegated_amount) (error_code arithmetic_underflow))
          _ q2 in
      let (change_lamports, p4, q4) =
        >>=-eq-ok
          (ok_or (checked_sub spent.sum_lamports (or_zero inputs.delegate_lamports))
            (error_code arithmetic_underflow))
          _ q3 in
      let (hashed_mint, p5, q5) =
        >>=-eq-ok (ok_or (hash_key env inputs.mint) (error_code hash_to_field_error)) _ q4 in
      let (le, amount) =
        checked_sub-ok sum_inputs inputs.delegated_amount (error_code arithmetic_underflow) p3 in
      let (le', lamports) =
        checked_sub-ok spent.sum_lamports (or_zero inputs.delegate_lamports)
          (error_code arithmetic_underflow) p4 in
      let (sound, approves) =
        approve-ApprovedBy hashed_mint spent accounts sum_inputs change_amount change_lamports
          (ok_or-ok (hash_key env inputs.mint) (error_code hash_to_field_error) p5) p1
          (omega (arith, sum_amounts-ok 0 spent.tokens p2, le, amount))
          (omega (arith, le', lamports)) q5 in
      cpi-Sends accounts.inputs accounts.outputs (some inputs.proof) inputs.cpi_context
        remaining_accounts cpi
        (λ call.
          IsSound env inputs.mint call 0 0
          × Approves env inputs authority call.output_compressed_accounts)
        sent (sound (some inputs.proof) inputs.cpi_context, approves)

module _ (env : TokenEnv) (inputs : CompressedTokenInstructionDataRevoke) (authority : ℕ)
    (remaining_accounts : List ℕ) where
  -- If `process_revoke` returns, its call of the system program is sound with nothing moved
  -- into or out of the pool, and its one output holds a token of the authority without a
  -- delegate.
  pub process_revoke-IsSound :
      (cpi : Cpi)
      → process_revoke env inputs authority remaining_accounts ≡ ok cpi
      → IsSound env inputs.mint cpi.instruction 0 0
        × ((amount : ℕ) × OutputsHold env cpi.instruction.output_compressed_accounts
              (own_token inputs.mint authority amount ∷ []))
  unfolding process_revoke create_input_and_output_accounts_revoke
  process_revoke-IsSound cpi e =
      let (accounts, created, sent) =
        >>=-eq-ok (create_input_and_output_accounts_revoke env inputs authority remaining_accounts)
          _ e in
      let (u, p, q) = >>=-eq-ok (check_not_empty inputs.input_token_data_with_context) _ created in
      let (spent, p1, q1) =
        >>=-eq-ok
          (get_input_compressed_accounts_with_merkle_context_and_check_signer false authority none
            remaining_accounts inputs.mint inputs.input_token_data_with_context)
          _ q in
      let (sum_inputs, p2, q2) = >>=-eq-ok (sum_amounts 0 spent.tokens) _ q1 in
      let (hashed_mint, p3, q3) =
        >>=-eq-ok (ok_or (hash_key env inputs.mint) (error_code hash_to_field_error)) _ q2 in
      let (sound, hold) =
        create_accounts-Follows env inputs.mint hashed_mint spent
          (ok_or-ok (hash_key env inputs.mint) (error_code hash_to_field_error) p3) authority
          remaining_accounts inputs.input_token_data_with_context p1 none
          (record {
            pubkeys = authority ∷ [];
            is_delegate = none;
            amounts = sum_inputs ∷ [];
            lamports = lamports_if spent.sum_lamports (some spent.sum_lamports ∷ []);
            merkle_tree_indices = inputs.output_account_merkle_tree_index ∷ [];
          })
          accounts refl (inl refl)
          (λ outputs hold lamports_of.
            one_lamport spent.sum_lamports outputs (own_token inputs.mint authority sum_inputs) env
              hold lamports_of)
          (omega (arith, sum_amounts-ok 0 spent.tokens p2)) q3 in
      cpi-Sends accounts.inputs accounts.outputs (some inputs.proof) inputs.cpi_context
        remaining_accounts cpi
        (λ call.
          IsSound env inputs.mint call 0 0
          × ((amount : ℕ) × OutputsHold env call.output_compressed_accounts
                (own_token inputs.mint authority amount ∷ [])))
        sent (sound (some inputs.proof) inputs.cpi_context, (sum_inputs, hold))
