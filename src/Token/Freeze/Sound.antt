-- ===== src/Token/Freeze/Sound.antt =====
-- programs/compressed-token/src/freeze.rs: freezing and thawing change only the state of the tokens.
use light_protocol.Prelude.{
  ℕ, ◌+◌, ◌≡◌, sym, ap, ◌∙◌, subst, arith, Bool, List, [], append-nil, map, Option, none, some, ok,
  >>=-eq-ok, ok_injective, unwrap, unwrap-ok, length, length-replicate, replicate, ◌==◌, ==_iff,
  guard-ok,
}
use light_protocol.System.Accounts.{
  CompressedProof, CompressedCpiContext, InstructionDataInvokeCpi,
  PackedCompressedAccountWithMerkleContext, OutputCompressedAccountWithPackedContext,
}
use light_protocol.System.SumCheck.Balance.{output_sum}
use light_protocol.Token.Data.{TokenEnv, TokenData, error_code, invalid_freeze_authority, hash_key}
use light_protocol.Token.Inputs.{
  Spent, get_input_compressed_accounts_with_merkle_context_and_check_signer,
  add_token_data_to_input_compressed_accounts,
}
use light_protocol.Token.Outputs.{Cpi, default_output, instruction_data}
use light_protocol.Token.Holds.{
  InputsHold, OutputsHold, amount_sum, get_input-AllRead, add_token_data-InputsHold,
}
use light_protocol.Token.Backed.{IsSound, parts-IsSound, cpi-Sends}
use light_protocol.Token.Delegation.{Accounts, check_not_empty}
use light_protocol.Token.Freeze.{
  CompressedTokenInstructionDataFreeze, FreezeInstruction, check_freeze_authority,
  create_token_output_accounts, create_input_and_output_accounts_freeze_or_thaw,
  process_freeze_or_thaw,
}
use light_protocol.Token.Freeze.Loops.{
  in_state, input_lamports, output_lamports, sum_of, input_sum-eq, output_sum-eq, loops-Same,
  length-spent, add_token_data-lamports,
}

-- The call spends tokens in one state and creates the same in the other, with the same lamports.
abbrev pub Restates : TokenEnv → Bool → Bool → InstructionDataInvokeCpi → Type 0
Restates env frozen_inputs frozen_outputs call =
    (tokens : List TokenData) × InputsHold env call.input_compressed_accounts_with_merkle_context
      (map (in_state frozen_inputs) tokens)
    × OutputsHold env call.output_compressed_accounts (map (in_state frozen_outputs) tokens)
    × (input_lamports call.input_compressed_accounts_with_merkle_context
        ≡ output_lamports call.output_compressed_accounts)

module _ (env : TokenEnv) (frozen_inputs frozen_outputs : Bool) (mint : ℕ)
    (remaining_accounts : List ℕ) (inputs : CompressedTokenInstructionDataFreeze) where
  abbrev RestatedAccounts : Accounts → Type 0
  RestatedAccounts accounts =
      (proof : Option CompressedProof) (cpi_context : Option CompressedCpiContext)
      → IsSound env mint (instruction_data accounts.inputs accounts.outputs proof cpi_context) 0 0
        × Restates env frozen_inputs frozen_outputs
            (instruction_data accounts.inputs accounts.outputs proof cpi_context)

  freeze-RestatedAccounts :
      (accounts : Accounts)
      → create_input_and_output_accounts_freeze_or_thaw env frozen_inputs frozen_outputs inputs mint
          remaining_accounts
        ≡ ok accounts
      → RestatedAccounts accounts
  unfolding create_input_and_output_accounts_freeze_or_thaw
      get_input_compressed_accounts_with_merkle_context_and_check_signer
  freeze-RestatedAccounts accounts e =
      let (u, p, q) = >>=-eq-ok (check_not_empty inputs.input_token_data_with_context) _ e in
      let (spent, p1, q1) =
        >>=-eq-ok
          (get_input_compressed_accounts_with_merkle_context_and_check_signer frozen_inputs
            inputs.owner none remaining_accounts mint inputs.input_token_data_with_context)
          _ q in
      let (hashed_mint, p2, q2) = >>=-eq-ok (unwrap (hash_key env mint)) _ q1 in
      let (outputs, p3, q3) =
        >>=-eq-ok
          (create_token_output_accounts env frozen_outputs remaining_accounts mint inputs.owner
            inputs.outputs_merkle_tree_index inputs.input_token_data_with_context
            (replicate (length spent.accounts) default_output))
          _ q2 in
      let (filled, p4, q4) =
        >>=-eq-ok
          (add_token_data_to_input_compressed_accounts env frozen_inputs spent.accounts spent.tokens
            hashed_mint)
          _ q3 in
      subst RestatedAccounts (ok_injective q4)
        (restated spent hashed_mint outputs filled p1 (unwrap-ok (hash_key env mint) p2) p3 p4)
    where
      restated :
          (spent : Spent) (hashed_mint : List ℕ)
          (outputs : List OutputCompressedAccountWithPackedContext)
          (filled : List PackedCompressedAccountWithMerkleContext)
          → get_input_compressed_accounts_with_merkle_context_and_check_signer frozen_inputs
              inputs.owner none remaining_accounts mint inputs.input_token_data_with_context
            ≡ ok spent
          → hash_key env mint ≡ some hashed_mint
          → create_token_output_accounts env frozen_outputs remaining_accounts mint inputs.owner
              inputs.outputs_merkle_tree_index inputs.input_token_data_with_context
              (replicate (length spent.accounts) default_output)
            ≡ ok outputs
          → add_token_data_to_input_compressed_accounts env frozen_inputs spent.accounts
              spent.tokens hashed_mint
            ≡ ok filled
          → RestatedAccounts (record { inputs = filled; outputs = outputs })
      restated spent hashed_mint outputs filled got hashed created added proof cpi_context =
          let (shapes, lamports, bound, same_amounts) =
            get_input-AllRead frozen_inputs inputs.owner none remaining_accounts mint
              inputs.input_token_data_with_context spent got in
          let (tokens, tokens_are, hold, same_lamports, amounts, of_mint) =
            loops-Same env frozen_inputs frozen_outputs inputs.owner remaining_accounts mint
              inputs.outputs_merkle_tree_index 0 inputs.input_token_data_with_context spent
              (replicate (length spent.accounts) default_output) outputs
              (length-replicate (length spent.accounts) default_output
                ∙ length-spent env frozen_inputs frozen_outputs inputs.owner remaining_accounts mint
                    inputs.outputs_merkle_tree_index 0 inputs.input_token_data_with_context spent
                    got)
              got created in
          let sums : output_sum outputs + 0 ≡ spent.sum_lamports = omega (
            arith,
            lamports,
            output_sum-eq outputs,
            ap sum_of same_lamports,
            input_sum-eq spent.accounts,
          ) in
          let (hold_inputs, sums_kept, writable) =
            add_token_data-InputsHold env frozen_inputs mint hashed_mint hashed spent.accounts
              spent.tokens filled shapes added in
          (
            subst (λ outs. IsSound env mint (instruction_data filled outs proof cpi_context) 0 0)
                (append-nil outputs)
                (parts-IsSound env frozen_inputs mint hashed_mint spent filled
                  (map (in_state frozen_outputs) tokens) outputs [] proof cpi_context 0 0 hashed
                  shapes lamports bound added hold of_mint tt sums
                  (omega (arith, ap amount_sum tokens_are, amounts))),
            (
              tokens,
              subst (InputsHold env filled) tokens_are hold_inputs,
              hold,
              add_token_data-lamports env frozen_inputs hashed_mint spent.accounts spent.tokens
                    filled added
                  ∙ same_lamports,
            ),
          )

-- If `process_freeze_or_thaw` returns, the authority is the freeze authority of the mint, the
-- call of the system program is sound with nothing moved into or out of the pool, and there are
-- tokens such that the inputs hold them in the state of the inputs and the outputs hold the
-- same ones in the state of the outputs, account by account and with the same lamports.
pub process_freeze_or_thaw-Restates :
    (env : TokenEnv) (frozen_inputs frozen_outputs : Bool) (ctx : FreezeInstruction)
    (inputs : CompressedTokenInstructionDataFreeze) (cpi : Cpi)
    → process_freeze_or_thaw env frozen_inputs frozen_outputs ctx inputs ≡ ok cpi
    → (ctx.freeze_authority ≡ some ctx.authority)
      × IsSound env ctx.mint cpi.instruction 0 0
      × Restates env frozen_inputs frozen_outputs cpi.instruction
unfolding process_freeze_or_thaw check_freeze_authority
process_freeze_or_thaw-Restates env frozen_inputs frozen_outputs ctx inputs cpi e =
    let (u, checked, q) = >>=-eq-ok (check_freeze_authority ctx) _ e in
    let (freeze_authority, p1, q1) = >>=-eq-ok (unwrap ctx.freeze_authority) _ checked in
    let (accounts, created, q2) =
      >>=-eq-ok
        (create_input_and_output_accounts_freeze_or_thaw env frozen_inputs frozen_outputs inputs
          ctx.mint ctx.remaining_accounts)
        _ q in
    let sent : IsSound env ctx.mint cpi.instruction 0 0
        × Restates env frozen_inputs frozen_outputs cpi.instruction =
      cpi-Sends accounts.inputs accounts.outputs (some inputs.proof) inputs.cpi_context
        ctx.remaining_accounts cpi
        (λ call. IsSound env ctx.mint call 0 0 × Restates env frozen_inputs frozen_outputs call) q2
        (freeze-RestatedAccounts env frozen_inputs frozen_outputs ctx.mint ctx.remaining_accounts
          inputs accounts created (some inputs.proof) inputs.cpi_context) in
    (
      unwrap-ok ctx.freeze_authority p1
          ∙ ap some (
              sym (
                (==_iff ctx.authority freeze_authority).0 (
                  guard-ok (ctx.authority == freeze_authority) (error_code invalid_freeze_authority)
                    q1))),
      sent.0,
      sent.1,
    )
