-- ===== src/Token/Transfer/Conserved.antt =====
-- programs/compressed-token/src/process_transfer.rs: a transfer neither makes nor loses tokens.
use light_protocol.Prelude.{
  ℕ, ◌+◌, ◌≡◌, refl, sym, ◌∙◌, subst, arith, false, List, map, some, ok, ok_or-ok, length,
  length-replicate, length-map, replicate,
}
use light_protocol.Prelude.Words.{sub-ok}
use light_protocol.Token.Data.{TokenEnv, TokenData, error_code, hash_to_field_error, hash_key}
use light_protocol.Token.Outputs.{default_output, instruction_data}
use light_protocol.Token.Holds.{amount_sum, get_input-AllRead, AllRead}
use light_protocol.Token.Created.{
  output_tokens, amount_sum-output_tokens, output_tokens-AllOf, AreCreated,
  create_output-AreCreated,
}
use light_protocol.Token.Backed.{IsSound, cpi-Sends, parts-IsSound}
use light_protocol.Token.Transfer.{
  CompressedTokenInstructionDataTransfer, PackedTokenTransferOutputData, TransferInstruction,
  TransferCalls, process_transfer,
}
use light_protocol.Token.Transfer.Pool.{
  sum_check-balanced_tokens, into, out_of, token_pool, move_spl-Moved,
}
use light_protocol.Token.Transfer.Ran.{
  mark_change-Marked, add_change_account-Bare, same_length, Ran, process_transfer-Ran,
}

module _ (env : TokenEnv) (ctx : TransferInstruction)
    (inputs : CompressedTokenInstructionDataTransfer) (calls : TransferCalls)
    (r : Ran env ctx inputs calls) where
  open r use {spent, spl, hashed_mint, marks, written, accounts, change, outputs', cpi}

  abbrev outputs : List PackedTokenTransferOutputData
  outputs = inputs.output_compressed_accounts

  abbrev owners : List ℕ
  owners = map (λ output. output.owner) outputs

  abbrev amounts : List ℕ
  amounts = map (λ output. output.amount) outputs

  abbrev pool : ℕ
  pool = token_pool env inputs.mint

  abbrev created : List TokenData
  created = output_tokens inputs.mint marks.1 marks.0 0 owners amounts

  mint_hashed : hash_key env inputs.mint ≡ some hashed_mint
  mint_hashed = ok_or-ok (hash_key env inputs.mint) (error_code hash_to_field_error) r.hashed

  read :
      AllRead false ctx.authority inputs.delegated_transfer ctx.remaining_accounts inputs.mint 0
        inputs.input_token_data_with_context spent
  read =
      get_input-AllRead false ctx.authority inputs.delegated_transfer ctx.remaining_accounts
        inputs.mint inputs.input_token_data_with_context spent r.got

  are_created :
      AreCreated env inputs.mint marks.1 marks.0
        (some (map (λ output. output.lamports) outputs))
        0
        owners
        amounts
        0
        written
  are_created =
      create_output-AreCreated env inputs.mint marks.1 marks.0 hashed_mint
        (some (map (λ output. output.lamports) outputs))
        (map (λ output. output.merkle_tree_index) outputs) owners amounts
        (replicate (length outputs) default_output) written mint_hashed
        (mark_change-Marked inputs.delegated_transfer (length outputs) ctx.authority marks r.marked)
        (same_length (λ output. output.owner) (λ output. output.amount) outputs)
        (length-map (λ output. output.owner) outputs
          ∙ sym (length-replicate (length outputs) default_output))
        r.wrote

  balance : amount_sum spent.tokens + into pool spl ≡ amount_sum created + out_of pool spl
  balance =
      let (into_pool, out_of_pool) =
        move_spl-Moved env inputs ctx r.u r.checked inputs.compress_or_decompress_amount spl refl
          r.moved in
      omega (
        arith,
        sum_check-balanced_tokens spent.tokens amounts inputs.compress_or_decompress_amount
            inputs.is_compress r.w r.summed,
        into_pool,
        out_of_pool,
        amount_sum-output_tokens inputs.mint marks.1 marks.0 0 owners amounts
            (same_length (λ output. output.owner) (λ output. output.amount) outputs),
      )

  cpi-IsSound : IsSound env inputs.mint cpi.instruction (into pool spl) (out_of pool spl)
  cpi-IsSound =
      let (shapes, lamports, bound, same_amounts) = read in
      let (hold, written_lamports, written_bound, lamports_of) = are_created in
      let (rest, outputs_are, bare, rest_lamports) =
        add_change_account-Bare env ctx.authority outputs change written.0 outputs' r.changed in
      cpi-Sends accounts outputs' inputs.proof inputs.cpi_context ctx.remaining_accounts cpi
        (λ call. IsSound env inputs.mint call (into pool spl) (out_of pool spl)) r.sent
        (subst
          (λ o.
            IsSound env inputs.mint (instruction_data accounts o inputs.proof inputs.cpi_context)
              (into pool spl) (out_of pool spl))
          (sym outputs_are)
          (parts-IsSound env false inputs.mint hashed_mint spent accounts created written.0 rest
            inputs.proof inputs.cpi_context (into pool spl) (out_of pool spl) mint_hashed shapes
            lamports bound r.added hold
            (output_tokens-AllOf inputs.mint marks.1 marks.0 0 owners amounts) bare
            (omega
              (arith, sub-ok spent.sum_lamports written.1 r.left, written_lamports, rest_lamports))
            balance))

-- If `process_transfer` returns, the call of the system program that it makes is sound. All its
-- input accounts hold tokens of the mint, with the program as their owner and with the token's
-- own hash as their data hash, and so do its output accounts but for accounts without data. The
-- amounts of the inputs, with what the SPL transfer moves into the mint's token pool, are the
-- amounts of the outputs, with what it moves out of the pool. The sum check of the system
-- program passes on the call.
pub process_transfer-IsSound :
    (env : TokenEnv) (ctx : TransferInstruction) (inputs : CompressedTokenInstructionDataTransfer)
    (calls : TransferCalls)
    → process_transfer env ctx inputs ≡ ok calls
    → IsSound env inputs.mint calls.cpi.instruction
        (into (token_pool env inputs.mint) calls.spl)
        (out_of (token_pool env inputs.mint) calls.spl)
process_transfer-IsSound env ctx inputs calls e =
    let r = process_transfer-Ran env ctx inputs calls e in
    subst
      (λ c.
        IsSound env inputs.mint c.cpi.instruction (into (token_pool env inputs.mint) c.spl)
          (out_of (token_pool env inputs.mint) c.spl))
      r.calls_are (cpi-IsSound env ctx inputs calls r)
