-- ===== src/Token/Transfer/Ran.antt =====
-- programs/compressed-token/src/process_transfer.rs: what a transfer that returns has run.
use light_protocol.Prelude.{
  ℕ, ◌≡◌, ◌⊎◌, inl, inr, refl, sym, ap, ◌∙◌, arith, Bool, true, false, not, List, [], ◌++◌,
  append-nil, map, Option, none, some, ok, panic, >>=-eq-ok, ok_injective, guard, ok_or, unwrap,
  get_elem?, length, length-map, replicate, set, ltb, if◌then◌else◌, Bool-cases,
}
use light_protocol.Prelude.Words.{sub}
use light_protocol.System.Accounts.{
  PackedCompressedAccountWithMerkleContext, OutputCompressedAccountWithPackedContext,
}
use light_protocol.System.SumCheck.Balance.{output_sum}
use light_protocol.Token.Data.{
  TokenEnv, TokenResult, error_code, hash_to_field_error, no_input_token_accounts_provided,
  hash_key,
}
use light_protocol.Token.Inputs.{
  DelegatedTransfer, Spent, get_input_compressed_accounts_with_merkle_context_and_check_signer,
  add_token_data_to_input_compressed_accounts,
}
use light_protocol.Token.Outputs.{
  Cpi, default_output, create_output_compressed_accounts,
  cpi_execute_compressed_transaction_transfer,
}
use light_protocol.Token.Backed.{AllBare}
use light_protocol.Token.Transfer.{
  CompressedTokenInstructionDataTransfer, PackedTokenTransferOutputData, TransferInstruction,
  TransferCalls, SplTransfer, check_token_account, sum_check, mark_change, check_no_tlv, move_spl,
  add_change_account, is_empty_transfer, process_transfer,
}

pub mark_change-Marked :
    (delegated : Option DelegatedTransfer) (outputs authority : ℕ)
    (marks : Option (List Bool) × Option ℕ)
    → mark_change delegated outputs authority ≡ ok marks
    → (marks.0 ≡ none) ⊎ ((d : ℕ) × (marks.1 ≡ some d))
unfolding mark_change
mark_change-Marked none outputs authority marks e = inl (ap (λ m. m.0) (sym (ok_injective e)))
mark_change-Marked (some delegated) outputs authority marks e =
    by_index delegated.delegate_change_account_index e
  where
    by_index :
        (index : Option ℕ)
        → ◌≡◌ {A = TokenResult (Option (List Bool) × Option ℕ)}
            (elim index [
              | none ↦ ok (none, none)
              | some i ↦
                  if ltb i outputs
                  then ok (some (set (replicate outputs false) i true), some authority)
                  else panic
            ])
            (ok marks)
        → (marks.0 ≡ none) ⊎ ((d : ℕ) × (marks.1 ≡ some d))
    by_index none e = inl (ap (λ m. m.0) (sym (ok_injective e)))
    by_index (some i) e = elim (Bool-cases (ltb i outputs)) [
      | inl fits ↦ inr (authority, ap (λ m. m.1) (sym (ok_injective (rw fits at e))))
      | inr out ↦ absurd (cc (rw out at e))
    ]

pub add_change_account-Bare :
    (env : TokenEnv) (authority : ℕ) (outputs : List PackedTokenTransferOutputData)
    (change_lamports : ℕ) (accounts accounts' : List OutputCompressedAccountWithPackedContext)
    → add_change_account env authority outputs change_lamports accounts ≡ ok accounts'
    → (rest : List OutputCompressedAccountWithPackedContext) × (accounts' ≡ accounts ++ rest)
      × AllBare rest
      × (output_sum rest ≡ change_lamports)
unfolding add_change_account
add_change_account-Bare env authority outputs change_lamports accounts accounts' e =
    elim (Bool-cases (ltb 0 change_lamports)) [
      | inl some_left ↦
          let (first, p, q) = >>=-eq-ok (unwrap (get_elem? outputs 0)) _ (rw some_left at e) in
          (_, sym (ok_injective q), (refl, tt), omega arith)
      | inr none_left ↦
          ([], sym (ok_injective (rw none_left at e)) ∙ sym (append-nil accounts), tt, ground arith)
    ]

pub same_length :
    (f g : PackedTokenTransferOutputData → ℕ) (outputs : List PackedTokenTransferOutputData)
    → length (map f outputs) ≡ length (map g outputs)
same_length f g outputs = length-map f outputs ∙ sym (length-map g outputs)

-- what a transfer that returns has run
pub record Ran (env : TokenEnv) (ctx : TransferInstruction)
    (inputs : CompressedTokenInstructionDataTransfer) (calls : TransferCalls) : Type 0 where
  pub u : Unit {0}
  pub checked :
      check_token_account ctx.token_pool_pda ctx.compress_or_decompress_token_account ≡ ok u
  pub spent : Spent
  pub got :
      get_input_compressed_accounts_with_merkle_context_and_check_signer false ctx.authority
        inputs.delegated_transfer ctx.remaining_accounts inputs.mint
        inputs.input_token_data_with_context
      ≡ ok spent
  pub w : Unit {0}
  pub summed :
      sum_check spent.tokens
        (map (λ output. output.amount) inputs.output_compressed_accounts)
        inputs.compress_or_decompress_amount
        inputs.is_compress
      ≡ ok w
  pub spl : Option SplTransfer
  pub moved : move_spl env inputs ctx inputs.compress_or_decompress_amount ≡ ok spl
  pub hashed_mint : List ℕ
  pub hashed : ok_or (hash_key env inputs.mint) (error_code hash_to_field_error) ≡ ok hashed_mint
  pub marks : Option (List Bool) × Option ℕ
  pub marked :
      mark_change inputs.delegated_transfer (length inputs.output_compressed_accounts) ctx.authority
      ≡ ok marks
  pub written : List OutputCompressedAccountWithPackedContext × ℕ
  pub wrote :
      create_output_compressed_accounts env
        (replicate (length inputs.output_compressed_accounts) default_output)
        inputs.mint
        (map (λ output. output.owner) inputs.output_compressed_accounts)
        marks.1
        marks.0
        (map (λ output. output.amount) inputs.output_compressed_accounts)
        (some (map (λ output. output.lamports) inputs.output_compressed_accounts))
        hashed_mint
        (map (λ output. output.merkle_tree_index) inputs.output_compressed_accounts)
      ≡ ok written
  pub accounts : List PackedCompressedAccountWithMerkleContext
  pub added :
      add_token_data_to_input_compressed_accounts env false spent.accounts spent.tokens hashed_mint
      ≡ ok accounts
  pub change : ℕ
  pub left : ◌≡◌ {A = TokenResult ℕ} (sub spent.sum_lamports written.1) (ok change)
  pub outputs' : List OutputCompressedAccountWithPackedContext
  pub changed :
      add_change_account env ctx.authority inputs.output_compressed_accounts change written.0
      ≡ ok outputs'
  pub cpi : Cpi
  pub sent :
      cpi_execute_compressed_transaction_transfer accounts outputs' inputs.proof inputs.cpi_context
        ctx.remaining_accounts
      ≡ ok cpi
  pub calls_are : ◌≡◌ {A = TransferCalls} (record { spl = spl; cpi = cpi }) calls

pub process_transfer-Ran :
    (env : TokenEnv) (ctx : TransferInstruction) (inputs : CompressedTokenInstructionDataTransfer)
    (calls : TransferCalls)
    → process_transfer env ctx inputs ≡ ok calls
    → Ran env ctx inputs calls
unfolding process_transfer
process_transfer-Ran env ctx inputs calls e =
    let outputs = inputs.output_compressed_accounts in
    let owners : List ℕ = map (λ output. output.owner) outputs in
    let amounts : List ℕ = map (λ output. output.amount) outputs in
    let (u, checked, q) =
      >>=-eq-ok (check_token_account ctx.token_pool_pda ctx.compress_or_decompress_token_account) _
        e in
    let (v, filled, q1) =
      >>=-eq-ok
        (guard
          (not (
            is_empty_transfer env inputs.input_token_data_with_context
              inputs.compress_or_decompress_amount))
          (error_code no_input_token_accounts_provided))
        _ q in
    let (spent, p2, q2) =
      >>=-eq-ok
        (get_input_compressed_accounts_with_merkle_context_and_check_signer false ctx.authority
          inputs.delegated_transfer ctx.remaining_accounts inputs.mint
          inputs.input_token_data_with_context)
        _ q1 in
    let (w, p3, q3) =
      >>=-eq-ok
        (sum_check spent.tokens amounts inputs.compress_or_decompress_amount inputs.is_compress) _
        q2 in
    let (spl, p4, q4) =
      >>=-eq-ok (move_spl env inputs ctx inputs.compress_or_decompress_amount) _ q3 in
    let (hashed_mint, p5, q5) =
      >>=-eq-ok (ok_or (hash_key env inputs.mint) (error_code hash_to_field_error)) _ q4 in
    let (marks, p6, q6) =
      >>=-eq-ok (mark_change inputs.delegated_transfer (length outputs) ctx.authority) _ q5 in
    let (x, p7, q7) = >>=-eq-ok (check_no_tlv outputs) _ q6 in
    let (written, p8, q8) =
      >>=-eq-ok
        (create_output_compressed_accounts env (replicate (length outputs) default_output)
          inputs.mint owners marks.1 marks.0 amounts
          (some (map (λ output. output.lamports) outputs)) hashed_mint
          (map (λ output. output.merkle_tree_index) outputs))
        _ q7 in
    let (accounts, p9, q9) =
      >>=-eq-ok
        (add_token_data_to_input_compressed_accounts env false spent.accounts spent.tokens
          hashed_mint)
        _ q8 in
    let (change, p10, q10) = >>=-eq-ok (sub spent.sum_lamports written.1) _ q9 in
    let (outputs', p11, q11) =
      >>=-eq-ok (add_change_account env ctx.authority outputs change written.0) _ q10 in
    let (cpi, p12, q12) =
      >>=-eq-ok
        (cpi_execute_compressed_transaction_transfer accounts outputs' inputs.proof
          inputs.cpi_context ctx.remaining_accounts)
        _ q11 in
    record {
      u = u;
      checked = checked;
      spent = spent;
      got = p2;
      w = w;
      summed = p3;
      spl = spl;
      moved = p4;
      hashed_mint = hashed_mint;
      hashed = p5;
      marks = marks;
      marked = p6;
      written = written;
      wrote = p8;
      accounts = accounts;
      added = p9;
      change = change;
      left = p10;
      outputs' = outputs';
      changed = p11;
      cpi = cpi;
      sent = p12;
      calls_are = ok_injective q12;
    }
