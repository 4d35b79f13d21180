-- ===== src/Token/Transfer.antt =====
-- programs/compressed-token/src/process_transfer.rs and spl_compression.rs: the instruction
-- `transfer`. Its data are already read from their borsh form.
pub mod Pool
pub mod Ran
pub mod Conserved
use light_protocol.Prelude.{
  ℕ, suc, ◌+◌, ◌-◌, Bool, true, false, not, List, [], ◌∷◌, ◌++◌, map, Option, none, some, ok, err,
  panic, ◌>>=◌, ◌>>◌, guard, ok_or, unwrap, get_elem?, set, length, replicate, ltb, ◌==◌,
  if◌then◌else◌,
}
use light_protocol.Prelude.Bytes.{to_be_bytes}
use light_protocol.Prelude.Words.{checked_add, checked_sub, sub}
use light_protocol.System.Accounts.{
  CompressedProof, CompressedCpiContext, OutputCompressedAccountWithPackedContext,
}
use light_protocol.Token.Data.{
  TokenEnv, TokenData, TokenResult, TokenError, error_code, compute_input_sum_failed,
  compute_output_sum_failed, compute_compress_sum_failed, compute_decompress_sum_failed,
  sum_check_failed, decompress_recipient_undefined_for_decompress,
  compressed_pda_undefined_for_decompress, de_compress_amount_undefined_for_decompress,
  compressed_pda_undefined_for_compress, de_compress_amount_undefined_for_compress,
  hash_to_field_error, token_pool_pda_undefined, is_token_pool_pda, invalid_token_pool_pda,
  no_input_token_accounts_provided, id, hash_key,
}
use light_protocol.Token.Inputs.{
  InputTokenDataWithContext, DelegatedTransfer, Spent, no_tlv,
  get_input_compressed_accounts_with_merkle_context_and_check_signer,
  add_token_data_to_input_compressed_accounts,
}
use light_protocol.Token.Outputs.{
  Cpi, default_output, create_output_compressed_accounts,
  cpi_execute_compressed_transaction_transfer,
}

pub record PackedTokenTransferOutputData : Type 0 where
  pub owner : ℕ
  pub amount : ℕ
  pub lamports : Option ℕ
  pub merkle_tree_index : ℕ
  pub tlv : Option (List ℕ)

pub record CompressedTokenInstructionDataTransfer : Type 0 where
  pub proof : Option CompressedProof
  pub mint : ℕ
  pub delegated_transfer : Option DelegatedTransfer
  pub input_token_data_with_context : List InputTokenDataWithContext
  pub output_compressed_accounts : List PackedTokenTransferOutputData
  pub is_compress : Bool
  pub compress_or_decompress_amount : Option ℕ
  pub cpi_context : Option CompressedCpiContext
  pub lamports_change_account_merkle_tree_index : Option ℕ

-- The accounts of the instruction that the handler reads, by their keys.
pub record TransferInstruction : Type 0 where
  pub authority : ℕ
  pub cpi_authority_pda : ℕ
  pub token_pool_pda : Option ℕ
  pub compress_or_decompress_token_account : Option ℕ
  pub token_program : Option ℕ
  pub remaining_accounts : List ℕ

-- A transfer of the SPL token program.
pub record SplTransfer : Type 0 where
  pub from : ℕ
  pub to : ℕ
  pub authority : ℕ
  pub amount : ℕ

-- the constraint of anchor on `compress_or_decompress_token_account`, where there is one
unfoldable pub check_token_account : Option ℕ → Option ℕ → TokenResult (Unit {0})
check_token_account token_pool_pda none = ok tt
check_token_account none (some account) = err (error_code token_pool_pda_undefined)
check_token_account (some pool) (some account) =
    guard (not (pool == account)) (error_code is_token_pool_pda)

-- the loops and the branch of `sum_check`
unfoldable pub add_amounts : ℕ → List TokenData → TokenResult ℕ
add_amounts sum [] = ok sum
add_amounts sum (token ∷ tokens) = do
  sum' ← ok_or (checked_add sum token.amount) (error_code compute_input_sum_failed)
  add_amounts sum' tokens

unfoldable pub move_amount : ℕ → Option ℕ → Bool → TokenResult ℕ
move_amount sum none is_compress = ok sum
move_amount sum (some amount) true =
    ok_or (checked_add sum amount) (error_code compute_compress_sum_failed)
move_amount sum (some amount) false =
    ok_or (checked_sub sum amount) (error_code compute_decompress_sum_failed)

unfoldable pub sub_amounts : ℕ → List ℕ → TokenResult ℕ
sub_amounts sum [] = ok sum
sub_amounts sum (amount ∷ amounts) = do
  sum' ← ok_or (checked_sub sum amount) (error_code compute_output_sum_failed)
  sub_amounts sum' amounts

unfoldable pub sum_check : List TokenData → List ℕ → Option ℕ → Bool → TokenResult (Unit {0})
sum_check tokens output_amounts compress_or_decompress_amount is_compress = do
  sum ← add_amounts 0 tokens
  sum1 ← move_amount sum compress_or_decompress_amount is_compress
  sum2 ← sub_amounts sum1 output_amounts
  if sum2 == 0 then ok tt else err (error_code sum_check_failed)

-- the change account that stays delegated, and the delegate
unfoldable pub mark_change :
    Option DelegatedTransfer → ℕ → ℕ → TokenResult (Option (List Bool) × Option ℕ)
mark_change none outputs authority = ok (none, none)
mark_change (some delegated_transfer) outputs authority =
    elim delegated_transfer.delegate_change_account_index [
      | none ↦ ok (none, none)
      | some index ↦
          if ltb index outputs
          then ok (some (set (replicate outputs false) index true), some authority)
          else panic
    ]

unfoldable pub check_no_tlv : List PackedTokenTransferOutputData → TokenResult (Unit {0})
check_no_tlv [] = ok tt
check_no_tlv (output ∷ outputs) = do no_tlv output.tlv; check_no_tlv outputs

-- "pool"
abbrev pub pool_seed : List ℕ
pool_seed = 112 ∷ (111 ∷ (111 ∷ (108 ∷ [])))

-- the calls that an instruction makes
pub record TransferCalls : Type 0 where
  pub spl : Option SplTransfer
  pub cpi : Cpi

module _ (env : TokenEnv) where
  unfoldable pub spl_token_pool_derivation : ℕ → ℕ → ℕ → TokenResult (Unit {0})
  spl_token_pool_derivation mint program_id token_pool_pubkey =
      guard
        (env.find_program_address (pool_seed ∷ (to_be_bytes 32 mint ∷ [])) program_id
          == token_pool_pubkey)
        (error_code invalid_token_pool_pda)

  unfoldable pub decompress_spl_tokens :
      CompressedTokenInstructionDataTransfer → TransferInstruction → TokenResult SplTransfer
  decompress_spl_tokens inputs ctx = do
    recipient ←
        ok_or ctx.compress_or_decompress_token_account
          (error_code decompress_recipient_undefined_for_decompress)
    pool ← ok_or ctx.token_pool_pda (error_code compressed_pda_undefined_for_decompress)
    spl_token_pool_derivation inputs.mint id pool
    amount ←
        ok_or inputs.compress_or_decompress_amount
          (error_code de_compress_amount_undefined_for_decompress)
    token_program ← unwrap ctx.token_program
    ok (record { from = pool; to = recipient; authority = ctx.cpi_authority_pda; amount = amount })

  unfoldable pub compress_spl_tokens :
      CompressedTokenInstructionDataTransfer → TransferInstruction → TokenResult SplTransfer
  compress_spl_tokens inputs ctx = do
    pool ← ok_or ctx.token_pool_pda (error_code compressed_pda_undefined_for_compress)
    spl_token_pool_derivation inputs.mint id pool
    amount ←
        ok_or inputs.compress_or_decompress_amount
          (error_code de_compress_amount_undefined_for_compress)
    from ← unwrap ctx.compress_or_decompress_token_account
    token_program ← unwrap ctx.token_program
    ok (record { from = from; to = pool; authority = ctx.authority; amount = amount })

  unfoldable pub process_compression_or_decompression :
      CompressedTokenInstructionDataTransfer → TransferInstruction → TokenResult SplTransfer
  process_compression_or_decompression inputs ctx =
      if inputs.is_compress
      then compress_spl_tokens inputs ctx
      else decompress_spl_tokens inputs ctx

  -- the call if there is an amount to compress or decompress
  unfoldable pub move_spl :
      CompressedTokenInstructionDataTransfer
      → TransferInstruction
      → Option ℕ
      → TokenResult (Option SplTransfer)
  move_spl inputs ctx none = ok none
  move_spl inputs ctx (some amount) = do
    spl ← process_compression_or_decompression inputs ctx
    ok (some spl)

  -- the account without token data that takes the lamports that the outputs leave
  unfoldable pub add_change_account :
      ℕ
      → List PackedTokenTransferOutputData
      → ℕ
      → List OutputCompressedAccountWithPackedContext
      → TokenResult (List OutputCompressedAccountWithPackedContext)
  add_change_account authority outputs change_lamports accounts =
      let with_change : TokenResult (List OutputCompressedAccountWithPackedContext) = (do
        first ← unwrap (get_elem? outputs 0)
        ok (
            accounts
            ++ (record {
              compressed_account = record {
                owner = authority;
                lamports = change_lamports;
                address = none;
                account_data = none;
              };
              merkle_tree_index = first.merkle_tree_index;
            }
                ∷ []))) in
      if ltb 0 change_lamports then with_change else ok accounts

  -- no inputs and nothing to compress or decompress
  abbrev pub is_empty_transfer : List InputTokenDataWithContext → Option ℕ → Bool
  is_empty_transfer [] none = true
  is_empty_transfer [] (some amount) = false
  is_empty_transfer (input ∷ inputs) amount = false

  unfoldable pub process_transfer :
      TransferInstruction → CompressedTokenInstructionDataTransfer → TokenResult TransferCalls
  process_transfer ctx inputs = do
    check_token_account ctx.token_pool_pda ctx.compress_or_decompress_token_account
    guard
        (not (
          is_empty_transfer inputs.input_token_data_with_context
            inputs.compress_or_decompress_amount))
        (error_code no_input_token_accounts_provided)
    spent ←
        get_input_compressed_accounts_with_merkle_context_and_check_signer false ctx.authority
          inputs.delegated_transfer ctx.remaining_accounts inputs.mint
          inputs.input_token_data_with_context
    sum_check spent.tokens (map (λ output. output.amount) inputs.output_compressed_accounts)
        inputs.compress_or_decompress_amount inputs.is_compress
    spl ← move_spl inputs ctx inputs.compress_or_decompress_amount
    hashed_mint ← ok_or (hash_key env inputs.mint) (error_code hash_to_field_error)
    (is_delegate, delegate) ←
        mark_change inputs.delegated_transfer (length inputs.output_compressed_accounts)
          ctx.authority
    check_no_tlv inputs.output_compressed_accounts
    (outputs, output_lamports) ←
        create_output_compressed_accounts env
          (replicate (length inputs.output_compressed_accounts) default_output) inputs.mint
          (map (λ output. output.owner) inputs.output_compressed_accounts) delegate is_delegate
          (map (λ output. output.amount) inputs.output_compressed_accounts)
          (some (map (λ output. output.lamports) inputs.output_compressed_accounts)) hashed_mint
          (map (λ output. output.merkle_tree_index) inputs.output_compressed_accounts)
    accounts ←
        add_token_data_to_input_compressed_accounts env false spent.accounts spent.tokens
          hashed_mint
    change_lamports ← sub spent.sum_lamports output_lamports
    outputs' ←
        add_change_account ctx.authority inputs.output_compressed_accounts change_lamports outputs
    cpi ←
        cpi_execute_compressed_transaction_transfer accounts outputs' inputs.proof
          inputs.cpi_context ctx.remaining_accounts
    ok (record { spl = spl; cpi = cpi })
