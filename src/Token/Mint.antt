-- ===== src/Token/Mint.antt =====
-- programs/compressed-token/src/process_mint.rs: the instruction `mint_to`, with the data of its call of
-- the system program as the bytes that are sent. The heap is not part of the model.
pub mod Bytes
pub mod Sound
use light_protocol.Prelude.{
  ℕ, ◌+◌, ◌*◌, ◌%◌, Bool, true, false, not, List, [], ◌∷◌, ◌++◌, Option, none, some, ok, err, panic,
  ◌>>=◌, ◌>>◌, guard, ok_or, unwrap, length, replicate, ◌==◌, if◌then◌else◌,
}
use light_protocol.Prelude.Bytes.{to_le_bytes}
use light_protocol.Prelude.Words.{add, checked_add}
use light_protocol.System.Accounts.{OutputCompressedAccountWithPackedContext}
use light_protocol.Token.Data.{
  TokenEnv, TokenResult, error_code, public_key_amount_missmatch, no_inputs_provided,
  mint_too_large, spl_token_supply_mismatch, heap_memory_check_failed, invalid_authority_mint,
  hash_key,
}
use light_protocol.Token.Inputs.{or_zero}
use light_protocol.Token.Outputs.{
  default_output, create_output_compressed_accounts, get_cpi_signer_seeds,
}

-- The accounts of the instruction that are read: the authority, the mint with its authority, and the
-- balance of the token pool.
pub record MintToInstruction : Type 0 where
  pub authority : ℕ
  pub mint : ℕ
  pub mint_authority : Option ℕ
  pub token_pool_balance : ℕ

-- the constraint of anchor on `mint`
unfoldable pub check_mint_authority : MintToInstruction → TokenResult (Unit {0})
check_mint_authority ctx = do
  mint_authority ← unwrap ctx.mint_authority
  guard (mint_authority == ctx.authority) (error_code invalid_authority_mint)

unfoldable pub mint_amount : ℕ → List ℕ → TokenResult ℕ
mint_amount sum [] = ok sum
mint_amount sum (amount ∷ amounts) = do
  sum' ← ok_or (checked_add sum amount) (error_code mint_too_large)
  mint_amount sum' amounts

-- with the minting of the SPL token program, which returns the balance of the pool afterwards, as a
-- parameter
unfoldable pub mint_spl_to_pool_pda : (ℕ → ℕ → TokenResult ℕ) → ℕ → List ℕ → TokenResult ℕ
mint_spl_to_pool_pda spl_mint pre_token_balance amounts = do
  minted ← mint_amount 0 amounts
  post_token_balance ← spl_mint pre_token_balance minted
  expected ← add pre_token_balance minted
  guard (post_token_balance == expected) (error_code spl_token_supply_mismatch)
  ok post_token_balance

-- `lamports.map(|_| vec![lamports; amounts.len()])`
abbrev pub lamports_vec : Option ℕ → ℕ → Option (List (Option ℕ))
lamports_vec none n = none
lamports_vec (some lamports) n = some (replicate n (some lamports))

-- the lamports to compress and the flag, in borsh
unfoldable pub compression_bytes : ℕ → List ℕ
compression_bytes sum_lamports =
    if sum_lamports == 0 then 0 ∷ (0 ∷ []) else 1 ∷ (to_le_bytes 8 sum_lamports ++ (1 ∷ []))

-- `inputs_len`
abbrev pub inputs_len : ℕ → Option ℕ → ℕ
inputs_len n lamports =
    1 + 4 + 4 + 4 + n * 162 + 1 + 1 + 1 + 26 + 1 + (if or_zero lamports == 0 then 0 else 8)

-- The borsh forms of an output account and of the seeds are parameters.
module _ (serialize_output : OutputCompressedAccountWithPackedContext → List ℕ)
    (serialize_seeds : List (List ℕ) → List ℕ) where
  -- the loop over the accounts: their bytes, and the sum of their lamports
  unfoldable pub serialize_outputs :
      ℕ → List OutputCompressedAccountWithPackedContext → TokenResult (List ℕ × ℕ)
  serialize_outputs sum_lamports [] = ok ([], sum_lamports)
  serialize_outputs sum_lamports (account ∷ accounts) = do
    sum ← unwrap (checked_add sum_lamports account.compressed_account.lamports)
    (bytes, total) ← serialize_outputs sum accounts
    ok (serialize_output account ++ bytes, total)

  unfoldable pub serialize_mint_to_cpi_instruction_data :
      List OutputCompressedAccountWithPackedContext → List (List ℕ) → TokenResult (List ℕ)
  serialize_mint_to_cpi_instruction_data accounts seeds = do
    (bytes, sum_lamports) ← serialize_outputs 0 accounts
    ok (
        0
        ∷ (replicate 8 0
            ++ (((length accounts % 256) ∷ (0 ∷ (0 ∷ (0 ∷ []))))
                ++ (bytes
                    ++ (0
                        ∷ (compression_bytes sum_lamports
                            ++ (serialize_seeds seeds ++ (0 ∷ []))))))))

  -- the balance of the pool after it, and the data of the call
  unfoldable pub process_mint_to :
      TokenEnv
      → (ℕ → ℕ → TokenResult ℕ)
      → MintToInstruction
      → List ℕ
      → List ℕ
      → Option ℕ
      → TokenResult (ℕ × List ℕ)
  process_mint_to env spl_mint ctx recipient_pubkeys amounts lamports = do
    check_mint_authority ctx
    guard (length recipient_pubkeys == length amounts) (error_code public_key_amount_missmatch)
    guard (not (length recipient_pubkeys == 0)) (error_code no_inputs_provided)
    balance ← mint_spl_to_pool_pda spl_mint ctx.token_pool_balance amounts
    hashed_mint ← unwrap (hash_key env ctx.mint)
    (outputs, output_lamports) ←
        create_output_compressed_accounts env (replicate (length recipient_pubkeys) default_output)
          ctx.mint recipient_pubkeys none none amounts (lamports_vec lamports (length amounts))
          hashed_mint (replicate (length amounts) 0)
    inputs ← serialize_mint_to_cpi_instruction_data outputs get_cpi_signer_seeds
    guard (length inputs == inputs_len (length amounts) lamports)
        (error_code heap_memory_check_failed)
    ok (balance, inputs)
