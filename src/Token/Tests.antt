-- ===== src/Token/Tests.antt =====
-- The theorems on the token instructions at small inputs, with concrete hashes.

use light_protocol.Prelude.{
  arith, List, replicate, ℕ, ◌+◌, ◌-◌, ◌≡◌, refl, true, false, [], ◌∷◌, Option, none, some, ok, err,
  panic, length,
}
use light_protocol.System.Accounts.{CompressedProof, PackedMerkleContext}
use light_protocol.Utils.FieldHash.{
  hash_to_bn254_field_size_be, bump_loop, is_smaller_than_bn254_field_size_be,
}
use light_protocol.Token.Data.{
  TokenEnv, TokenResult, hash_key, hash_inputs_with_hashed_values, hash_delegate, hash,
}
use light_protocol.Token.Inputs.{
  InputTokenDataWithContext, check_delegate_signer, input_owner, delegate_key, read_input,
  input_loop, get_input_compressed_accounts_with_merkle_context_and_check_signer,
  token_account_data, add_token_data_to_input_compressed_accounts,
}
use light_protocol.Token.Outputs.{
  Cpi, is_delegate_at, lamports_at, hash_delegate_store, output_account, output_loop,
  create_output_compressed_accounts, cpi_context_account_of, instruction_data,
  cpi_execute_compressed_transaction_transfer,
}
use light_protocol.Token.Holds.{OutputsHold}
use light_protocol.Token.Backed.{IsSound}
use light_protocol.Token.Transfer.{
  CompressedTokenInstructionDataTransfer, TransferInstruction, TransferCalls, check_token_account,
  add_amounts, move_amount, sub_amounts, sum_check, mark_change, check_no_tlv,
  spl_token_pool_derivation, decompress_spl_tokens, compress_spl_tokens,
  process_compression_or_decompression, move_spl, add_change_account, process_transfer,
}
use light_protocol.Token.Transfer.Conserved.{process_transfer-IsSound}
use light_protocol.Token.Transfer.Pool.{into, out_of}
use light_protocol.Token.Delegation.{
  CompressedTokenInstructionDataApprove, CompressedTokenInstructionDataRevoke, sum_amounts,
  check_not_empty, approve_plan, create_accounts, create_input_and_output_accounts_approve,
  process_approve, create_input_and_output_accounts_revoke, process_revoke,
}
use light_protocol.Token.Delegation.Sound.{
  Approves, own_token, process_approve-IsSound, process_revoke-IsSound,
}
use light_protocol.Token.Burn.{
  CompressedTokenInstructionDataBurn, BurnInstruction, burn_spl_from_pool_pda, change_owner,
  burn_outputs, create_input_and_output_accounts_burn, process_burn,
}
use light_protocol.Token.Burn.Sound.{process_burn-IsSound}
use light_protocol.Token.Freeze.{
  CompressedTokenInstructionDataFreeze, FreezeInstruction, check_freeze_authority, token_output,
  create_token_output_accounts, create_input_and_output_accounts_freeze_or_thaw,
  process_freeze_or_thaw,
}
use light_protocol.Token.Freeze.Sound.{Restates, process_freeze_or_thaw-Restates}
use light_protocol.Token.Mint.{
  MintToInstruction, check_mint_authority, mint_amount, mint_spl_to_pool_pda, compression_bytes,
  serialize_outputs, serialize_mint_to_cpi_instruction_data, process_mint_to,
}
use light_protocol.Token.Mint.Bytes.{Borsh}
use light_protocol.Token.Mint.Sound.{Mints, process_mint_to-Mints}
use light_protocol.Prelude.Bytes.{to_le_bytes}
use light_protocol.Utils.Tests.{big_uint, digest}

abbrev env : TokenEnv
env = record {
  big_uint = big_uint;
  keccak_hashv = digest;
  poseidon_hashv = λ parts. ok (length parts ∷ []);
  serialize = λ token. token.amount ∷ [];
  find_program_address = λ seeds program. 99;
}

abbrev returned : {A : Type 0} → TokenResult A → A → A
returned (ok a) other = a
returned (err e) other = other
returned panic other = other

abbrev proof : CompressedProof
proof = record { a = []; b = []; c = [] }

abbrev context : PackedMerkleContext
context = record {
  merkle_tree_pubkey_index = 0;
  nullifier_queue_pubkey_index = 1;
  leaf_index = 3;
  queue_index = none;
}

abbrev input : ℕ → Option ℕ → Option ℕ → InputTokenDataWithContext
input amount lamports delegate_index = record {
  amount = amount;
  delegate_index = delegate_index;
  merkle_context = context;
  root_index = 0;
  lamports = lamports;
  tlv = none;
}

-- Of 10 and 20 tokens and 7 lamports, 18 tokens go to the account 5, and 12 are decompressed to
-- the account 50.
abbrev transfer : CompressedTokenInstructionDataTransfer
transfer = record {
  proof = some proof;
  mint = 3;
  delegated_transfer = none;
  input_token_data_with_context = input 10 (some 7) none ∷ (input 20 none none ∷ []);
  output_compressed_accounts =
      record { owner = 5; amount = 18; lamports = some 2; merkle_tree_index = 0; tlv = none } ∷ [];
  is_compress = false;
  compress_or_decompress_amount = some 12;
  cpi_context = none;
  lamports_change_account_merkle_tree_index = none;
}

abbrev transfer_accounts : TransferInstruction
transfer_accounts = record {
  authority = 4;
  cpi_authority_pda = 6;
  token_pool_pda = some 99;
  compress_or_decompress_token_account = some 50;
  token_program = some 8;
  remaining_accounts = 20 ∷ (21 ∷ []);
}

abbrev no_cpi : Cpi
no_cpi = record { instruction = instruction_data [] [] none none; cpi_context_account = none }

calls : TransferCalls
calls =
    returned (process_transfer env transfer_accounts transfer) (record { spl = none; cpi = no_cpi })

transfer_returns : process_transfer env transfer_accounts transfer ≡ ok calls
unfolding calls process_transfer check_token_account
    get_input_compressed_accounts_with_merkle_context_and_check_signer input_loop read_input
    check_delegate_signer input_owner delegate_key sum_check add_amounts move_amount sub_amounts
    move_spl process_compression_or_decompression decompress_spl_tokens compress_spl_tokens
    spl_token_pool_derivation hash_key hash_to_bn254_field_size_be bump_loop
    is_smaller_than_bn254_field_size_be mark_change check_no_tlv create_output_compressed_accounts
    hash_delegate_store output_loop output_account is_delegate_at lamports_at
    hash_inputs_with_hashed_values hash_delegate add_token_data_to_input_compressed_accounts
    token_account_data add_change_account cpi_execute_compressed_transaction_transfer
    cpi_context_account_of
transfer_returns = refl

process_transfer-IsSound_example :
    IsSound env 3 calls.cpi.instruction (into 99 calls.spl) (out_of 99 calls.spl)
process_transfer-IsSound_example =
    process_transfer-IsSound env transfer_accounts transfer calls transfer_returns

-- 12 of 30 tokens, and 2 of 7 lamports, are delegated to 9
abbrev approval : CompressedTokenInstructionDataApprove
approval = record {
  proof = proof;
  mint = 3;
  input_token_data_with_context = input 10 (some 7) none ∷ (input 20 none none ∷ []);
  cpi_context =
      some
        (record { set_context = false; first_set_context = false; cpi_context_account_index = 1 });
  delegate = 9;
  delegated_amount = 12;
  delegate_merkle_tree_index = 0;
  change_account_merkle_tree_index = 0;
  delegate_lamports = some 2;
}

approved : Cpi
approved = returned (process_approve env approval 4 (20 ∷ (21 ∷ []))) no_cpi

approval_calls : process_approve env approval 4 (20 ∷ (21 ∷ [])) ≡ ok approved
unfolding approved process_approve create_input_and_output_accounts_approve check_not_empty
    get_input_compressed_accounts_with_merkle_context_and_check_signer input_loop read_input
    check_delegate_signer input_owner delegate_key sum_amounts hash_key hash_to_bn254_field_size_be
    bump_loop is_smaller_than_bn254_field_size_be create_accounts approve_plan
    create_output_compressed_accounts hash_delegate_store output_loop output_account is_delegate_at
    lamports_at hash_inputs_with_hashed_values hash_delegate
    add_token_data_to_input_compressed_accounts token_account_data
    cpi_execute_compressed_transaction_transfer cpi_context_account_of
approval_calls = refl

process_approve-IsSound_example :
    IsSound env 3 approved.instruction 0 0
    × Approves env approval 4 approved.instruction.output_compressed_accounts
process_approve-IsSound_example =
    process_approve-IsSound env approval 4 (20 ∷ (21 ∷ [])) approved approval_calls

-- two accounts, one of which the account 20 may spend from, become one again
abbrev revocation : CompressedTokenInstructionDataRevoke
revocation = record {
  proof = proof;
  mint = 3;
  input_token_data_with_context = input 10 (some 7) (some 0) ∷ (input 20 none none ∷ []);
  cpi_context = none;
  output_account_merkle_tree_index = 0;
}

revoked : Cpi
revoked = returned (process_revoke env revocation 4 (20 ∷ (21 ∷ []))) no_cpi

revocation_calls : process_revoke env revocation 4 (20 ∷ (21 ∷ [])) ≡ ok revoked
unfolding revoked process_revoke create_input_and_output_accounts_revoke check_not_empty
    get_input_compressed_accounts_with_merkle_context_and_check_signer input_loop read_input
    check_delegate_signer input_owner delegate_key sum_amounts hash_key hash_to_bn254_field_size_be
    bump_loop is_smaller_than_bn254_field_size_be create_accounts create_output_compressed_accounts
    hash_delegate_store output_loop output_account is_delegate_at lamports_at
    hash_inputs_with_hashed_values hash_delegate add_token_data_to_input_compressed_accounts
    token_account_data cpi_execute_compressed_transaction_transfer cpi_context_account_of
revocation_calls = refl

process_revoke-IsSound_example :
    IsSound env 3 revoked.instruction 0 0
    × ((amount : ℕ) × OutputsHold env revoked.instruction.output_compressed_accounts
          (own_token 3 4 amount ∷ []))
process_revoke-IsSound_example =
    process_revoke-IsSound env revocation 4 (20 ∷ (21 ∷ [])) revoked revocation_calls

-- the delegate 4 burns 12 of the 30 tokens of 9, and stays the delegate of the rest
abbrev burn : CompressedTokenInstructionDataBurn
burn = record {
  proof = proof;
  input_token_data_with_context = input 10 none (some 0) ∷ (input 20 (some 1) (some 0) ∷ []);
  cpi_context = none;
  burn_amount = 12;
  change_account_merkle_tree_index = 0;
  delegated_transfer = some (record { owner = 9; delegate_change_account_index = some 0 });
}

abbrev burn_accounts : BurnInstruction
burn_accounts = record {
  authority = 4;
  mint = 3;
  token_pool_balance = 100;
  remaining_accounts = 4 ∷ (21 ∷ []);
}

abbrev spl_burn : ℕ → ℕ → TokenResult ℕ
spl_burn balance amount = ok (balance - amount)

burnt : ℕ × Cpi
burnt = returned (process_burn env spl_burn burn_accounts burn) (0, no_cpi)

burn_calls : process_burn env spl_burn burn_accounts burn ≡ ok burnt
unfolding burnt process_burn burn_spl_from_pool_pda create_input_and_output_accounts_burn
    burn_outputs change_owner get_input_compressed_accounts_with_merkle_context_and_check_signer
    input_loop read_input check_delegate_signer input_owner delegate_key sum_amounts hash_key
    hash_to_bn254_field_size_be bump_loop is_smaller_than_bn254_field_size_be
    create_output_compressed_accounts hash_delegate_store output_loop output_account is_delegate_at
    lamports_at hash_inputs_with_hashed_values hash_delegate
    add_token_data_to_input_compressed_accounts token_account_data
    cpi_execute_compressed_transaction_transfer cpi_context_account_of
burn_calls = refl

process_burn-IsSound_example : IsSound env 3 burnt.1.instruction 0 12 × (burnt.0 + 12 ≡ 100)
process_burn-IsSound_example = process_burn-IsSound env spl_burn burn_accounts burn burnt burn_calls

-- two accounts of 9, one of them delegated, are frozen by 4
abbrev freeze : CompressedTokenInstructionDataFreeze
freeze = record {
  proof = proof;
  owner = 9;
  input_token_data_with_context = input 10 (some 7) (some 0) ∷ (input 20 none none ∷ []);
  cpi_context = none;
  outputs_merkle_tree_index = 0;
}

abbrev freeze_accounts : FreezeInstruction
freeze_accounts = record {
  authority = 4;
  mint = 3;
  freeze_authority = some 4;
  remaining_accounts = 20 ∷ (21 ∷ []);
}

frozen_cpi : Cpi
frozen_cpi = returned (process_freeze_or_thaw env false true freeze_accounts freeze) no_cpi

freeze_calls : process_freeze_or_thaw env false true freeze_accounts freeze ≡ ok frozen_cpi
unfolding frozen_cpi process_freeze_or_thaw check_freeze_authority
    create_input_and_output_accounts_freeze_or_thaw check_not_empty
    get_input_compressed_accounts_with_merkle_context_and_check_signer input_loop read_input
    check_delegate_signer input_owner delegate_key hash_key hash_to_bn254_field_size_be bump_loop
    is_smaller_than_bn254_field_size_be create_token_output_accounts token_output hash
    hash_inputs_with_hashed_values hash_delegate add_token_data_to_input_compressed_accounts
    token_account_data cpi_execute_compressed_transaction_transfer cpi_context_account_of
freeze_calls = refl

process_freeze_or_thaw-Restates_example :
    (◌≡◌ {A = Option ℕ} (some 4) (some 4))
    × IsSound env 3 frozen_cpi.instruction 0 0
    × Restates env false true frozen_cpi.instruction
process_freeze_or_thaw-Restates_example =
    process_freeze_or_thaw-Restates env false true freeze_accounts freeze frozen_cpi freeze_calls

-- 10 and 20 tokens are minted, with 1 lamport for each account
abbrev mint_accounts : MintToInstruction
mint_accounts = record {
  authority = 4;
  mint = 3;
  mint_authority = some 4;
  token_pool_balance = 100;
}

abbrev spl_mint : ℕ → ℕ → TokenResult ℕ
spl_mint balance amount = ok (balance + amount)

-- forms as long as those of the program: 162 bytes of an account, 26 of the seeds
abbrev forms : Borsh
forms = record {
  proof = λ proof. [];
  new_address_params = λ params. [];
  input_account = λ account. [];
  output_account = λ account. replicate 162 account.compressed_account.lamports;
  seeds = λ seeds. replicate 26 7;
  cpi_context = λ context. [];
}

minted : ℕ × List ℕ
minted =
    returned
      (process_mint_to forms.output_account forms.seeds env spl_mint mint_accounts (5 ∷ (6 ∷ []))
        (10 ∷ (20 ∷ [])) (some 1))
      (0, [])

mint_returns :
    process_mint_to forms.output_account forms.seeds env spl_mint mint_accounts
      (5 ∷ (6 ∷ []))
      (10 ∷ (20 ∷ []))
      (some 1)
    ≡ ok minted
unfolding minted process_mint_to check_mint_authority mint_spl_to_pool_pda mint_amount hash_key
    hash_to_bn254_field_size_be bump_loop is_smaller_than_bn254_field_size_be
    create_output_compressed_accounts hash_delegate_store output_loop output_account is_delegate_at
    lamports_at hash_inputs_with_hashed_values serialize_mint_to_cpi_instruction_data
    serialize_outputs compression_bytes to_le_bytes
mint_returns = refl

process_mint_to-Mints_example :
    Mints forms env spl_mint mint_accounts (5 ∷ (6 ∷ [])) (10 ∷ (20 ∷ [])) (some 1) minted
process_mint_to-Mints_example =
    process_mint_to-Mints forms env spl_mint mint_accounts (5 ∷ (6 ∷ [])) (10 ∷ (20 ∷ [])) (some 1)
      minted mint_returns (omega arith)
