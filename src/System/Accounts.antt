-- ===== src/System/Accounts.antt =====
-- programs/system/src: the errors, the compressed accounts, and the data of the instructions
-- `invoke` and `invoke_cpi`. A public key is its 256-bit number, an array of bytes a list.
use light_protocol.Prelude.{ℕ, Bool, List, Option, Result}

pub data SystemProgramError : Type 0 where
  sum_check_failed : SystemProgramError
  signer_check_failed : SystemProgramError
  cpi_signer_check_failed : SystemProgramError
  compute_input_sum_failed : SystemProgramError
  compute_output_sum_failed : SystemProgramError
  compute_rpc_sum_failed : SystemProgramError
  invalid_address : SystemProgramError
  derive_address_error : SystemProgramError
  compressed_sol_pda_undefined_for_compress_sol : SystemProgramError
  de_compress_lamports_undefined_for_compress_sol : SystemProgramError
  compressed_sol_pda_undefined_for_decompress_sol : SystemProgramError
  de_compress_lamports_undefined_for_decompress_sol : SystemProgramError
  decompress_recipient_undefined_for_decompress_sol : SystemProgramError
  write_access_check_failed : SystemProgramError
  invoking_program_not_provided : SystemProgramError
  invalid_capacity : SystemProgramError
  invalid_merkle_tree_owner : SystemProgramError
  proof_is_none : SystemProgramError
  proof_is_some : SystemProgramError
  empty_inputs : SystemProgramError
  cpi_context_account_undefined : SystemProgramError
  cpi_context_empty : SystemProgramError
  cpi_context_missing : SystemProgramError
  decompression_recipient_defined : SystemProgramError
  sol_pool_pda_defined : SystemProgramError
  append_state_failed : SystemProgramError
  instruction_not_callable : SystemProgramError
  cpi_context_fee_payer_mismatch : SystemProgramError
  cpi_context_associated_merkle_tree_mismatch : SystemProgramError
  no_inputs : SystemProgramError
  input_merkle_tree_indices_not_in_order : SystemProgramError
  output_merkle_tree_indices_not_in_order : SystemProgramError
  output_merkle_tree_not_unique : SystemProgramError
  data_field_undefined : SystemProgramError

pub record CompressedAccountData : Type 0 where
  pub discriminator : List ℕ
  pub bytes : List ℕ
  pub data_hash : List ℕ

pub record CompressedAccount : Type 0 where
  pub owner : ℕ
  pub lamports : ℕ
  pub address : Option (List ℕ)
  pub account_data : Option CompressedAccountData

pub record QueueIndex : Type 0 where
  pub queue_id : ℕ
  pub index : ℕ

pub record PackedMerkleContext : Type 0 where
  pub merkle_tree_pubkey_index : ℕ
  pub nullifier_queue_pubkey_index : ℕ
  pub leaf_index : ℕ
  pub queue_index : Option QueueIndex

pub record PackedCompressedAccountWithMerkleContext : Type 0 where
  pub compressed_account : CompressedAccount
  pub merkle_context : PackedMerkleContext
  pub root_index : ℕ
  pub read_only : Bool

pub record OutputCompressedAccountWithPackedContext : Type 0 where
  pub compressed_account : CompressedAccount
  pub merkle_tree_index : ℕ

abbrev pub SystemResult {κ} : Type κ → Type κ
SystemResult = Result SystemProgramError

pub record CompressedProof : Type 0 where
  pub a : List ℕ
  pub b : List ℕ
  pub c : List ℕ

pub record CompressedCpiContext : Type 0 where
  pub set_context : Bool
  pub first_set_context : Bool
  pub cpi_context_account_index : ℕ

pub record NewAddressParamsPacked : Type 0 where
  pub seed : List ℕ
  pub address_queue_account_index : ℕ
  pub address_merkle_tree_account_index : ℕ
  pub address_merkle_tree_root_index : ℕ

pub record InstructionDataInvoke : Type 0 where
  pub proof : Option CompressedProof
  pub input_compressed_accounts_with_merkle_context : List PackedCompressedAccountWithMerkleContext
  pub output_compressed_accounts : List OutputCompressedAccountWithPackedContext
  pub relay_fee : Option ℕ
  pub new_address_params : List NewAddressParamsPacked
  pub compress_or_decompress_lamports : Option ℕ
  pub is_compress : Bool

pub record InstructionDataInvokeCpi : Type 0 where
  pub proof : Option CompressedProof
  pub new_address_params : List NewAddressParamsPacked
  pub input_compressed_accounts_with_merkle_context : List PackedCompressedAccountWithMerkleContext
  pub output_compressed_accounts : List OutputCompressedAccountWithPackedContext
  pub relay_fee : Option ℕ
  pub compress_or_decompress_lamports : Option ℕ
  pub is_compress : Bool
  pub signer_seeds : List (List ℕ)
  pub cpi_context : Option CompressedCpiContext
