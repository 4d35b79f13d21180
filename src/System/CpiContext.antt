-- ===== src/System/CpiContext.antt =====
-- programs/system/src/invoke_cpi: the account that collects the instructions of several programs
-- (account.rs, process_cpi_context.rs), and the instruction `invoke_cpi` up to the call of `process`.
pub mod Collect
pub mod Together
mod Tests
use light_protocol.Prelude.{
  ℕ, Bool, true, false, not, List, [], ◌∷◌, ◌++◌, Option, none, some, Result, ok, err, ◌>>=◌, ◌>>◌,
  guard, unwrap, map_err, get_elem?, length, ◌==◌, ◌&&◌, if◌then◌else◌,
}
use light_protocol.System.Accounts.{
  SystemProgramError, SystemResult, cpi_context_missing, cpi_context_account_undefined, no_inputs,
  cpi_context_associated_merkle_tree_mismatch, cpi_context_empty, cpi_context_fee_payer_mismatch,
  InstructionDataInvoke, CompressedCpiContext, InstructionDataInvokeCpi,
  PackedCompressedAccountWithMerkleContext, OutputCompressedAccountWithPackedContext,
}
use light_protocol.System.CpiSigner.{SystemError, system_program_error, cpi_signer_checks}

pub record CpiContextAccount : Type 0 where
  pub fee_payer : ℕ
  pub associated_merkle_tree : ℕ
  pub context : List InstructionDataInvokeCpi

abbrev pub is_empty : {A : Type 0} → List A → Bool
is_empty [] = true
is_empty (x ∷ xs) = false

unfoldable pub clean_input_data : InstructionDataInvokeCpi → InstructionDataInvokeCpi
clean_input_data inputs = record inputs {
  cpi_context = none;
  compress_or_decompress_lamports = none;
  relay_fee = none;
  signer_seeds = [];
  proof = none;
}

unfoldable pub combine :
    InstructionDataInvokeCpi → List InstructionDataInvokeCpi → InstructionDataInvokeCpi
combine inputs [] = inputs
combine inputs (other ∷ others) =
    combine
      (record inputs {
        new_address_params = inputs.new_address_params ++ other.new_address_params;
        input_compressed_accounts_with_merkle_context =
            inputs.input_compressed_accounts_with_merkle_context
            ++ other.input_compressed_accounts_with_merkle_context;
        output_compressed_accounts =
            inputs.output_compressed_accounts ++ other.output_compressed_accounts;
      })
      others

unfoldable pub set_cpi_context :
    ℕ → CpiContextAccount → InstructionDataInvokeCpi → SystemResult CpiContextAccount
set_cpi_context fee_payer account inputs = do
  cpi_context ← unwrap inputs.cpi_context
  if cpi_context.first_set_context
      then ok (record account { fee_payer = fee_payer; context = clean_input_data inputs ∷ [] })
      else if (fee_payer == account.fee_payer) && not (is_empty account.context)
      then ok (record account { context = account.context ++ (clean_input_data inputs ∷ []) })
      else err cpi_context_fee_payer_mismatch

-- the index of the first tree that the instruction uses
unfoldable pub first_merkle_tree_index :
    List PackedCompressedAccountWithMerkleContext
    → List OutputCompressedAccountWithPackedContext
    → SystemResult ℕ
first_merkle_tree_index (account ∷ accounts) outputs =
    ok account.merkle_context.merkle_tree_pubkey_index
first_merkle_tree_index [] (account ∷ accounts) = ok account.merkle_tree_index
first_merkle_tree_index [] [] = err no_inputs

-- the branch of an instruction that executes what was collected
unfoldable pub execute_context :
    ℕ
    → CpiContextAccount
    → CompressedCpiContext
    → InstructionDataInvokeCpi
    → SystemResult (Option InstructionDataInvokeCpi × Option CpiContextAccount)
execute_context fee_payer account cpi_context inputs = do
  guard (not (is_empty account.context)) cpi_context_empty
  guard ((account.fee_payer == fee_payer) && not cpi_context.first_set_context)
      cpi_context_fee_payer_mismatch
  ok (some (combine inputs account.context), some (record account { fee_payer = 0; context = [] }))

-- the branch of an instruction with a cpi context
unfoldable pub use_context :
    CompressedCpiContext
    → InstructionDataInvokeCpi
    → Option CpiContextAccount
    → ℕ
    → List ℕ
    → SystemResult (Option InstructionDataInvokeCpi × Option CpiContextAccount)
use_context cpi_context inputs none fee_payer remaining_accounts = err cpi_context_account_undefined
use_context cpi_context inputs (some account) fee_payer remaining_accounts = do
  index ←
      first_merkle_tree_index inputs.input_compressed_accounts_with_merkle_context
        inputs.output_compressed_accounts
  first_merkle_tree_pubkey ← unwrap (get_elem? remaining_accounts index)
  guard (first_merkle_tree_pubkey == account.associated_merkle_tree)
      cpi_context_associated_merkle_tree_mismatch
  let collected : SystemResult (Option InstructionDataInvokeCpi × Option CpiContextAccount) = (do
    account' ← set_cpi_context fee_payer account inputs
    ok (none, some account'))
  if cpi_context.set_context
      then collected
      else execute_context fee_payer account cpi_context inputs

-- without a cpi context
unfoldable pub skip_context :
    InstructionDataInvokeCpi
    → Option CpiContextAccount
    → SystemResult (Option InstructionDataInvokeCpi × Option CpiContextAccount)
skip_context inputs none = ok (some inputs, none)
skip_context inputs (some account) = err cpi_context_missing

-- the instruction to execute, if it is not only collected, and the account afterwards
unfoldable pub process_cpi_context :
    InstructionDataInvokeCpi
    → Option CpiContextAccount
    → ℕ
    → List ℕ
    → SystemResult (Option InstructionDataInvokeCpi × Option CpiContextAccount)
process_cpi_context inputs account fee_payer remaining_accounts = elim inputs.cpi_context [
  | none ↦ skip_context inputs account
  | some cpi_context ↦ use_context cpi_context inputs account fee_payer remaining_accounts
]

-- an invocation: the accounts of the instruction that are read, and its data
pub record InvokeCpi : Type 0 where
  pub invoking_program : ℕ
  pub authority : ℕ
  pub fee_payer : ℕ
  pub remaining_accounts : List ℕ
  pub inputs : InstructionDataInvokeCpi

-- what an invocation leaves: the data and the length for `process`, and the account
pub record Invoked : Type 0 where
  pub to_process : Option (InstructionDataInvoke × ℕ)
  pub cpi_context_account : Option CpiContextAccount

abbrev pub invoke_data : InstructionDataInvokeCpi → InstructionDataInvoke
invoke_data inputs = record {
  input_compressed_accounts_with_merkle_context =
      inputs.input_compressed_accounts_with_merkle_context;
  output_compressed_accounts = inputs.output_compressed_accounts;
  relay_fee = inputs.relay_fee;
  proof = inputs.proof;
  new_address_params = inputs.new_address_params;
  compress_or_decompress_lamports = inputs.compress_or_decompress_lamports;
  is_compress = inputs.is_compress;
}

abbrev pub context_length : Option CpiContextAccount → ℕ
context_length none = 0
context_length (some account) = length account.context

abbrev pub data_to_process :
    Option InstructionDataInvokeCpi → ℕ → Option (InstructionDataInvoke × ℕ)
data_to_process none n = none
data_to_process (some inputs) n = some (invoke_data inputs, n)

unfoldable pub process_invoke_cpi :
    (List (List ℕ) → ℕ → Result ℕ ℕ)
    → InvokeCpi
    → Option CpiContextAccount
    → Result SystemError Invoked
process_invoke_cpi create_program_address call account = do
  cpi_signer_checks create_program_address call.invoking_program call.authority
      call.inputs.signer_seeds call.inputs.input_compressed_accounts_with_merkle_context
      call.inputs.output_compressed_accounts
  (inputs, account') ←
      map_err system_program_error
        (process_cpi_context call.inputs account call.fee_payer call.remaining_accounts)
  ok (record {
    to_process = data_to_process inputs (context_length account);
    cpi_context_account = account';
  })
