-- ===== src/System/CpiContext/Tests.antt =====
-- Three programs share one proof: two collect, the third executes.
use light_protocol.Prelude.{
  ℕ, ◌+◌, ◌≡◌, refl, Bool, true, false, List, [], ◌∷◌, Option, none, some, Result, ok,
}
use light_protocol.System.Accounts.{InstructionDataInvoke, InstructionDataInvokeCpi}
use light_protocol.System.CpiSigner.{
  cpi_signer_check, input_compressed_accounts_signer_check,
  output_compressed_accounts_write_access_check, cpi_signer_checks,
}
use light_protocol.System.CpiContext.{
  CpiContextAccount, InvokeCpi, clean_input_data, combine, set_cpi_context, first_merkle_tree_index,
  execute_context, use_context, process_cpi_context, invoke_data, process_invoke_cpi,
}
use light_protocol.System.CpiContext.Collect.{joined, emptied, none_left, collect}
use light_protocol.System.CpiContext.Together.{AllInvoked, process_invoke_cpi-Together}

abbrev derive : List (List ℕ) → ℕ → Result ℕ ℕ
derive seeds program = ok (program + 100)

abbrev instruction : ℕ → Bool → Bool → InstructionDataInvokeCpi
instruction program set first = record {
  proof = none;
  new_address_params = [];
  input_compressed_accounts_with_merkle_context =
      record {
        compressed_account = record {
          owner = program;
          lamports = 5;
          address = none;
          account_data = none;
        };
        merkle_context = record {
          merkle_tree_pubkey_index = 0;
          nullifier_queue_pubkey_index = 1;
          leaf_index = 0;
          queue_index = none;
        };
        root_index = 0;
        read_only = false;
      }
      ∷ [];
  output_compressed_accounts =
      record {
        compressed_account = record {
          owner = 77;
          lamports = 5;
          address = none;
          account_data = none;
        };
        merkle_tree_index = 0;
      }
      ∷ [];
  relay_fee = none;
  compress_or_decompress_lamports = none;
  is_compress = false;
  signer_seeds = [];
  cpi_context =
      some (record { set_context = set; first_set_context = first; cpi_context_account_index = 1 });
}

abbrev call : ℕ → Bool → Bool → InvokeCpi
call program set first = record {
  invoking_program = program;
  authority = program + 100;
  fee_payer = 9;
  remaining_accounts = 50 ∷ (51 ∷ []);
  inputs = instruction program set first;
}

-- an account that was left with the tree 50
abbrev before : CpiContextAccount
before = record { fee_payer = 3; associated_merkle_tree = 50; context = [] }

abbrev holding : List InstructionDataInvokeCpi → CpiContextAccount
holding context = record { fee_payer = 9; associated_merkle_tree = 50; context = context }

abbrev started : CpiContextAccount
unfolding clean_input_data
started = holding (clean_input_data (instruction 1 true true) ∷ [])

abbrev after : CpiContextAccount
unfolding clean_input_data
after = holding (
    clean_input_data (instruction 1 true true) ∷ (clean_input_data (instruction 2 true false) ∷ []))

starts :
    process_invoke_cpi derive (call 1 true true) (some before)
    ≡ ok (record { to_process = none; cpi_context_account = some started })
unfolding process_invoke_cpi cpi_signer_checks cpi_signer_check
    input_compressed_accounts_signer_check output_compressed_accounts_write_access_check
    process_cpi_context use_context first_merkle_tree_index set_cpi_context started clean_input_data
starts = refl

goes_on :
    process_invoke_cpi derive (call 2 true false) (some started)
    ≡ ok (record { to_process = none; cpi_context_account = some after })
unfolding process_invoke_cpi cpi_signer_checks cpi_signer_check
    input_compressed_accounts_signer_check output_compressed_accounts_write_access_check
    process_cpi_context use_context first_merkle_tree_index set_cpi_context started after
    clean_input_data
goes_on = refl

abbrev executed : InstructionDataInvoke × ℕ
executed = (
  invoke_data (joined (instruction 3 false false) (call 1 true true ∷ (call 2 true false ∷ []))),
  2,
)

executes :
    process_invoke_cpi derive (call 3 false false) (some after)
    ≡ ok (record { to_process = some executed; cpi_context_account = some (emptied before) })
unfolding process_invoke_cpi cpi_signer_checks cpi_signer_check
    input_compressed_accounts_signer_check output_compressed_accounts_write_access_check
    process_cpi_context use_context first_merkle_tree_index execute_context combine after
    clean_input_data
executes = refl

abbrev three_calls : List InvokeCpi
three_calls = call 3 false false ∷ (call 1 true true ∷ (call 2 true false ∷ []))

process_invoke_cpi-Together_example :
    (executed ≡ (
      invoke_data
          (joined (instruction 3 false false) (call 1 true true ∷ (call 2 true false ∷ []))),
      2,
    ))
    × (◌≡◌ {A = Option CpiContextAccount} (some (emptied before)) (some (emptied before)))
    × AllInvoked derive 9 three_calls
process_invoke_cpi-Together_example =
    process_invoke_cpi-Together derive (call 1 true true) (call 3 false false)
      (call 2 true false ∷ []) before started after
      (record { to_process = some executed; cpi_context_account = some (emptied before) }) executed
      (
        record { set_context = true; first_set_context = true; cpi_context_account_index = 1 },
        refl,
        refl,
      )
      starts
      (collect (call 2 true false) [] started after after goes_on
        (
          record { set_context = true; first_set_context = false; cpi_context_account_index = 1 },
          refl,
          refl,
        )
        (none_left after))
      executes refl
