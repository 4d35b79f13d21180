-- ===== src/System/Append/Tests.antt =====
-- The leaves of two input and three output accounts, and an address that is used twice.
use light_protocol.Prelude.{
  ℕ, ◌≡◌, refl, false, List, [], ◌∷◌, Option, none, some, Result, ok, err, panic, length,
}
use light_protocol.System.Accounts.{
  PackedCompressedAccountWithMerkleContext, OutputCompressedAccountWithPackedContext,
}
use light_protocol.System.CpiSigner.{SystemError}
use light_protocol.Utils.Tests.{big_uint, digest}
use light_protocol.Utils.FieldHash.{
  hash_to_bn254_field_size_be, bump_loop, is_smaller_than_bn254_field_size_be,
}
use light_protocol.System.AccountHash.{
  SystemEnv, hash_pubkey, hash_with_hashed_values, find_or_hash,
}
use light_protocol.System.AccountHash.Known.{Coherent}
use light_protocol.System.HashInputs.{
  store_address, enter_tree, enter_owner, hash_loop, hash_input_compressed_accounts,
}
use light_protocol.System.HashInputs.Leaves.{AreLeaves, hash_input_compressed_accounts-AreLeaves}
use light_protocol.System.Append.{
  RemainingAccount, AppendState, check_program_owner_state_merkle_tree, check_data_owner, remove,
  take_address, hash_tree, add_tree, enter_output_tree, append_account, append_loop,
  create_cpi_accounts_and_instruction_data,
}
use light_protocol.System.Append.Addresses.{take_address-take_address}
use light_protocol.System.Append.Trees.{AreAppended}
use light_protocol.System.Append.Leaves.{create_cpi_accounts-AreAppended}

abbrev env : SystemEnv
env = record {
  big_uint = big_uint;
  keccak_hashv = digest;
  poseidon_hashv = λ parts. ok (length parts ∷ []);
}

abbrev input : ℕ → ℕ → Option (List ℕ) → PackedCompressedAccountWithMerkleContext
input owner tree address = record {
  compressed_account = record {
    owner = owner;
    lamports = 5;
    address = address;
    account_data = none;
  };
  merkle_context = record {
    merkle_tree_pubkey_index = tree;
    nullifier_queue_pubkey_index = 2;
    leaf_index = 3;
    queue_index = none;
  };
  root_index = 0;
  read_only = false;
}

abbrev inputs : List PackedCompressedAccountWithMerkleContext
inputs = input 7 0 none ∷ (input 8 1 (some (1 ∷ [])) ∷ [])

abbrev Hashed : Type 0
Hashed = List (List ℕ) × (List (Option (List ℕ)) × List (ℕ × List ℕ))

abbrev returned : {A : Type 0} → Result SystemError A → A → A
returned (ok a) other = a
returned (err e) other = other
returned panic other = other

hashed : Hashed
hashed =
    returned
      (hash_input_compressed_accounts env (50 ∷ (51 ∷ [])) inputs ([] ∷ ([] ∷ []))
        (none ∷ (none ∷ [])) [])
      ([], ([], []))

inputs_hashed :
    hash_input_compressed_accounts env
      (50 ∷ (51 ∷ []))
      inputs
      ([] ∷ ([] ∷ []))
      (none ∷ (none ∷ []))
      []
    ≡ ok hashed
unfolding hashed hash_input_compressed_accounts hash_loop store_address enter_tree enter_owner
    find_or_hash hash_pubkey hash_to_bn254_field_size_be bump_loop
    is_smaller_than_bn254_field_size_be hash_with_hashed_values
inputs_hashed = refl

hash_input_compressed_accounts-AreLeaves_example :
    AreLeaves env (50 ∷ (51 ∷ [])) inputs hashed.0 × (length hashed.0 ≡ 2) × Coherent env hashed.1.1
hash_input_compressed_accounts-AreLeaves_example =
    hash_input_compressed_accounts-AreLeaves env (50 ∷ (51 ∷ [])) inputs ([] ∷ ([] ∷ []))
      (none ∷ (none ∷ [])) [] hashed tt inputs_hashed

abbrev output : ℕ → Option (List ℕ) → OutputCompressedAccountWithPackedContext
output tree address = record {
  compressed_account = record { owner = 7; lamports = 5; address = address; account_data = none };
  merkle_tree_index = tree;
}

abbrev outputs : List OutputCompressedAccountWithPackedContext
outputs = output 0 none ∷ (output 0 (some (1 ∷ [])) ∷ (output 1 (some (1 ∷ [])) ∷ []))

abbrev tree_account : ℕ → ℕ → RemainingAccount
tree_account key next_index = record {
  key = key;
  state_merkle_tree =
      ok (record {
        next_index = next_index;
        sequence_number = 9;
        network_fee = 0;
        program_owner = 0;
      });
}

abbrev Appended : Type 0
Appended = List ℕ × (List (List ℕ) × AppendState)

abbrev trees : List RemainingAccount
trees = tree_account 50 4 ∷ (tree_account 51 0 ∷ [])

-- The second and the third account have one address: the first input account has none.
appended : Appended
appended =
    returned
      (create_cpi_accounts_and_instruction_data env none trees outputs (0 ∷ (0 ∷ (0 ∷ [])))
        ([] ∷ ([] ∷ ([] ∷ []))) (none ∷ (some (1 ∷ []) ∷ [])) [] [] [])
      (
        [],
        (
          [],
          record {
            current_index = none;
            num_leaves_in_tree = 0;
            mt_next_index = 0;
            instruction_data = [];
            hashed_merkle_tree = [];
            index_merkle_tree_account = 0;
            merkle_tree_pubkeys = [];
            compressed_account_addresses = [];
            hashed_pubkeys = [];
            sequence_numbers = [];
            accounts = [];
          },
        ),
      )

outputs_appended :
    create_cpi_accounts_and_instruction_data env none trees outputs
      (0 ∷ (0 ∷ (0 ∷ [])))
      ([] ∷ ([] ∷ ([] ∷ [])))
      (none ∷ (some (1 ∷ []) ∷ []))
      []
      []
      []
    ≡ ok appended
unfolding appended create_cpi_accounts_and_instruction_data append_loop append_account
    enter_output_tree add_tree check_program_owner_state_merkle_tree hash_tree take_address remove
    check_data_owner find_or_hash hash_pubkey hash_to_bn254_field_size_be bump_loop
    is_smaller_than_bn254_field_size_be hash_with_hashed_values
outputs_appended = refl

leaf_indices : appended.0 ≡ 4 ∷ (5 ∷ (0 ∷ []))
unfolding appended create_cpi_accounts_and_instruction_data append_loop append_account
    enter_output_tree add_tree check_program_owner_state_merkle_tree hash_tree take_address remove
    check_data_owner find_or_hash hash_pubkey hash_to_bn254_field_size_be bump_loop
    is_smaller_than_bn254_field_size_be hash_with_hashed_values
leaf_indices = refl

create_cpi_accounts-AreAppended_example :
    AreAppended env none trees [] outputs appended.0 appended.1.0
create_cpi_accounts-AreAppended_example =
    create_cpi_accounts-AreAppended env none trees outputs (0 ∷ (0 ∷ (0 ∷ [])))
      ([] ∷ ([] ∷ ([] ∷ []))) (none ∷ (some (1 ∷ []) ∷ [])) [] [] [] appended tt outputs_appended

taken_once : take_address (none ∷ (some (1 ∷ []) ∷ [])) (some (1 ∷ [])) ≡ ok (some (1 ∷ []) ∷ [])
unfolding take_address remove
taken_once = refl

take_address-take_address_example :
    (left : List (Option (List ℕ))) × (take_address (some (1 ∷ []) ∷ []) (some (1 ∷ [])) ≡ ok left)
take_address-take_address_example =
    take_address-take_address (some (1 ∷ []) ∷ []) (some (1 ∷ []) ∷ []) (1 ∷ []) taken_once
