-- ===== src/System/Tests.antt =====
-- The theorems on `sum_check` at two accounts.
use light_protocol.Prelude.{ℕ, ◌+◌, ◌≡◌, refl, arith, false, List, [], ◌∷◌, some, none, ok}
use light_protocol.System.Accounts.{
  CompressedAccount, PackedCompressedAccountWithMerkleContext,
  OutputCompressedAccountWithPackedContext,
}
use light_protocol.System.SumCheck.{
  sum_check, add_inputs, sub_outputs, move_lamports, pay_relay_fee,
}
use light_protocol.System.SumCheck.Balance.{
  input_sum, output_sum, sum_check-balanced, sum_check_complete,
}

abbrev account : ℕ → CompressedAccount
account n = record { owner = 1; lamports = n; address = none; account_data = none }

abbrev input : ℕ → PackedCompressedAccountWithMerkleContext
input n = record {
  compressed_account = account n;
  merkle_context = record {
    merkle_tree_pubkey_index = 0;
    nullifier_queue_pubkey_index = 1;
    leaf_index = 0;
    queue_index = none;
  };
  root_index = 0;
  read_only = false;
}

abbrev output : ℕ → OutputCompressedAccountWithPackedContext
output n = record { compressed_account = account n; merkle_tree_index = 0 }

abbrev inputs : List PackedCompressedAccountWithMerkleContext
inputs = input 100 ∷ input 50 ∷ []

abbrev outputs : List OutputCompressedAccountWithPackedContext
outputs = output 80 ∷ []

-- 20 lamports are decompressed and the relayer gets 50
passes : sum_check inputs outputs (some 50) (some 20) false ≡ ok tt
unfolding sum_check add_inputs sub_outputs move_lamports pay_relay_fee
passes = refl

sum_check-balanced_example : input_sum inputs + 0 ≡ output_sum outputs + 20 + 50
sum_check-balanced_example = sum_check-balanced inputs outputs (some 50) (some 20) false passes

sum_check_complete_example : sum_check inputs outputs (some 50) (some 20) false ≡ ok tt
sum_check_complete_example =
    sum_check_complete inputs outputs (some 50) (some 20) false (refl, (refl, tt)) (omega arith)
      (omega arith) refl
