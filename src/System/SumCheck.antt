-- ===== src/System/SumCheck.antt =====
-- programs/system/src/invoke/sum_check.rs: lamports are neither made nor lost.
pub mod Balance
use light_protocol.Prelude.{
  ℕ, ◌+◌, ◌-◌, ◌≤◌, ◌<◌, ◌≡◌, ◌↔◌, ◌≢◌, refl, sym, ap, ◌∙◌, arith, Bool, true, false, List, [], ◌∷◌,
  map, Option, none, some, Result, ok, err, panic, ◌>>=◌, >>=-eq-ok, ok_or, ltb, leb, ◌==◌,
  if◌then◌else◌, Bool-cases, inl, inr, lt→ltb, le→leb, lt→leb_false,
}
use light_protocol.Prelude.Words.{checked_add, checked_sub, word}
use light_protocol.System.Accounts.{
  SystemProgramError, SystemResult, sum_check_failed, compute_input_sum_failed,
  compute_output_sum_failed, compute_rpc_sum_failed, PackedCompressedAccountWithMerkleContext,
  OutputCompressedAccountWithPackedContext,
}

-- the loop over the input accounts; `unimplemented!` is a panic
unfoldable pub add_inputs : ℕ → List PackedCompressedAccountWithMerkleContext → SystemResult ℕ
add_inputs sum [] = ok sum
add_inputs sum (account ∷ accounts) = do
  let next : SystemResult ℕ =
      ok_or (checked_add sum account.compressed_account.lamports) compute_input_sum_failed
  sum' ← (if account.read_only then panic else next)
  add_inputs sum' accounts

-- the loop over the output accounts
unfoldable pub sub_outputs : ℕ → List OutputCompressedAccountWithPackedContext → SystemResult ℕ
sub_outputs sum [] = ok sum
sub_outputs sum (account ∷ accounts) = do
  sum' ← ok_or (checked_sub sum account.compressed_account.lamports) compute_output_sum_failed
  sub_outputs sum' accounts

unfoldable pub move_lamports : ℕ → Option ℕ → Bool → SystemResult ℕ
move_lamports sum none is_compress = ok sum
move_lamports sum (some lamports) true = ok_or (checked_add sum lamports) compute_output_sum_failed
move_lamports sum (some lamports) false = ok_or (checked_sub sum lamports) compute_output_sum_failed

unfoldable pub pay_relay_fee : ℕ → Option ℕ → SystemResult ℕ
pay_relay_fee sum none = ok sum
pay_relay_fee sum (some fee) = ok_or (checked_sub sum fee) compute_rpc_sum_failed

unfoldable pub sum_check :
    List PackedCompressedAccountWithMerkleContext
    → List OutputCompressedAccountWithPackedContext
    → Option ℕ
    → Option ℕ
    → Bool
    → SystemResult (Unit {0})
sum_check inputs outputs relay_fee compress_or_decompress_lamports is_compress = do
  sum ← add_inputs 0 inputs
  sum1 ← move_lamports sum compress_or_decompress_lamports is_compress
  sum2 ← sub_outputs sum1 outputs
  sum3 ← pay_relay_fee sum2 relay_fee
  if sum3 == 0 then ok tt else err sum_check_failed
