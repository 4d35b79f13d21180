-- ===== src/Token/Backed.antt =====
-- programs/compressed-token/src: what the call of the system program of each instruction promises.
use light_protocol.Prelude.{
  ℕ, ◌+◌, ◌<◌, ◌≡◌, refl, ap, subst, arith, Bool, false, List, [], ◌∷◌, ◌++◌, Option, none, some,
  ok, >>=-eq-ok, ok_injective,
}
use light_protocol.Prelude.Words.{word}
use light_protocol.System.Accounts.{
  CompressedProof, CompressedCpiContext, InstructionDataInvokeCpi,
  PackedCompressedAccountWithMerkleContext, OutputCompressedAccountWithPackedContext,
}
use light_protocol.System.SumCheck
use light_protocol.System.SumCheck.Balance.{input_sum, output_sum, IsWritable, sum_check_complete}
use light_protocol.Token.Data.{TokenEnv, TokenData, hash_key}
use light_protocol.Token.Outputs.{
  Cpi, cpi_context_account_of, cpi_execute_compressed_transaction_transfer, instruction_data,
}
use light_protocol.Token.Inputs.{Spent, add_token_data_to_input_compressed_accounts}
use light_protocol.Token.Holds.{
  ReadAll, ReadAll-AllOf, add_token_data-InputsHold, InputsHold, OutputsHold, AllOf, amount_sum,
}

-- accounts without data
abbrev pub AllBare : List OutputCompressedAccountWithPackedContext → Type 0
AllBare [] = Unit {0}
AllBare (account ∷ accounts) = (account.compressed_account.account_data ≡ none) × AllBare accounts

-- The inputs hold tokens of the mint, and so do the outputs but for accounts without data. With
-- the tokens that come out of the pool in the end, there are as many as before with those that go
-- into it.
pub record Backed (env : TokenEnv) (mint : ℕ) (call : InstructionDataInvokeCpi)
    (in_pool out_pool : ℕ) : Type 0 where
  pub spent : List TokenData
  pub created : List TokenData
  pub inputs_hold : InputsHold env call.input_compressed_accounts_with_merkle_context spent
  pub holding : List OutputCompressedAccountWithPackedContext
  pub rest : List OutputCompressedAccountWithPackedContext
  pub outputs_are : call.output_compressed_accounts ≡ holding ++ rest
  pub outputs_hold : OutputsHold env holding created
  pub rest_bare : AllBare rest
  pub spent_of : AllOf mint spent
  pub created_of : AllOf mint created
  pub balance : amount_sum spent + in_pool ≡ amount_sum created + out_pool

-- the sum check of the system program passes
abbrev pub PassesSumCheck : InstructionDataInvokeCpi → Type 0
PassesSumCheck call =
    SumCheck.sum_check call.input_compressed_accounts_with_merkle_context
      call.output_compressed_accounts call.relay_fee call.compress_or_decompress_lamports
      call.is_compress
    ≡ ok tt

-- what an instruction promises
abbrev pub IsSound : TokenEnv → ℕ → InstructionDataInvokeCpi → ℕ → ℕ → Type 0
IsSound env mint call in_pool out_pool = Backed env mint call in_pool out_pool × PassesSumCheck call

pub output_sum-append :
    (xs ys : List OutputCompressedAccountWithPackedContext)
    → output_sum (xs ++ ys) ≡ output_sum xs + output_sum ys
output_sum-append [] ys = omega arith
output_sum-append (x ∷ xs) ys = omega (arith, output_sum-append xs ys)

-- equal sums of lamports pass the check, where nothing is compressed or paid
pub equal-PassesSumCheck :
    (inputs : List PackedCompressedAccountWithMerkleContext)
    (outputs : List OutputCompressedAccountWithPackedContext)
    → IsWritable inputs
    → input_sum inputs < word
    → input_sum inputs ≡ output_sum outputs
    → SumCheck.sum_check inputs outputs none none false ≡ ok tt
equal-PassesSumCheck inputs outputs writable fits same =
    sum_check_complete inputs outputs none none false writable (omega arith) (omega arith)
      (omega arith)

-- the call that is sent has the accounts that it is given
pub cpi-Sends :
    (inputs : List PackedCompressedAccountWithMerkleContext)
    (outputs : List OutputCompressedAccountWithPackedContext) (proof : Option CompressedProof)
    (cpi_context : Option CompressedCpiContext) (remaining : List ℕ) (cpi : Cpi)
    (P : InstructionDataInvokeCpi → Type 0)
    → cpi_execute_compressed_transaction_transfer inputs outputs proof cpi_context remaining
      ≡ ok cpi
    → P (instruction_data inputs outputs proof cpi_context)
    → P cpi.instruction
unfolding cpi_execute_compressed_transaction_transfer
cpi-Sends inputs outputs proof cpi_context remaining cpi P e h =
    let (account, p, q) = >>=-eq-ok (cpi_context_account_of cpi_context remaining) _ e in
    subst P (ap (λ c. c.instruction) (ok_injective q)) h

-- An instruction is sound if what it has read and created balances.
pub parts-IsSound :
    (env : TokenEnv) (frozen_inputs : Bool) (mint : ℕ) (hashed_mint : List ℕ) (spent : Spent)
    (accounts : List PackedCompressedAccountWithMerkleContext) (created : List TokenData)
    (outputs rest : List OutputCompressedAccountWithPackedContext) (proof : Option CompressedProof)
    (cpi_context : Option CompressedCpiContext) (in_pool out_pool : ℕ)
    → hash_key env mint ≡ some hashed_mint
    → ReadAll mint frozen_inputs spent.accounts spent.tokens
    → 0 + input_sum spent.accounts ≡ spent.sum_lamports
    → spent.sum_lamports < word
    → add_token_data_to_input_compressed_accounts env frozen_inputs spent.accounts spent.tokens
        hashed_mint
      ≡ ok accounts
    → OutputsHold env outputs created
    → AllOf mint created
    → AllBare rest
    → output_sum outputs + output_sum rest ≡ spent.sum_lamports
    → amount_sum spent.tokens + in_pool ≡ amount_sum created + out_pool
    → IsSound env mint
        (instruction_data accounts (outputs ++ rest) proof cpi_context)
        in_pool
        out_pool
parts-IsSound env frozen_inputs mint hashed_mint spent accounts created outputs rest proof
      cpi_context in_pool out_pool hashed read lamports bound added hold created_of bare
      spent_lamports balance =
    let (inputs_hold, sums, writable) =
      add_token_data-InputsHold env frozen_inputs mint hashed_mint hashed spent.accounts
        spent.tokens accounts read added in
    (
      record {
        spent = spent.tokens;
        created = created;
        inputs_hold = inputs_hold;
        holding = outputs;
        rest = rest;
        outputs_are = refl;
        outputs_hold = hold;
        rest_bare = bare;
        spent_of = ReadAll-AllOf mint frozen_inputs spent.accounts spent.tokens read;
        created_of = created_of;
        balance = balance;
      },
      equal-PassesSumCheck accounts (outputs ++ rest) writable
          (omega (arith, sums, lamports, bound))
          (omega (arith, sums, lamports, spent_lamports, output_sum-append outputs rest)),
    )
