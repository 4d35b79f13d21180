-- ===== src/Token/Mint/Bytes.antt =====
-- programs/compressed-token/src/process_mint.rs: the amount that is minted, and the borsh form of the
-- bytes that `mint_to` sends.
use light_protocol.Prelude.{
  ℕ, ◌+◌, ◌/◌, ◌%◌, ◌<◌, ◌≡◌, inl, inr, refl, sym, ap, ap₂, ◌∙◌, subst, arith, Bool, true, false,
  not, List, [], ◌∷◌, ◌++◌, Option, none, some, ok, >>=-eq-ok, ok_injective, guard, guard-ok,
  unwrap, unwrap-ok, ok_or, ok_or-ok, length, replicate, ◌==◌, ==_iff, if◌then◌else◌, Bool-cases,
  ltb,
}
use mathlib.Core.Option.{some-injective}
use light_protocol.Prelude.Bytes.{to_le_bytes}
use light_protocol.Prelude.Words.{add, add-ok, checked_add, word}
use light_protocol.System.Accounts.{
  CompressedProof, CompressedCpiContext, NewAddressParamsPacked, InstructionDataInvokeCpi,
  PackedCompressedAccountWithMerkleContext, OutputCompressedAccountWithPackedContext,
}
use light_protocol.System.SumCheck.Balance.{output_sum}
use light_protocol.Token.Data.{TokenResult, error_code, mint_too_large, spl_token_supply_mismatch}
use light_protocol.Token.Outputs.{get_cpi_signer_seeds}
use light_protocol.Token.Holds.{sum}
use light_protocol.Token.Mint.{
  mint_amount, mint_spl_to_pool_pda, compression_bytes, serialize_outputs,
  serialize_mint_to_cpi_instruction_data,
}

-- The borsh forms of the parts of the system program's instruction.
pub record Borsh : Type 0 where
  pub proof : CompressedProof → List ℕ
  pub new_address_params : NewAddressParamsPacked → List ℕ
  pub input_account : PackedCompressedAccountWithMerkleContext → List ℕ
  pub output_account : OutputCompressedAccountWithPackedContext → List ℕ
  pub seeds : List (List ℕ) → List ℕ
  pub cpi_context : CompressedCpiContext → List ℕ

-- options, numbers, flags and vectors in borsh
abbrev pub borsh_option : {A : Type 0} → (A → List ℕ) → Option A → List ℕ
borsh_option form none = 0 ∷ []
borsh_option form (some a) = 1 ∷ form a

abbrev pub borsh_bool : Bool → List ℕ
borsh_bool false = 0 ∷ []
borsh_bool true = 1 ∷ []

abbrev pub borsh_all : {A : Type 0} → (A → List ℕ) → List A → List ℕ
borsh_all form [] = []
borsh_all form (x ∷ xs) = form x ++ borsh_all form xs

abbrev pub borsh_vec : {A : Type 0} → (A → List ℕ) → List A → List ℕ
unfolding to_le_bytes
borsh_vec form xs = to_le_bytes 4 (length xs) ++ borsh_all form xs

-- the borsh form of the instruction
abbrev pub encode : Borsh → InstructionDataInvokeCpi → List ℕ
encode b call =
    borsh_option b.proof call.proof
    ++ (borsh_vec b.new_address_params call.new_address_params
        ++ (borsh_vec b.input_account call.input_compressed_accounts_with_merkle_context
            ++ (borsh_vec b.output_account call.output_compressed_accounts
                ++ (borsh_option (to_le_bytes 8) call.relay_fee
                    ++ (borsh_option (to_le_bytes 8) call.compress_or_decompress_lamports
                        ++ (borsh_bool call.is_compress
                            ++ (b.seeds call.signer_seeds
                                ++ borsh_option b.cpi_context call.cpi_context)))))))

-- the call of a mint with these outputs
abbrev pub mint_call : List OutputCompressedAccountWithPackedContext → ℕ → InstructionDataInvokeCpi
mint_call outputs sum_lamports = record {
  proof = none;
  new_address_params = [];
  input_compressed_accounts_with_merkle_context = [];
  output_compressed_accounts = outputs;
  relay_fee = none;
  compress_or_decompress_lamports = if sum_lamports == 0 then none else some sum_lamports;
  is_compress = not (sum_lamports == 0);
  signer_seeds = get_cpi_signer_seeds;
  cpi_context = none;
}

-- a length that fits in a byte
small_length : (n : ℕ) → n < 256 → to_le_bytes 4 n ≡ (n % 256) ∷ (0 ∷ (0 ∷ (0 ∷ [])))
unfolding to_le_bytes
small_length n lt = let zero_is : n / 256 ≡ 0 = omega (arith, lt) in rw zero_is refl

pub checked_add-fits : (m n r : ℕ) → checked_add m n ≡ some r → (m + n ≡ r) × (r < word)
checked_add-fits m n r e = elim (Bool-cases (ltb (m + n) word)) [
  | inl fits ↦
      let same : m + n ≡ r = some-injective (m + n) r (rw fits at e) in (same, ground arith)
  | inr over ↦ absurd (cc (rw over at e))
]

mint_amount-sum :
    (start minted : ℕ) (amounts : List ℕ)
    → mint_amount start amounts ≡ ok minted
    → start + sum amounts ≡ minted
unfolding mint_amount
mint_amount-sum start minted [] e =
    let same : start ≡ minted = ok_injective e in omega (arith, same)
mint_amount-sum start minted (amount ∷ amounts) e =
    let (next, p, q) =
      >>=-eq-ok (ok_or (checked_add start amount) (error_code mint_too_large)) _ e in
    let (added, fits) =
      checked_add-fits start amount next
        (ok_or-ok (checked_add start amount) (error_code mint_too_large) p) in
    omega (arith, added, mint_amount-sum next minted amounts q)

-- the pool holds what is minted
pub mint_spl-sum :
    (spl_mint : ℕ → ℕ → TokenResult ℕ) (before after : ℕ) (amounts : List ℕ)
    → mint_spl_to_pool_pda spl_mint before amounts ≡ ok after
    → before + sum amounts ≡ after
unfolding mint_spl_to_pool_pda
mint_spl-sum spl_mint before after amounts e =
    let (minted, p, q) = >>=-eq-ok (mint_amount 0 amounts) _ e in
    let (post, p1, q1) = >>=-eq-ok (spl_mint before minted) _ q in
    let (expected, p2, q2) = >>=-eq-ok (add before minted) _ q1 in
    let (u, p3, q3) =
      >>=-eq-ok (guard (post == expected) (error_code spl_token_supply_mismatch)) _ q2 in
    let same : post ≡ expected =
      (==_iff post expected).0
        (guard-ok (post == expected) (error_code spl_token_supply_mismatch) p3) in
    let result : post ≡ after = ok_injective q3 in
    let (added, fits) = add-ok before minted p2 in
    omega (arith, same, result, added, mint_amount-sum 0 minted amounts p)

module _ (b : Borsh) where
  serialize_outputs-eq :
      (start : ℕ) (outputs : List OutputCompressedAccountWithPackedContext) (written : List ℕ × ℕ)
      → serialize_outputs b.output_account b.seeds start outputs ≡ ok written
      → start < word
      → (written.0 ≡ borsh_all b.output_account outputs)
        × (start + output_sum outputs ≡ written.1)
        × (written.1 < word)
  unfolding serialize_outputs
  serialize_outputs-eq start [] written e lt =
      subst (λ w. (w.0 ≡ []) × (start + 0 ≡ w.1) × (w.1 < word)) (ok_injective e)
        (refl, omega arith, lt)
  serialize_outputs-eq start (account ∷ outputs) written e lt =
      let (total, p, q) =
        >>=-eq-ok (unwrap (checked_add start account.compressed_account.lamports)) _ e in
      let (rest, p1, q1) =
        >>=-eq-ok (serialize_outputs b.output_account b.seeds total outputs) _ q in
      let (added, fits) =
        checked_add-fits start account.compressed_account.lamports total
          (unwrap-ok (checked_add start account.compressed_account.lamports) p) in
      let (bytes, sums, bound) = serialize_outputs-eq total outputs rest p1 fits in
      subst
        (λ w.
          (w.0 ≡ borsh_all b.output_account (account ∷ outputs))
          × (start + output_sum (account ∷ outputs) ≡ w.1)
          × (w.1 < word))
        (ok_injective q1)
        (ap (λ bs. b.output_account account ++ bs) bytes, omega (arith, added, sums), bound)

  compression_bytes-eq :
      (n : ℕ) (rest : List ℕ)
      → compression_bytes n ++ rest
        ≡ borsh_option (to_le_bytes 8) (if n == 0 then none else some n)
          ++ (borsh_bool (not (n == 0)) ++ rest)
  unfolding compression_bytes to_le_bytes
  compression_bytes-eq n rest = elim (Bool-cases (n == 0)) [
    | inl nothing ↦ rw nothing refl
    | inr something ↦ rw something refl
  ]

  -- the bytes are the borsh form of the call
  pub serialize-encode :
      (outputs : List OutputCompressedAccountWithPackedContext) (bytes : List ℕ)
      → serialize_mint_to_cpi_instruction_data b.output_account b.seeds outputs get_cpi_signer_seeds
        ≡ ok bytes
      → length outputs < 256
      → bytes ≡ encode b (mint_call outputs (output_sum outputs))
  unfolding serialize_mint_to_cpi_instruction_data to_le_bytes
  serialize-encode outputs bytes e small =
      let (written, p, q) = >>=-eq-ok (serialize_outputs b.output_account b.seeds 0 outputs) _ e in
      let (accounts, sums, bound) = serialize_outputs-eq 0 outputs written p (omega arith) in
      let total : written.1 ≡ output_sum outputs = omega (arith, sums) in
      let seeds_and_rest = b.seeds get_cpi_signer_seeds ++ (0 ∷ []) in
      let size = (length outputs % 256) ∷ (0 ∷ (0 ∷ (0 ∷ []))) in
      sym (ok_injective q)
      ∙ ap₂
          (λ a n.
            0 ∷ (replicate 8 0 ++ (size ++ (a ++ (0 ∷ (compression_bytes n ++ seeds_and_rest))))))
          accounts total
      ∙ ap (λ c. 0 ∷ (replicate 8 0 ++ (size ++ (borsh_all b.output_account outputs ++ (0 ∷ c)))))
          (compression_bytes-eq (output_sum outputs) seeds_and_rest)
      ∙ ap
          (λ l.
            0
            ∷ (replicate 8 0
                ++ (l
                    ++ (borsh_all b.output_account outputs
                        ++ (0
                            ∷ (borsh_option (to_le_bytes 8) (
                                  if output_sum outputs == 0
                                  then none
                                  else some (output_sum outputs))
                                ++ (borsh_bool (not (output_sum outputs == 0))
                                    ++ seeds_and_rest)))))))
          (sym (small_length (length outputs) small))
