-- ===== src/Token/Mint/Sound.antt =====
-- programs/compressed-token/src/process_mint.rs: the bytes that `mint_to` sends are the borsh form of a
-- call that creates as many tokens as are minted into the pool.
use light_protocol.Prelude.{
  ℕ, ◌+◌, ◌<◌, ◌≡◌, inl, inr, refl, sym, ap, ◌∙◌, ◌≤◌, subst, arith, not, List, [], ◌∷◌, append-nil,
  Option, none, some, ok, >>=-eq-ok, ok_injective, guard, guard-ok, unwrap, unwrap-ok, length,
  length-replicate, replicate, ◌==◌, ==_iff, if◌then◌else◌, Bool-cases,
}
use light_protocol.Prelude.Words.{word}
use light_protocol.System.Accounts.{
  InstructionDataInvokeCpi, OutputCompressedAccountWithPackedContext,
}
use light_protocol.System.SumCheck.Balance.{
  compressed, decompressed, output_sum, sum_check_complete,
}
use light_protocol.Token.Data.{
  TokenEnv, TokenResult, error_code, public_key_amount_missmatch, no_inputs_provided,
  heap_memory_check_failed, invalid_authority_mint, hash_key,
}
use light_protocol.Token.Outputs.{
  default_output, create_output_compressed_accounts, get_cpi_signer_seeds,
}
use light_protocol.Token.Holds.{OutputsHold, sum}
use light_protocol.Token.Created.{
  output_tokens, amount_sum-output_tokens, output_tokens-AllOf, create_output-AreCreated,
}
use light_protocol.Token.Backed.{IsSound, PassesSumCheck}
use light_protocol.Token.Mint.{
  MintToInstruction, check_mint_authority, mint_spl_to_pool_pda, lamports_vec,
  serialize_mint_to_cpi_instruction_data, inputs_len, process_mint_to,
}
use light_protocol.Token.Mint.Bytes.{Borsh, encode, mint_call, mint_spl-sum, serialize-encode}

mint-PassesSumCheck :
    (outputs : List OutputCompressedAccountWithPackedContext)
    → output_sum outputs < word
    → PassesSumCheck (mint_call outputs (output_sum outputs))
mint-PassesSumCheck outputs fits =
    sum_check_complete [] outputs none
      (if output_sum outputs == 0 then none else some (output_sum outputs))
      (not (output_sum outputs == 0)) tt (within (output_sum outputs) fits)
      (none_out (output_sum outputs)) (balanced (output_sum outputs))
  where
    within :
        (n : ℕ) → n < word → 0 + compressed (if n == 0 then none else some n) (not (n == 0)) < word
    within n lt = elim (Bool-cases (n == 0)) [
      | inl nothing ↦ rw nothing (omega arith)
      | inr something ↦ rw something (omega (arith, lt))
    ]

    none_out : (n : ℕ) → decompressed (if n == 0 then none else some n) (not (n == 0)) ≤ 0
    none_out n = elim (Bool-cases (n == 0)) [
      | inl nothing ↦ rw nothing (omega arith)
      | inr something ↦ rw something (omega arith)
    ]

    balanced :
        (n : ℕ)
        → 0 + compressed (if n == 0 then none else some n) (not (n == 0))
          ≡ n + decompressed (if n == 0 then none else some n) (not (n == 0)) + 0
    balanced n = elim (Bool-cases (n == 0)) [
      | inl nothing ↦
          let zero_is : n ≡ 0 = (==_iff n 0).0 nothing in rw nothing (omega (arith, zero_is))
      | inr something ↦ rw something (omega arith)
    ]

module _ (b : Borsh) (env : TokenEnv) (spl_mint : ℕ → ℕ → TokenResult ℕ) (ctx : MintToInstruction)
    (recipient_pubkeys amounts : List ℕ) (lamports : Option ℕ) where
  -- the bytes are those of a sound call that gives the recipients their amounts
  abbrev pub Mints : ℕ × List ℕ → Type 0
  Mints minted =
      (ctx.mint_authority ≡ some ctx.authority)
      × (ctx.token_pool_balance + sum amounts ≡ minted.0)
      × ((call : InstructionDataInvokeCpi) × (minted.1 ≡ encode b call)
          × IsSound env ctx.mint call (sum amounts) 0
          × OutputsHold env call.output_compressed_accounts
              (output_tokens ctx.mint none none 0 recipient_pubkeys amounts))

  -- If `process_mint_to` returns for fewer than 256 recipients, the authority is the
  -- authority of the mint, the balance of the token pool has risen by the sum of the amounts,
  -- and the bytes that are sent are the borsh form of a call of the system program that is
  -- sound, in the sense of `process_transfer-IsSound`, with the sum of the amounts as what
  -- comes into the pool. The outputs of the call hold the amounts for the recipients, in
  -- order.
  pub process_mint_to-Mints :
      (minted : ℕ × List ℕ)
      → process_mint_to b.output_account b.seeds env spl_mint ctx recipient_pubkeys amounts lamports
        ≡ ok minted
      → length recipient_pubkeys < 256
      → Mints minted
  unfolding process_mint_to check_mint_authority
  process_mint_to-Mints minted e small =
      let (u, p, q) = >>=-eq-ok (check_mint_authority ctx) _ e in
      let (mint_authority, p1, q1) = >>=-eq-ok (unwrap ctx.mint_authority) _ p in
      let same_length = length recipient_pubkeys == length amounts in
      let (u2, p2, q2) =
        >>=-eq-ok (guard same_length (error_code public_key_amount_missmatch)) _ q in
      let (u3, p3, q3) =
        >>=-eq-ok (guard (not (length recipient_pubkeys == 0)) (error_code no_inputs_provided)) _
          q2 in
      let (balance, p4, q4) =
        >>=-eq-ok (mint_spl_to_pool_pda spl_mint ctx.token_pool_balance amounts) _ q3 in
      let (hashed_mint, p5, q5) = >>=-eq-ok (unwrap (hash_key env ctx.mint)) _ q4 in
      let (written, p6, q6) =
        >>=-eq-ok
          (create_output_compressed_accounts env
            (replicate (length recipient_pubkeys) default_output) ctx.mint recipient_pubkeys none
            none amounts (lamports_vec lamports (length amounts)) hashed_mint
            (replicate (length amounts) 0))
          _ q5 in
      let (bytes, p7, q7) =
        >>=-eq-ok
          (serialize_mint_to_cpi_instruction_data b.output_account b.seeds written.0
            get_cpi_signer_seeds)
          _ q6 in
      let test = length bytes == inputs_len (length amounts) lamports in
      let (u8, p8, q8) = >>=-eq-ok (guard test (error_code heap_memory_check_failed)) _ q7 in
      let authority : mint_authority ≡ ctx.authority =
        (==_iff mint_authority ctx.authority).0
          (guard-ok (mint_authority == ctx.authority) (error_code invalid_authority_mint) q1) in
      let sizes : length recipient_pubkeys ≡ length amounts =
        (==_iff (length recipient_pubkeys) (length amounts)).0
          (guard-ok same_length (error_code public_key_amount_missmatch) p2) in
      subst Mints (ok_injective q8) (
        unwrap-ok ctx.mint_authority p1 ∙ ap some authority,
        mint_spl-sum spl_mint ctx.token_pool_balance balance amounts p4,
        sent hashed_mint written bytes (unwrap-ok (hash_key env ctx.mint) p5) sizes p6 p7,
      )
    where
      sent :
          (hashed_mint : List ℕ) (written : List OutputCompressedAccountWithPackedContext × ℕ)
          (bytes : List ℕ)
          → hash_key env ctx.mint ≡ some hashed_mint
          → length recipient_pubkeys ≡ length amounts
          → create_output_compressed_accounts env
              (replicate (length recipient_pubkeys) default_output)
              ctx.mint
              recipient_pubkeys
              none
              none
              amounts
              (lamports_vec lamports (length amounts))
              hashed_mint
              (replicate (length amounts) 0)
            ≡ ok written
          → serialize_mint_to_cpi_instruction_data b.output_account b.seeds written.0
              get_cpi_signer_seeds
            ≡ ok bytes
          → (call : InstructionDataInvokeCpi) × (bytes ≡ encode b call)
            × IsSound env ctx.mint call (sum amounts) 0
            × OutputsHold env call.output_compressed_accounts
                (output_tokens ctx.mint none none 0 recipient_pubkeys amounts)
      sent hashed_mint written bytes hashed sizes created serialized =
          let (hold, total, bound, lamports_of) =
            create_output-AreCreated env ctx.mint none none hashed_mint
              (lamports_vec lamports (length amounts)) (replicate (length amounts) 0)
              recipient_pubkeys amounts (replicate (length recipient_pubkeys) default_output)
              written hashed (inl refl) sizes
              (sym (length-replicate (length recipient_pubkeys) default_output)) created in
          let count : length written.0 < 256 =
            omega (arith, small, length_held written.0 recipient_pubkeys amounts 0 hold) in
          (
            mint_call written.0 (output_sum written.0),
            serialize-encode b written.0 bytes serialized count,
            (
              record {
                spent = [];
                created = output_tokens ctx.mint none none 0 recipient_pubkeys amounts;
                inputs_hold = tt;
                holding = written.0;
                rest = [];
                outputs_are = sym (append-nil written.0);
                outputs_hold = hold;
                rest_bare = tt;
                spent_of = tt;
                created_of = output_tokens-AllOf ctx.mint none none 0 recipient_pubkeys amounts;
                balance = omega (
                  arith,
                  amount_sum-output_tokens ctx.mint none none 0 recipient_pubkeys amounts sizes,
                );
              },
              mint-PassesSumCheck written.0 (omega (arith, total, bound)),
            ),
            hold,
          )
        where
          length_held :
              (accounts : List OutputCompressedAccountWithPackedContext) (owners amounts : List ℕ)
              (i : ℕ)
              → OutputsHold env accounts (output_tokens ctx.mint none none i owners amounts)
              → length accounts ≤ length owners
          length_held [] owners amounts i h = omega arith
          length_held (account ∷ accounts) [] amounts i h = elim h [ ]
          length_held (account ∷ accounts) (owner ∷ owners) [] i h = elim h [ ]
          length_held (account ∷ accounts) (owner ∷ owners) (amount ∷ amounts) i h =
              omega (arith, length_held accounts owners amounts (i + 1) h.1)
