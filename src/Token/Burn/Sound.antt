-- ===== src/Token/Burn/Sound.antt =====
-- programs/compressed-token/src/burn.rs: as many tokens are burned as leave the pool.
use light_protocol.Prelude.{
  ℕ, ◌+◌, ◌≡◌, ◌⊎◌, inl, inr, refl, sym, ap, subst, arith, true, false, List, [], ◌∷◌, append-nil,
  Option, none, some, ok, err, panic, >>=-eq-ok, ok_injective, ok_or, ok_or-ok, set, ltb, ◌==◌,
  ==_iff, ◌||◌, if◌then◌else◌, Bool-cases,
}
use light_protocol.Prelude.Words.{sub, sub-ok, checked_sub, checked_sub-ok}
use light_protocol.System.Accounts.{
  CompressedProof, CompressedCpiContext, OutputCompressedAccountWithPackedContext,
  PackedCompressedAccountWithMerkleContext,
}
use light_protocol.System.SumCheck.Balance.{output_sum}
use light_protocol.Token.Data.{
  TokenEnv, TokenData, TokenResult, error_code, arithmetic_underflow, hash_to_field_error,
  invalid_delegate_index, hash_key,
}
use light_protocol.Token.Inputs.{
  DelegatedTransfer, Spent, get_input_compressed_accounts_with_merkle_context_and_check_signer,
  add_token_data_to_input_compressed_accounts,
}
use light_protocol.Token.Outputs.{
  Cpi, default_output, lamports_at, create_output_compressed_accounts,
  cpi_execute_compressed_transaction_transfer, instruction_data,
}
use light_protocol.Token.Holds.{OutputsHold, AllOf, amount_sum, get_input-AllRead}
use light_protocol.Token.Created.{
  output_tokens, output_tokens-AllOf, LamportsOf, create_output-AreCreated,
}
use light_protocol.Token.Backed.{IsSound, parts-IsSound, cpi-Sends}
use light_protocol.Token.Delegation.{Accounts, sum_amounts}
use light_protocol.Token.Delegation.Plans.{sum_amounts-ok, no_change_of}
use light_protocol.Token.Burn.{
  CompressedTokenInstructionDataBurn, BurnInstruction, ChangeOwner, burn_spl_from_pool_pda,
  change_owner, burn_outputs, create_input_and_output_accounts_burn, process_burn,
}

burn_spl-ok :
    (spl_burn : ℕ → ℕ → TokenResult ℕ) (before amount after : ℕ)
    → burn_spl_from_pool_pda spl_burn before amount ≡ ok after
    → after + amount ≡ before
unfolding burn_spl_from_pool_pda
burn_spl-ok spl_burn before amount after e =
    let (post, p, q) = >>=-eq-ok (spl_burn before amount) _ e in
    let (expected, p1, q1) = >>=-eq-ok (sub before amount) _ q in
    elim (Bool-cases (post == expected)) [
      | inl same ↦
          let result : post ≡ after = ok_injective (rw same at q1) in
          omega (arith, result, (==_iff post expected).0 same, sub-ok before amount p1)
      | inr other ↦ absurd (cc (rw other at q1))
    ]

change_owner-Marked :
    (delegated : Option DelegatedTransfer) (authority : ℕ) (change : ChangeOwner)
    → change_owner delegated authority ≡ ok change
    → (change.is_delegate ≡ none) ⊎ ((d : ℕ) × (change.delegate ≡ some d))
unfolding change_owner
change_owner-Marked none authority change e = inl (ap (λ c. c.is_delegate) (sym (ok_injective e)))
change_owner-Marked (some delegated) authority change e =
    by_index delegated.delegate_change_account_index e
  where
    by_index :
        (index : Option ℕ)
        → ◌≡◌ {A = TokenResult ChangeOwner}
            (elim index [
              | none ↦ err (error_code invalid_delegate_index)
              | some i ↦
                  if ltb i 1
                  then ok (record {
                    is_delegate = some (set (false ∷ []) i true);
                    owner = delegated.owner;
                    delegate = some authority;
                  })
                  else panic
            ])
            (ok change)
        → (change.is_delegate ≡ none) ⊎ ((d : ℕ) × (change.delegate ≡ some d))
    by_index none e = absurd (cc e)
    by_index (some i) e = elim (Bool-cases (ltb i 1)) [
      | inl fits ↦ inr (authority, ap (λ c. c.delegate) (sym (ok_injective (rw fits at e))))
      | inr out ↦ absurd (cc (rw out at e))
    ]

module _ (env : TokenEnv) (inputs : CompressedTokenInstructionDataBurn) (authority mint : ℕ)
    (hashed_mint : List ℕ) (hashed : hash_key env mint ≡ some hashed_mint) where
  -- the outputs hold the change, and the lamports of the inputs
  abbrev Leaves : ℕ → ℕ → List OutputCompressedAccountWithPackedContext → Type 0
  Leaves change_amount sum_lamports outputs =
      (created : List TokenData) × OutputsHold env outputs created
      × AllOf mint created
      × (amount_sum created ≡ change_amount)
      × (output_sum outputs ≡ sum_lamports)

  change-LamportsOf :
      (sum_lamports : ℕ) (outputs : List OutputCompressedAccountWithPackedContext)
      (token : TokenData)
      → OutputsHold env outputs (token ∷ [])
      → LamportsOf (if ltb 0 sum_lamports then some (some sum_lamports ∷ []) else none) 0 outputs
      → output_sum outputs ≡ sum_lamports
  unfolding lamports_at
  change-LamportsOf sum_lamports [] token h l = elim h [ ]
  change-LamportsOf sum_lamports (account ∷ []) token h (own, l) =
      elim (Bool-cases (ltb 0 sum_lamports)) [
        | inl something ↦
            let same : sum_lamports ≡ account.compressed_account.lamports =
              ok_injective (rw something at own) in
            omega (arith, same)
        | inr nothing ↦
            let same : 0 ≡ account.compressed_account.lamports = ok_injective (rw nothing at own) in
            ground arith
      ]
  change-LamportsOf sum_lamports (account ∷ (other ∷ outputs)) token h l = elim h.1 [ ]

  burn_outputs-Leaves :
      (change_amount sum_lamports : ℕ) (outputs : List OutputCompressedAccountWithPackedContext)
      → burn_outputs env inputs authority mint hashed_mint change_amount sum_lamports ≡ ok outputs
      → Leaves change_amount sum_lamports outputs
  unfolding burn_outputs
  burn_outputs-Leaves change_amount sum_lamports outputs e =
      by_change (Bool-cases (ltb 0 change_amount || ltb 0 sum_lamports))
    where
      by_change :
          ((ltb 0 change_amount || ltb 0 sum_lamports) ≡ true)
            ⊎ ((ltb 0 change_amount || ltb 0 sum_lamports) ≡ false)
          → Leaves change_amount sum_lamports outputs
      by_change (inl some_change) =
          let (change, p, q) =
            >>=-eq-ok (change_owner inputs.delegated_transfer authority) _ (rw some_change at e) in
          let lamports : Option (List (Option ℕ)) =
            if ltb 0 sum_lamports then some (some sum_lamports ∷ []) else none in
          let (written, p1, q1) =
            >>=-eq-ok
              (create_output_compressed_accounts env (default_output ∷ []) mint (change.owner ∷ [])
                change.delegate change.is_delegate (change_amount ∷ []) lamports hashed_mint
                (inputs.change_account_merkle_tree_index ∷ []))
              _ q in
          let (hold, total, bound, lamports_of) =
            create_output-AreCreated env mint change.delegate change.is_delegate hashed_mint
              lamports (inputs.change_account_merkle_tree_index ∷ []) (change.owner ∷ [])
              (change_amount ∷ []) (default_output ∷ []) written hashed
              (change_owner-Marked inputs.delegated_transfer authority change p) refl refl p1 in
          subst (Leaves change_amount sum_lamports) (ok_injective q1) (
            output_tokens mint change.delegate change.is_delegate 0 (change.owner ∷ [])
                (change_amount ∷ []),
            hold,
            output_tokens-AllOf mint change.delegate change.is_delegate 0 (change.owner ∷ [])
                (change_amount ∷ []),
            omega arith,
            change-LamportsOf sum_lamports written.0 _ hold lamports_of,
          )
      by_change (inr no_change) =
          let (no_amount, no_lamports) = no_change_of change_amount sum_lamports no_change in
          subst (Leaves change_amount sum_lamports) (ok_injective (rw no_change at e))
            ([], tt, tt, sym no_amount, sym no_lamports)

module _ (env : TokenEnv) (inputs : CompressedTokenInstructionDataBurn) (authority : ℕ)
    (remaining_accounts : List ℕ) (mint : ℕ) where
  abbrev SoundAccounts : Accounts → Type 0
  SoundAccounts accounts =
      (proof : Option CompressedProof) (cpi_context : Option CompressedCpiContext)
      → IsSound env mint (instruction_data accounts.inputs accounts.outputs proof cpi_context) 0
          inputs.burn_amount

  leaves-SoundAccounts :
      (hashed_mint : List ℕ) (spent : Spent) (change_amount : ℕ)
      (outputs : List OutputCompressedAccountWithPackedContext)
      (filled : List PackedCompressedAccountWithMerkleContext)
      → hash_key env mint ≡ some hashed_mint
      → get_input_compressed_accounts_with_merkle_context_and_check_signer false authority
          inputs.delegated_transfer remaining_accounts mint inputs.input_token_data_with_context
        ≡ ok spent
      → amount_sum spent.tokens ≡ change_amount + inputs.burn_amount
      → burn_outputs env inputs authority mint hashed_mint change_amount spent.sum_lamports
        ≡ ok outputs
      → add_token_data_to_input_compressed_accounts env false spent.accounts spent.tokens
          hashed_mint
        ≡ ok filled
      → SoundAccounts (record { inputs = filled; outputs = outputs })
  leaves-SoundAccounts hashed_mint spent change_amount outputs filled hashed got amounts made added
        proof cpi_context =
      let (shapes, lamports, bound, same_amounts) =
        get_input-AllRead false authority inputs.delegated_transfer remaining_accounts mint
          inputs.input_token_data_with_context spent got in
      let (created, hold, created_of, change, left) =
        burn_outputs-Leaves env inputs authority mint hashed_mint hashed change_amount
          spent.sum_lamports outputs made in
      subst
        (λ o. IsSound env mint (instruction_data filled o proof cpi_context) 0 inputs.burn_amount)
        (append-nil outputs)
        (parts-IsSound env false mint hashed_mint spent filled created outputs [] proof cpi_context
          0 inputs.burn_amount hashed shapes lamports bound added hold created_of tt
          (omega (arith, left)) (omega (arith, amounts, change)))

  burn-SoundAccounts :
      (accounts : Accounts)
      → create_input_and_output_accounts_burn env inputs authority remaining_accounts mint
        ≡ ok accounts
      → SoundAccounts accounts
  unfolding create_input_and_output_accounts_burn
  burn-SoundAccounts accounts e =
      let (spent, p, q) =
        >>=-eq-ok
          (get_input_compressed_accounts_with_merkle_context_and_check_signer false authority
            inputs.delegated_transfer remaining_accounts mint inputs.input_token_data_with_context)
          _ e in
      let (sum_inputs, p1, q1) = >>=-eq-ok (sum_amounts 0 spent.tokens) _ q in
      let (change_amount, p2, q2) =
        >>=-eq-ok
          (ok_or (checked_sub sum_inputs inputs.burn_amount) (error_code arithmetic_underflow)) _
          q1 in
      let (hashed_mint, p3, q3) =
        >>=-eq-ok (ok_or (hash_key env mint) (error_code hash_to_field_error)) _ q2 in
      let (outputs, p4, q4) =
        >>=-eq-ok
          (burn_outputs env inputs authority mint hashed_mint change_amount spent.sum_lamports) _
          q3 in
      let (filled, p5, q5) =
        >>=-eq-ok
          (add_token_data_to_input_compressed_accounts env false spent.accounts spent.tokens
            hashed_mint)
          _ q4 in
      let (le, amount) =
        checked_sub-ok sum_inputs inputs.burn_amount (error_code arithmetic_underflow) p2 in
      subst SoundAccounts (ok_injective q5) (
        leaves-SoundAccounts hashed_mint spent change_amount outputs filled
          (ok_or-ok (hash_key env mint) (error_code hash_to_field_error) p3) p
          (omega (arith, sum_amounts-ok 0 spent.tokens p1, le, amount)) p4 p5)

-- If `process_burn` returns, its call of the system program is sound in the sense of
-- `process_transfer-IsSound`, with the burnt amount as what leaves the mint's tokens, and the
-- balance of the token pool has fallen by this amount.
pub process_burn-IsSound :
    (env : TokenEnv) (spl_burn : ℕ → ℕ → TokenResult ℕ) (ctx : BurnInstruction)
    (inputs : CompressedTokenInstructionDataBurn) (burnt : ℕ × Cpi)
    → process_burn env spl_burn ctx inputs ≡ ok burnt
    → IsSound env ctx.mint burnt.1.instruction 0 inputs.burn_amount
      × (burnt.0 + inputs.burn_amount ≡ ctx.token_pool_balance)
unfolding process_burn
process_burn-IsSound env spl_burn ctx inputs burnt e =
    let (after, burned, q) =
      >>=-eq-ok (burn_spl_from_pool_pda spl_burn ctx.token_pool_balance inputs.burn_amount) _ e in
    let (accounts, created, q1) =
      >>=-eq-ok
        (create_input_and_output_accounts_burn env inputs ctx.authority ctx.remaining_accounts
          ctx.mint)
        _ q in
    let (cpi, sent, q2) =
      >>=-eq-ok
        (cpi_execute_compressed_transaction_transfer accounts.inputs accounts.outputs
          (some inputs.proof) inputs.cpi_context ctx.remaining_accounts)
        _ q1 in
    subst
      (λ b.
        IsSound env ctx.mint b.1.instruction 0 inputs.burn_amount
        × (b.0 + inputs.burn_amount ≡ ctx.token_pool_balance))
      (ok_injective q2)
      (
        cpi-Sends accounts.inputs accounts.outputs (some inputs.proof) inputs.cpi_context
            ctx.remaining_accounts cpi (λ call. IsSound env ctx.mint call 0 inputs.burn_amount) sent
            (burn-SoundAccounts env inputs ctx.authority ctx.remaining_accounts ctx.mint accounts
              created (some inputs.proof) inputs.cpi_context),
        burn_spl-ok spl_burn ctx.token_pool_balance inputs.burn_amount after burned,
      )
