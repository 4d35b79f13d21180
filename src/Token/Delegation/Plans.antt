-- ===== src/Token/Delegation/Plans.antt =====
-- programs/compressed-token/src/delegation.rs: the accounts that are made from a plan, and their
-- lamports.
use light_protocol.Prelude.{
  ℕ, ◌+◌, ◌≡◌, ◌⊎◌, inl, inr, sym, subst, arith, false, List, [], ◌∷◌, append-nil, map, Option,
  none, some, ok, >>=-eq-ok, ok_injective, length, length-map, ltb, ◌==◌, ◌||◌, if◌then◌else◌,
  Bool-cases,
}
use light_protocol.Prelude.Words.{add, add-ok}
use light_protocol.System.Accounts.{
  CompressedProof, CompressedCpiContext, PackedCompressedAccountWithMerkleContext,
  OutputCompressedAccountWithPackedContext,
}
use light_protocol.System.SumCheck.Balance.{output_sum}
use light_protocol.Token.Data.{TokenEnv, TokenData, hash_key}
use light_protocol.Token.Inputs.{
  InputTokenDataWithContext, Spent, or_zero,
  get_input_compressed_accounts_with_merkle_context_and_check_signer,
  add_token_data_to_input_compressed_accounts,
}
use light_protocol.Token.Outputs.{
  default_output, lamports_at, create_output_compressed_accounts, instruction_data,
}
use light_protocol.Token.Holds.{OutputsHold, amount_sum, get_input-AllRead}
use light_protocol.Token.Created.{
  output_tokens, output_tokens-AllOf, LamportsOf, create_output-AreCreated,
}
use light_protocol.Token.Backed.{IsSound, parts-IsSound}
use light_protocol.Token.Delegation.{
  OutputPlan, Accounts, sum_amounts, non_zero, lamports_if, create_accounts,
}

pub sum_amounts-ok :
    (start : ℕ) (tokens : List TokenData) {r : ℕ}
    → sum_amounts start tokens ≡ ok r
    → start + amount_sum tokens ≡ r
unfolding sum_amounts
sum_amounts-ok start [] {r} e = let same : start ≡ r = ok_injective e in omega arith
sum_amounts-ok start (token ∷ tokens) e =
    let (next, p, q) = >>=-eq-ok (add start token.amount) _ e in
    omega (arith, sum_amounts-ok next tokens q, add-ok start token.amount p)

-- an option of lamports at the only place of a list, or at the first and second of two
pub one_lamport :
    (sum_lamports : ℕ) (accounts : List OutputCompressedAccountWithPackedContext)
    (token : TokenData) (env : TokenEnv)
    → OutputsHold env accounts (token ∷ [])
    → LamportsOf (lamports_if sum_lamports (some sum_lamports ∷ [])) 0 accounts
    → output_sum accounts ≡ sum_lamports
unfolding lamports_at
one_lamport sum_lamports [] token env h l = elim h [ ]
one_lamport sum_lamports (account ∷ []) token env h (own, l) =
    elim (Bool-cases (sum_lamports == 0)) [
      | inl nothing ↦
          let same : 0 ≡ account.compressed_account.lamports = ok_injective (rw nothing at own) in
          ground arith
      | inr something ↦
          let same : sum_lamports ≡ account.compressed_account.lamports =
            ok_injective (rw something at own) in
          ground arith
    ]
one_lamport sum_lamports (account ∷ (other ∷ accounts)) token env h l = elim h.1 [ ]

pub first_lamports :
    (s own : ℕ) (delegate_lamports change : Option ℕ)
    → lamports_at (lamports_if s (delegate_lamports ∷ (change ∷ []))) 0 ≡ ok own
    → own ≡ (if s == 0 then 0 else or_zero delegate_lamports)
unfolding lamports_at
first_lamports s own delegate_lamports change e = elim (Bool-cases (s == 0)) [
  | inl nothing ↦ rw nothing (sym (ok_injective (rw nothing at e)))
  | inr something ↦ rw something (sym (ok_injective (rw something at e)))
]

pub second_lamports :
    (s own change : ℕ) (delegate_lamports : Option ℕ)
    → lamports_at (lamports_if s (delegate_lamports ∷ (non_zero change ∷ []))) (0 + 1) ≡ ok own
    → own ≡ (if s == 0 then 0 else change)
unfolding lamports_at
second_lamports s own change delegate_lamports e = elim (Bool-cases (s == 0)) [
  | inl nothing ↦ rw nothing (sym (ok_injective (rw nothing at e)))
  | inr something ↦ elim (Bool-cases (change == 0)) [
    | inl none_left ↦
        let same : 0 ≡ own = ok_injective (rw (something, none_left) at e) in
        rw something (ground arith)
    | inr some_left ↦
        let same : change ≡ own = ok_injective (rw (something, some_left) at e) in
        rw something (ground arith)
  ]
]

pub two_lamports :
    (s change : ℕ) (delegate_lamports : Option ℕ)
    (accounts : List OutputCompressedAccountWithPackedContext) (t u : TokenData) (env : TokenEnv)
    → or_zero delegate_lamports + change ≡ s
    → OutputsHold env accounts (t ∷ (u ∷ []))
    → LamportsOf (lamports_if s (delegate_lamports ∷ (non_zero change ∷ []))) 0 accounts
    → output_sum accounts ≡ s
two_lamports s change delegate_lamports [] t u env total h l = elim h [ ]
two_lamports s change delegate_lamports (a ∷ []) t u env total h l = elim h.1 [ ]
two_lamports s change delegate_lamports (a ∷ (b ∷ [])) t u env total h (first, (second, l)) =
    let p =
      first_lamports s a.compressed_account.lamports delegate_lamports (non_zero change) first in
    let q = second_lamports s b.compressed_account.lamports change delegate_lamports second in
    elim (Bool-cases (s == 0)) [
      | inl nothing ↦ rw (p, q, nothing) (ground arith)
      | inr something ↦ rw (p, q, something) (omega (arith, total))
    ]
two_lamports s change delegate_lamports (a ∷ (b ∷ (c ∷ accounts))) t u env total h l =
    elim h.1.1 [ ]

pub only_lamports :
    (s change : ℕ) (delegate_lamports : Option ℕ)
    (accounts : List OutputCompressedAccountWithPackedContext) (t : TokenData) (env : TokenEnv)
    → or_zero delegate_lamports + change ≡ s
    → change ≡ 0
    → OutputsHold env accounts (t ∷ [])
    → LamportsOf (lamports_if s (delegate_lamports ∷ (non_zero change ∷ []))) 0 accounts
    → output_sum accounts ≡ s
only_lamports s change delegate_lamports [] t env total no_change h l = elim h [ ]
only_lamports s change delegate_lamports (a ∷ []) t env total no_change h (first, l) =
    let p =
      first_lamports s a.compressed_account.lamports delegate_lamports (non_zero change) first in
    elim (Bool-cases (s == 0)) [
      | inl nothing ↦ rw (p, nothing) (ground arith)
      | inr something ↦ rw (p, something) (omega (arith, total, no_change))
    ]
only_lamports s change delegate_lamports (a ∷ (b ∷ accounts)) t env total no_change h l =
    elim h.1 [ ]

module _ (env : TokenEnv) (mint : ℕ) (hashed_mint : List ℕ) (spent : Spent)
    (mint_hashed : hash_key env mint ≡ some hashed_mint) (signer : ℕ) (remaining_accounts : List ℕ)
    (inputs : List InputTokenDataWithContext)
    (got : get_input_compressed_accounts_with_merkle_context_and_check_signer false signer none
        remaining_accounts mint inputs
      ≡ ok spent) where
  -- What an instruction that follows a plan has done.
  abbrev pub Follows : Option ℕ → OutputPlan → Accounts → Type 0
  Follows delegate plan accounts =
      ((proof : Option CompressedProof) (cpi_context : Option CompressedCpiContext)
        → IsSound env mint (instruction_data accounts.inputs accounts.outputs proof cpi_context) 0
            0)
      × OutputsHold env accounts.outputs
          (output_tokens mint delegate plan.is_delegate 0 plan.pubkeys plan.amounts)

  pub create_accounts-Follows :
      (delegate : Option ℕ) (plan : OutputPlan) (accounts : Accounts)
      → length plan.pubkeys ≡ length plan.amounts
      → (plan.is_delegate ≡ none) ⊎ ((d : ℕ) × (delegate ≡ some d))
      → ((outputs : List OutputCompressedAccountWithPackedContext)
          → OutputsHold env outputs
              (output_tokens mint delegate plan.is_delegate 0 plan.pubkeys plan.amounts)
          → LamportsOf plan.lamports 0 outputs
          → output_sum outputs ≡ spent.sum_lamports)
      → amount_sum spent.tokens
        ≡ amount_sum (output_tokens mint delegate plan.is_delegate 0 plan.pubkeys plan.amounts)
      → create_accounts env spent mint delegate plan hashed_mint ≡ ok accounts
      → Follows delegate plan accounts
  unfolding create_accounts
  create_accounts-Follows delegate plan accounts sizes marked lamports_right balance e =
      let (written, p, q) =
        >>=-eq-ok
          (create_output_compressed_accounts env (map (λ owner. default_output) plan.pubkeys) mint
            plan.pubkeys delegate plan.is_delegate plan.amounts plan.lamports hashed_mint
            plan.merkle_tree_indices)
          _ e in
      let (filled, p1, q1) =
        >>=-eq-ok
          (add_token_data_to_input_compressed_accounts env false spent.accounts spent.tokens
            hashed_mint)
          _ q in
      subst (Follows delegate plan) (ok_injective q1) (follow written filled p p1)
    where
      follow :
          (written : List OutputCompressedAccountWithPackedContext × ℕ)
          (filled : List PackedCompressedAccountWithMerkleContext)
          → create_output_compressed_accounts env
              (map (λ owner. default_output) plan.pubkeys)
              mint
              plan.pubkeys
              delegate
              plan.is_delegate
              plan.amounts
              plan.lamports
              hashed_mint
              plan.merkle_tree_indices
            ≡ ok written
          → add_token_data_to_input_compressed_accounts env false spent.accounts spent.tokens
              hashed_mint
            ≡ ok filled
          → Follows delegate plan (record { inputs = filled; outputs = written.0 })
      follow written filled p p1 =
          let (shapes, lamports, bound, amounts) =
            get_input-AllRead false signer none remaining_accounts mint inputs spent got in
          let (hold, total, total_bound, lamports_of) =
            create_output-AreCreated env mint delegate plan.is_delegate hashed_mint plan.lamports
              plan.merkle_tree_indices plan.pubkeys plan.amounts
              (map (λ owner. default_output) plan.pubkeys) written mint_hashed marked sizes
              (sym (length-map (λ owner. default_output) plan.pubkeys)) p in
          (
            λ proof cpi_context.
                subst (λ o. IsSound env mint (instruction_data filled o proof cpi_context) 0 0)
                  (append-nil written.0)
                  (parts-IsSound env false mint hashed_mint spent filled
                    (output_tokens mint delegate plan.is_delegate 0 plan.pubkeys plan.amounts)
                    written.0 [] proof cpi_context 0 0 mint_hashed shapes lamports bound p1 hold
                    (output_tokens-AllOf mint delegate plan.is_delegate 0 plan.pubkeys plan.amounts)
                    tt (omega (arith, lamports_right written.0 hold lamports_of))
                    (omega (arith, balance))),
            hold,
          )

pub no_change_of :
    (amount lamports : ℕ) → (ltb 0 amount || ltb 0 lamports) ≡ false → (amount ≡ 0) × (lamports ≡ 0)
no_change_of amount lamports e = ground arith
