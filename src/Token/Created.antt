-- ===== src/Token/Created.antt =====
-- programs/compressed-token/src/process_transfer.rs: the tokens that the output accounts hold.
use light_protocol.Prelude.{
  ℕ, ◌+◌, ◌<◌, ◌≡◌, ◌⊎◌, inl, inr, refl, sym, ap, ◌∙◌, arith, Bool, true, false, List, [], ◌∷◌,
  Option, none, some, ok, >>=-eq-ok, ok_injective, unwrap-ok, unwrap, get_elem?, length, subst,
}
use light_protocol.Prelude.Bytes.{to_le_bytes}
use light_protocol.Prelude.Words.{add, add-ok, word}
use light_protocol.System.Accounts.{CompressedAccount, OutputCompressedAccountWithPackedContext}
use light_protocol.System.SumCheck.Balance.{output_sum}
use light_protocol.Token.Data.{
  TokenEnv, TokenData, TokenResult, initialized, id, token_compressed_account_discriminator,
  hash_key, hash_delegate, hash_inputs_with_hashed_values,
}
use light_protocol.Token.Outputs.{
  is_delegate_at, lamports_at, delegate_if, hash_delegate_store, output_account, output_loop,
  create_output_compressed_accounts,
}
use light_protocol.Token.Holds.{IsTokenAccount, OutputsHold, amount_sum, sum, AllOf, hash_of}

-- whether the account with index `i` is delegated
abbrev pub flag : Option (List Bool) → ℕ → Bool
flag none i = false
flag (some is_delegate) i = elim (get_elem? is_delegate i) [
  | none ↦ false
  | some delegated ↦ delegated
]

module _ (mint : ℕ) (delegate : Option ℕ) (is_delegate : Option (List Bool)) where
  abbrev pub output_token : ℕ → ℕ → ℕ → TokenData
  output_token i owner amount = record {
    mint = mint;
    owner = owner;
    amount = amount;
    delegate = delegate_if (flag is_delegate i) delegate;
    state = initialized;
    tlv = none;
  }

  -- the tokens of owners and amounts, from index `i` on
  abbrev pub output_tokens : ℕ → List ℕ → List ℕ → List TokenData
  output_tokens i [] amounts = []
  output_tokens i (owner ∷ owners) [] = []
  output_tokens i (owner ∷ owners) (amount ∷ amounts) =
      output_token i owner amount ∷ output_tokens (i + 1) owners amounts

  pub amount_sum-output_tokens :
      (i : ℕ) (owners amounts : List ℕ)
      → length owners ≡ length amounts
      → amount_sum (output_tokens i owners amounts) ≡ sum amounts
  amount_sum-output_tokens i [] [] e = refl
  amount_sum-output_tokens i [] (amount ∷ amounts) e = absurd (omega arith)
  amount_sum-output_tokens i (owner ∷ owners) [] e = absurd (omega arith)
  amount_sum-output_tokens i (owner ∷ owners) (amount ∷ amounts) e =
      omega (arith, amount_sum-output_tokens (i + 1) owners amounts (omega arith))

  pub output_tokens-AllOf :
      (i : ℕ) (owners amounts : List ℕ) → AllOf mint (output_tokens i owners amounts)
  output_tokens-AllOf i [] amounts = tt
  output_tokens-AllOf i (owner ∷ owners) [] = tt
  output_tokens-AllOf i (owner ∷ owners) (amount ∷ amounts) =
      (refl, output_tokens-AllOf (i + 1) owners amounts)

-- the lamports of the accounts, from index `i` on, are those that the list gives
abbrev pub LamportsOf :
    Option (List (Option ℕ)) → ℕ → List OutputCompressedAccountWithPackedContext → Type 0
LamportsOf lamports i [] = Unit {0}
LamportsOf lamports i (account ∷ accounts) =
    (lamports_at lamports i ≡ ok account.compressed_account.lamports)
    × LamportsOf lamports (i + 1) accounts

module _ (env : TokenEnv) (mint : ℕ) (delegate : Option ℕ) (is_delegate : Option (List Bool))
    (lamports : Option (List (Option ℕ))) where
  -- the accounts hold the tokens of the owners and amounts, and the sum of their lamports is right
  abbrev pub AreCreated :
      ℕ → List ℕ → List ℕ → ℕ → List OutputCompressedAccountWithPackedContext × ℕ → Type 0
  AreCreated i owners amounts sum_lamports (accounts, total) =
      OutputsHold env accounts (output_tokens mint delegate is_delegate i owners amounts)
      × (sum_lamports + output_sum accounts ≡ total)
      × (total < word)
      × LamportsOf lamports i accounts

store_of :
    (env : TokenEnv) (d : ℕ) (store : List ℕ)
    → hash_delegate_store env (some d) ≡ ok store
    → hash_key env d ≡ some store
unfolding hash_delegate_store
store_of env d store e = unwrap-ok (hash_key env d) e

flag-is_delegate_at :
    (is_delegate : Option (List Bool)) (i : ℕ) (delegated : Bool)
    → is_delegate_at is_delegate i ≡ ok delegated
    → flag is_delegate i ≡ delegated
unfolding is_delegate_at
flag-is_delegate_at none i delegated e = ok_injective e
flag-is_delegate_at (some flags) i delegated e = ground arith

module _ (env : TokenEnv) (mint : ℕ) (delegate : Option ℕ) (hashed_delegate_store : List ℕ)
    (is_delegate : Option (List Bool)) (lamports : Option (List (Option ℕ))) (hashed_mint : List ℕ)
    (merkle_tree_indices : List ℕ) (mint_hashed : hash_key env mint ≡ some hashed_mint)
    (marked : (is_delegate ≡ none)
      ⊎ ((d : ℕ) × (delegate ≡ some d) × (hash_key env d ≡ some hashed_delegate_store))) where
  delegate_hashed :
      (i : ℕ) (delegated : Bool)
      → is_delegate_at is_delegate i ≡ ok delegated
      → hash_delegate env (delegate_if delegated delegate)
        ≡ ok (delegate_if delegated (some hashed_delegate_store))
  unfolding is_delegate_at hash_delegate
  delegate_hashed i false e = refl
  delegate_hashed i true e = elim marked [
    | inl not_marked ↦ absurd (cc (rw not_marked at e))
    | inr (d, is_some, hashed) ↦ rw (is_some, hashed) refl
  ]

  abbrev IsCreated : ℕ → ℕ → ℕ → ℕ → OutputCompressedAccountWithPackedContext × ℕ → Type 0
  IsCreated i owner amount sum_lamports (account, total) =
      IsTokenAccount env account.compressed_account
        (output_token mint delegate is_delegate i owner amount)
      × (sum_lamports + account.compressed_account.lamports ≡ total)
      × (total < word)
      × (lamports_at lamports i ≡ ok account.compressed_account.lamports)

  abbrev token : Bool → ℕ → ℕ → TokenData
  token delegated owner amount = record {
    mint = mint;
    owner = owner;
    amount = amount;
    delegate = delegate_if delegated delegate;
    state = initialized;
    tlv = none;
  }

  abbrev made : ℕ → Bool → ℕ → ℕ → List ℕ → CompressedAccount
  made own_lamports delegated owner amount data_hash = record {
    owner = id;
    lamports = own_lamports;
    address = none;
    account_data = some (record {
      discriminator = token_compressed_account_discriminator;
      bytes = env.serialize (token delegated owner amount);
      data_hash = data_hash;
    });
  }

  made-IsTokenAccount :
      (i owner amount : ℕ) (delegated : Bool) (hashed_owner data_hash : List ℕ) (own_lamports : ℕ)
      → is_delegate_at is_delegate i ≡ ok delegated
      → ◌≡◌ {A = TokenResult (List ℕ)} (unwrap (hash_key env owner)) (ok hashed_owner)
      → hash_inputs_with_hashed_values env false hashed_mint hashed_owner
          (to_le_bytes 8 amount)
          (delegate_if delegated (some hashed_delegate_store))
        ≡ ok data_hash
      → IsTokenAccount env
          (made own_lamports delegated owner amount data_hash)
          (token delegated owner amount)
  made-IsTokenAccount i owner amount delegated hashed_owner data_hash own_lamports p p1 p2 =
      record {
        owner_is = refl;
        no_address = refl;
        data_hash = data_hash;
        hashed =
            hash_of env false mint hashed_mint mint_hashed (token delegated owner amount)
              hashed_owner (delegate_if delegated (some hashed_delegate_store)) data_hash refl refl
              p1 (delegate_hashed i delegated p) p2;
        holds = refl;
      }

  output_account-IsCreated :
      (i owner amount sum_lamports : ℕ) (written : OutputCompressedAccountWithPackedContext × ℕ)
      → output_account env mint delegate hashed_delegate_store is_delegate lamports hashed_mint
          merkle_tree_indices i owner amount sum_lamports
        ≡ ok written
      → IsCreated i owner amount sum_lamports written
  unfolding output_account
  output_account-IsCreated i owner amount sum_lamports written e =
      let (delegated, p, q) = >>=-eq-ok (is_delegate_at is_delegate i) _ e in
      let (hashed_owner, p1, q1) = >>=-eq-ok (unwrap (hash_key env owner)) _ q in
      let (data_hash, p2, q2) =
        >>=-eq-ok
          (hash_inputs_with_hashed_values env false hashed_mint hashed_owner (to_le_bytes 8 amount)
            (delegate_if delegated (some hashed_delegate_store)))
          _ q1 in
      let (own_lamports, p3, q3) = >>=-eq-ok (lamports_at lamports i) _ q2 in
      let (total, p4, q4) = >>=-eq-ok (add sum_lamports own_lamports) _ q3 in
      let (merkle_tree_index, p5, q5) = >>=-eq-ok (unwrap (get_elem? merkle_tree_indices i)) _ q4 in
      let (added, fits) = add-ok sum_lamports own_lamports p4 in
      subst (IsCreated i owner amount sum_lamports) (ok_injective q5) (
        subst
            (λ b.
              IsTokenAccount env (made own_lamports delegated owner amount data_hash)
                (token b owner amount))
            (sym (flag-is_delegate_at is_delegate i delegated p))
            (made-IsTokenAccount i owner amount delegated hashed_owner data_hash own_lamports p p1
              p2),
        added,
        fits,
        p3,
      )

  -- where there are as many amounts and slots as owners
  pub output_loop-AreCreated :
      (i : ℕ) (owners amounts : List ℕ) (slots : List OutputCompressedAccountWithPackedContext)
      (sum_lamports : ℕ) (written : List OutputCompressedAccountWithPackedContext × ℕ)
      → length owners ≡ length amounts
      → length owners ≡ length slots
      → sum_lamports < word
      → output_loop env mint delegate hashed_delegate_store is_delegate lamports hashed_mint
          merkle_tree_indices i owners amounts slots sum_lamports
        ≡ ok written
      → AreCreated env mint delegate is_delegate lamports i owners amounts sum_lamports written
  unfolding output_loop
  output_loop-AreCreated i [] amounts [] sum_lamports written a s lt e =
      subst (AreCreated env mint delegate is_delegate lamports i [] amounts sum_lamports)
        (ok_injective e) (tt, omega arith, lt, tt)
  output_loop-AreCreated i [] amounts (slot ∷ slots) sum_lamports written a s lt e =
      absurd (omega (arith, s))
  output_loop-AreCreated i (owner ∷ owners) [] slots sum_lamports written a s lt e =
      absurd (omega (arith, a))
  output_loop-AreCreated i (owner ∷ owners) (amount ∷ amounts) [] sum_lamports written a s lt e =
      absurd (omega (arith, s))
  output_loop-AreCreated i (owner ∷ owners) (amount ∷ amounts) (slot ∷ slots) sum_lamports written a
        s lt e =
      let (first, p, q) =
        >>=-eq-ok
          (output_account env mint delegate hashed_delegate_store is_delegate lamports hashed_mint
            merkle_tree_indices i owner amount sum_lamports)
          _ e in
      let (rest, p1, q1) =
        >>=-eq-ok
          (output_loop env mint delegate hashed_delegate_store is_delegate lamports hashed_mint
            merkle_tree_indices (i + 1) owners amounts slots first.1)
          _ q in
      let (holds, step, fits, own) = output_account-IsCreated i owner amount sum_lamports first p in
      let (all_hold, total, bound, others) =
        output_loop-AreCreated (i + 1) owners amounts slots first.1 rest (omega (arith, a))
          (omega (arith, s)) fits p1 in
      subst
        (AreCreated env mint delegate is_delegate lamports i (owner ∷ owners) (amount ∷ amounts)
          sum_lamports)
        (ok_injective q1) ((holds, all_hold), omega (arith, step, total), bound, (own, others))

module _ (env : TokenEnv) (mint : ℕ) (delegate : Option ℕ) (is_delegate : Option (List Bool)) where
  pub create_output-AreCreated :
      (hashed_mint : List ℕ) (lamports : Option (List (Option ℕ))) (merkle_tree_indices : List ℕ)
      (owners amounts : List ℕ) (slots : List OutputCompressedAccountWithPackedContext)
      (written : List OutputCompressedAccountWithPackedContext × ℕ)
      → hash_key env mint ≡ some hashed_mint
      → (is_delegate ≡ none) ⊎ ((d : ℕ) × (delegate ≡ some d))
      → length owners ≡ length amounts
      → length owners ≡ length slots
      → create_output_compressed_accounts env slots mint owners delegate is_delegate amounts
          lamports hashed_mint merkle_tree_indices
        ≡ ok written
      → AreCreated env mint delegate is_delegate lamports 0 owners amounts 0 written
  unfolding create_output_compressed_accounts
  create_output-AreCreated hashed_mint lamports merkle_tree_indices owners amounts slots written
        mint_hashed marked a s e =
      let (store, p, q) = >>=-eq-ok (hash_delegate_store env delegate) _ e in
      output_loop-AreCreated env mint delegate store is_delegate lamports hashed_mint
        merkle_tree_indices mint_hashed (stored store p) 0 owners amounts slots 0 written a s
        (omega arith) q
    where
      stored :
          (store : List ℕ)
          → hash_delegate_store env delegate ≡ ok store
          → (is_delegate ≡ none) ⊎ ((d : ℕ) × (delegate ≡ some d) × (hash_key env d ≡ some store))
      stored store p = elim marked [
        | inl not_marked ↦ inl not_marked
        | inr (d, is_some) ↦
            inr (d, is_some, store_of env d store (ap (hash_delegate_store env) (sym is_some) ∙ p))
      ]
