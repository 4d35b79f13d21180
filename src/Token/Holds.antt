-- ===== src/Token/Holds.antt =====
-- programs/compressed-token/src: which tokens compressed accounts hold, and that the input and the
-- output accounts of an instruction hold the tokens that it reads and creates.
use light_protocol.Prelude.{
  ℕ, ◌+◌, ◌<◌, ◌≡◌, refl, sym, ap, ◌∙◌, arith, Bool, true, false, List, [], ◌∷◌, map, Option, none,
  some, ok, >>=-eq-ok, ok_injective, unwrap, subst,
}
use light_protocol.Prelude.Bytes.{to_le_bytes}
use light_protocol.Prelude.Words.{add, add-ok, word}
use light_protocol.System.Accounts.{
  CompressedAccount, CompressedAccountData, PackedCompressedAccountWithMerkleContext,
  OutputCompressedAccountWithPackedContext,
}
use light_protocol.System.SumCheck.Balance.{input_sum, IsWritable}
use light_protocol.Token.Data.{
  TokenEnv, TokenData, TokenResult, id, state_of, is_frozen, token_compressed_account_discriminator,
  hash_key, hash_delegate, hash_inputs_with_hashed_values, hash,
}
use light_protocol.Token.Inputs.{
  get_input_compressed_accounts_with_merkle_context_and_check_signer, InputTokenDataWithContext,
  DelegatedTransfer, Spent, or_zero, check_delegate_signer, no_tlv, delegate_key, read_input,
  input_loop, token_account_data, add_token_data_to_input_compressed_accounts,
}

-- the sum of the tokens, as a number of any size
abbrev pub amount_sum : List TokenData → ℕ
amount_sum [] = 0
amount_sum (token ∷ tokens) = token.amount + amount_sum tokens

abbrev pub sum : List ℕ → ℕ
sum [] = 0
sum (n ∷ ns) = n + sum ns

abbrev pub AllOf : ℕ → List TokenData → Type 0
AllOf mint [] = Unit {0}
AllOf mint (token ∷ tokens) = (token.mint ≡ mint) × AllOf mint tokens

-- what is known of the inputs before their data are added
abbrev pub ReadAll :
    ℕ → Bool → List PackedCompressedAccountWithMerkleContext → List TokenData → Type 0
ReadAll mint frozen_inputs [] [] = Unit {0}
ReadAll mint frozen_inputs [] (token ∷ tokens) = ⊥
ReadAll mint frozen_inputs (account ∷ accounts) [] = ⊥
ReadAll mint frozen_inputs (account ∷ accounts) (token ∷ tokens) =
    ((account.compressed_account.owner ≡ id)
      × (account.compressed_account.address ≡ none)
      × (account.read_only ≡ false)
      × (token.mint ≡ mint)
      × (token.state ≡ state_of frozen_inputs))
    × ReadAll mint frozen_inputs accounts tokens

module _ (env : TokenEnv) where
  -- An account of the program whose data are the token, with the token's own hash.
  pub record IsTokenAccount (account : CompressedAccount) (token : TokenData) : Type 0 where
    pub owner_is : account.owner ≡ id
    pub no_address : account.address ≡ none
    pub data_hash : List ℕ
    pub hashed : hash env token ≡ ok data_hash
    pub holds :
        account.account_data
        ≡ some (record {
          discriminator = token_compressed_account_discriminator;
          bytes = env.serialize token;
          data_hash = data_hash;
        })

  abbrev pub InputsHold : List PackedCompressedAccountWithMerkleContext → List TokenData → Type 0
  InputsHold [] [] = Unit {0}
  InputsHold [] (token ∷ tokens) = ⊥
  InputsHold (account ∷ accounts) [] = ⊥
  InputsHold (account ∷ accounts) (token ∷ tokens) =
      IsTokenAccount account.compressed_account token × InputsHold accounts tokens

  abbrev pub OutputsHold : List OutputCompressedAccountWithPackedContext → List TokenData → Type 0
  OutputsHold [] [] = Unit {0}
  OutputsHold [] (token ∷ tokens) = ⊥
  OutputsHold (account ∷ accounts) [] = ⊥
  OutputsHold (account ∷ accounts) (token ∷ tokens) =
      IsTokenAccount account.compressed_account token × OutputsHold accounts tokens

module _ (frozen_inputs : Bool) (signer : ℕ) (signer_is_delegate : Option DelegatedTransfer)
    (remaining_accounts : List ℕ) (mint : ℕ) where
  abbrev IsRead :
      ℕ
      → InputTokenDataWithContext
      → PackedCompressedAccountWithMerkleContext × (TokenData × ℕ)
      → Type 0
  IsRead sum_lamports input (account, (token, total)) =
      ((account.compressed_account.owner ≡ id)
        × (account.compressed_account.address ≡ none)
        × (account.read_only ≡ false)
        × (token.mint ≡ mint)
        × (token.state ≡ state_of frozen_inputs))
      × (sum_lamports + account.compressed_account.lamports ≡ total)
      × (total < word)
      × (token.amount ≡ input.amount)

  read_input-IsRead :
      (sum_lamports : ℕ) (input : InputTokenDataWithContext)
      (read : PackedCompressedAccountWithMerkleContext × (TokenData × ℕ))
      → read_input frozen_inputs signer signer_is_delegate remaining_accounts mint sum_lamports
          input
        ≡ ok read
      → IsRead sum_lamports input read
  unfolding read_input
  read_input-IsRead sum_lamports input read e =
      let (u, p, q) =
        >>=-eq-ok
          (check_delegate_signer signer signer_is_delegate remaining_accounts input.delegate_index)
          _ e in
      let (total, p1, q1) = >>=-eq-ok (add sum_lamports (or_zero input.lamports)) _ q in
      let (v, p2, q2) = >>=-eq-ok (no_tlv input.tlv) _ q1 in
      let (delegate, p3, q3) =
        >>=-eq-ok (delegate_key remaining_accounts input.delegate_index) _ q2 in
      let (added, fits) = add-ok sum_lamports (or_zero input.lamports) p1 in
      subst (IsRead sum_lamports input) (ok_injective q3)
        ((refl, refl, refl, refl, refl), added, fits, refl)

  abbrev pub AllRead : ℕ → List InputTokenDataWithContext → Spent → Type 0
  AllRead sum_lamports inputs spent =
      ReadAll mint frozen_inputs spent.accounts spent.tokens
      × (sum_lamports + input_sum spent.accounts ≡ spent.sum_lamports)
      × (spent.sum_lamports < word)
      × (amount_sum spent.tokens ≡ sum (map (λ input. input.amount) inputs))

  pub input_loop-AllRead :
      (sum_lamports : ℕ) (inputs : List InputTokenDataWithContext) (spent : Spent)
      → input_loop frozen_inputs signer signer_is_delegate remaining_accounts mint sum_lamports
          inputs
        ≡ ok spent
      → sum_lamports < word
      → AllRead sum_lamports inputs spent
  unfolding input_loop
  input_loop-AllRead sum_lamports [] spent e lt =
      subst (AllRead sum_lamports []) (ok_injective e) (tt, omega arith, lt, refl)
  input_loop-AllRead sum_lamports (input ∷ inputs) spent e lt =
      let (read, p, q) =
        >>=-eq-ok
          (read_input frozen_inputs signer signer_is_delegate remaining_accounts mint sum_lamports
            input)
          _ e in
      let (rest, p1, q1) =
        >>=-eq-ok
          (input_loop frozen_inputs signer signer_is_delegate remaining_accounts mint read.1.1
            inputs)
          _ q in
      let (shape, step, fits, same_amount) = read_input-IsRead sum_lamports input read p in
      let (shapes, total, bound, amounts) = input_loop-AllRead read.1.1 inputs rest p1 fits in
      subst (AllRead sum_lamports (input ∷ inputs)) (ok_injective q1)
        ((shape, shapes), omega (arith, step, total), bound, omega (arith, same_amount, amounts))

-- the inputs of all instructions: read, and given their data
pub get_input-AllRead :
    (frozen_inputs : Bool) (signer : ℕ) (delegated : Option DelegatedTransfer) (remaining : List ℕ)
    (mint : ℕ) (inputs : List InputTokenDataWithContext) (spent : Spent)
    → get_input_compressed_accounts_with_merkle_context_and_check_signer frozen_inputs signer
        delegated remaining mint inputs
      ≡ ok spent
    → AllRead frozen_inputs signer delegated remaining mint 0 inputs spent
unfolding get_input_compressed_accounts_with_merkle_context_and_check_signer
get_input-AllRead frozen_inputs signer delegated remaining mint inputs spent e =
    input_loop-AllRead frozen_inputs signer delegated remaining mint 0 inputs spent e (omega arith)

state_of_frozen : (b : Bool) → is_frozen (state_of b) ≡ b
state_of_frozen true = refl
state_of_frozen false = refl

pub ReadAll-AllOf :
    (mint : ℕ) (frozen_inputs : Bool) (accounts : List PackedCompressedAccountWithMerkleContext)
    (tokens : List TokenData)
    → ReadAll mint frozen_inputs accounts tokens
    → AllOf mint tokens
ReadAll-AllOf mint frozen_inputs [] [] r = tt
ReadAll-AllOf mint frozen_inputs [] (token ∷ tokens) r = elim r [ ]
ReadAll-AllOf mint frozen_inputs (account ∷ accounts) [] r = elim r [ ]
ReadAll-AllOf mint frozen_inputs (account ∷ accounts) (token ∷ tokens) (shape, r) =
    (shape.3, ReadAll-AllOf mint frozen_inputs accounts tokens r)

module _ (env : TokenEnv) (frozen_inputs : Bool) (mint : ℕ) (hashed_mint : List ℕ)
    (mint_hashed : hash_key env mint ≡ some hashed_mint) where
  pub hash_of :
      (token : TokenData) (hashed_owner : List ℕ) (hashed_delegate : Option (List ℕ))
      (data_hash : List ℕ)
      → token.mint ≡ mint
      → token.state ≡ state_of frozen_inputs
      → ◌≡◌ {A = TokenResult (List ℕ)} (unwrap (hash_key env token.owner)) (ok hashed_owner)
      → hash_delegate env token.delegate ≡ ok hashed_delegate
      → hash_inputs_with_hashed_values env frozen_inputs hashed_mint hashed_owner
          (to_le_bytes 8 token.amount)
          hashed_delegate
        ≡ ok data_hash
      → hash env token ≡ ok data_hash
  unfolding hash
  hash_of token hashed_owner hashed_delegate data_hash of_mint state p p1 p2 =
      let mint_of : hash_key env token.mint ≡ some hashed_mint =
        ap (hash_key env) of_mint ∙ mint_hashed in
      let frozen_of : is_frozen token.state ≡ frozen_inputs =
        ap is_frozen state ∙ state_of_frozen frozen_inputs in
      rw (mint_of, p, p1, frozen_of) p2

  token_account_data-IsTokenAccount :
      (account : CompressedAccount) (token : TokenData) (account_data : CompressedAccountData)
      → account.owner ≡ id
      → account.address ≡ none
      → token.mint ≡ mint
      → token.state ≡ state_of frozen_inputs
      → token_account_data env frozen_inputs token hashed_mint ≡ ok account_data
      → IsTokenAccount env (record account { account_data = some account_data }) token
  unfolding token_account_data
  token_account_data-IsTokenAccount account token account_data owned no_address of_mint state e =
      let (hashed_owner, p, q) = >>=-eq-ok (unwrap (hash_key env token.owner)) _ e in
      let (hashed_delegate, p1, q1) = >>=-eq-ok (hash_delegate env token.delegate) _ q in
      let (data_hash, p2, q2) =
        >>=-eq-ok
          (hash_inputs_with_hashed_values env frozen_inputs hashed_mint hashed_owner
            (to_le_bytes 8 token.amount) hashed_delegate)
          _ q1 in
      record {
        owner_is = owned;
        no_address = no_address;
        data_hash = data_hash;
        hashed = hash_of token hashed_owner hashed_delegate data_hash of_mint state p p1 p2;
        holds = ap some (sym (ok_injective q2));
      }

  pub add_token_data-InputsHold :
      (accounts : List PackedCompressedAccountWithMerkleContext) (tokens : List TokenData)
      (accounts' : List PackedCompressedAccountWithMerkleContext)
      → ReadAll mint frozen_inputs accounts tokens
      → add_token_data_to_input_compressed_accounts env frozen_inputs accounts tokens hashed_mint
        ≡ ok accounts'
      → InputsHold env accounts' tokens
        × (input_sum accounts' ≡ input_sum accounts)
        × IsWritable accounts'
  unfolding add_token_data_to_input_compressed_accounts
  add_token_data-InputsHold [] [] accounts' r e =
      subst (λ a. InputsHold env a [] × (input_sum a ≡ 0) × IsWritable a) (ok_injective e)
        (tt, refl, tt)
  add_token_data-InputsHold [] (token ∷ tokens) accounts' r e = elim r [ ]
  add_token_data-InputsHold (account ∷ accounts) [] accounts' r e = elim r [ ]
  add_token_data-InputsHold (account ∷ accounts) (token ∷ tokens) accounts' (shape, r) e =
      let (account_data, p, q) =
        >>=-eq-ok (token_account_data env frozen_inputs token hashed_mint) _ e in
      let (rest, p1, q1) =
        >>=-eq-ok
          (add_token_data_to_input_compressed_accounts env frozen_inputs accounts tokens
            hashed_mint)
          _ q in
      let (holds, sums, writable) = add_token_data-InputsHold accounts tokens rest r p1 in
      subst
        (λ a.
          InputsHold env a (token ∷ tokens)
          × (input_sum a ≡ account.compressed_account.lamports + input_sum accounts)
          × IsWritable a)
        (ok_injective q1)
        (
          (
            token_account_data-IsTokenAccount account.compressed_account token account_data shape.0
                shape.1 shape.3 shape.4 p,
            holds,
          ),
          omega (arith, sums),
          (shape.2, writable),
        )
