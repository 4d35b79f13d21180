-- ===== src/Token/Freeze/Loops.antt =====
-- programs/compressed-token/src/freeze.rs: the tokens that the inputs and the outputs of `freeze` and `thaw` are read and made from.
use light_protocol.Prelude.{
  ℕ, suc, ◌+◌, ◌≡◌, refl, sym, ap, ap₂, ◌∙◌, subst, arith, Bool, List, [], ◌∷◌, map, Option, none,
  some, ok, >>=-eq-ok, ok_injective, length,
}
use light_protocol.Prelude.Words.{add}
use light_protocol.System.Accounts.{
  CompressedAccount, PackedCompressedAccountWithMerkleContext,
  OutputCompressedAccountWithPackedContext,
}
use light_protocol.System.SumCheck.Balance.{input_sum, output_sum}
use light_protocol.Token.Data.{
  TokenEnv, TokenData, id, token_compressed_account_discriminator, state_of, hash,
}
use light_protocol.Token.Inputs.{
  token_account_data, InputTokenDataWithContext, Spent, or_zero, no_tlv, check_delegate_signer,
  delegate_key, input_owner, read_input, input_loop, add_token_data_to_input_compressed_accounts,
}
use light_protocol.Token.Holds.{IsTokenAccount, OutputsHold, AllOf, amount_sum}
use light_protocol.Token.Freeze.{token_output, create_token_output_accounts}

-- the same token, frozen or not
abbrev pub in_state : Bool → TokenData → TokenData
in_state frozen token = record token { state = state_of frozen }

abbrev pub input_lamports : List PackedCompressedAccountWithMerkleContext → List ℕ
input_lamports [] = []
input_lamports (account ∷ accounts) = account.compressed_account.lamports ∷ input_lamports accounts

abbrev pub output_lamports : List OutputCompressedAccountWithPackedContext → List ℕ
output_lamports [] = []
output_lamports (account ∷ accounts) =
    account.compressed_account.lamports ∷ output_lamports accounts

abbrev pub sum_of : List ℕ → ℕ
sum_of [] = 0
sum_of (n ∷ ns) = n + sum_of ns

pub input_sum-eq :
    (accounts : List PackedCompressedAccountWithMerkleContext)
    → input_sum accounts ≡ sum_of (input_lamports accounts)
input_sum-eq [] = refl
input_sum-eq (account ∷ accounts) = omega (arith, input_sum-eq accounts)

pub output_sum-eq :
    (accounts : List OutputCompressedAccountWithPackedContext)
    → output_sum accounts ≡ sum_of (output_lamports accounts)
output_sum-eq [] = refl
output_sum-eq (account ∷ accounts) = omega (arith, output_sum-eq accounts)

module _ (env : TokenEnv) (frozen_inputs frozen_outputs : Bool) (owner : ℕ)
    (remaining_accounts : List ℕ) (mint : ℕ) (outputs_merkle_tree_index : ℕ) where
  -- the token of an input, in a state
  abbrev token_of : InputTokenDataWithContext → Option ℕ → Bool → TokenData
  token_of input delegate frozen = record {
    mint = mint;
    owner = owner;
    amount = input.amount;
    delegate = delegate;
    state = state_of frozen;
    tlv = none;
  }

  abbrev ReadsToken :
      InputTokenDataWithContext
      → PackedCompressedAccountWithMerkleContext × (TokenData × ℕ)
      → Type 0
  ReadsToken input (account, (token, total)) =
      (account.compressed_account.lamports ≡ or_zero input.lamports)
      × ((delegate : Option ℕ) × (delegate_key remaining_accounts input.delegate_index
            ≡ ok delegate)
          × (token ≡ token_of input delegate frozen_inputs))

  read_input-ReadsToken :
      (sum_lamports : ℕ) (input : InputTokenDataWithContext)
      (read : PackedCompressedAccountWithMerkleContext × (TokenData × ℕ))
      → read_input frozen_inputs owner none remaining_accounts mint sum_lamports input ≡ ok read
      → ReadsToken input read
  unfolding read_input input_owner
  read_input-ReadsToken sum_lamports input read e =
      let (u, p, q) =
        >>=-eq-ok (check_delegate_signer owner none remaining_accounts input.delegate_index) _ e in
      let (total, p1, q1) = >>=-eq-ok (add sum_lamports (or_zero input.lamports)) _ q in
      let (v, p2, q2) = >>=-eq-ok (no_tlv input.tlv) _ q1 in
      let (delegate, p3, q3) =
        >>=-eq-ok (delegate_key remaining_accounts input.delegate_index) _ q2 in
      subst (ReadsToken input) (ok_injective q3) (
        refl,
        (
          delegate,
          p3,
          ap (λ o. record (token_of input delegate frozen_inputs) { owner = o })
              (owner_of input.delegate_index),
        ),
      )
    where
      owner_of : (index : Option ℕ) → input_owner owner none index ≡ owner
      owner_of none = refl
      owner_of (some index) = refl

  token_output-IsTokenAccount :
      (input : InputTokenDataWithContext) (delegate : Option ℕ)
      (output : OutputCompressedAccountWithPackedContext)
      → delegate_key remaining_accounts input.delegate_index ≡ ok delegate
      → token_output env frozen_outputs remaining_accounts mint owner outputs_merkle_tree_index
          input
        ≡ ok output
      → IsTokenAccount env output.compressed_account (token_of input delegate frozen_outputs)
        × (output.compressed_account.lamports ≡ or_zero input.lamports)
  unfolding token_output
  token_output-IsTokenAccount input delegate output found e =
      let (delegate', p, q) =
        >>=-eq-ok (delegate_key remaining_accounts input.delegate_index) _ e in
      let (data_hash, p1, q1) =
        >>=-eq-ok (hash env (token_of input delegate' frozen_outputs)) _ q in
      let same : delegate' ≡ delegate = ok_injective (sym p ∙ found) in
      subst
        (λ o.
          IsTokenAccount env o.compressed_account (token_of input delegate frozen_outputs)
          × (o.compressed_account.lamports ≡ or_zero input.lamports))
        (ok_injective q1)
        (
          subst
              (λ d.
                IsTokenAccount env (made input delegate' data_hash)
                  (token_of input d frozen_outputs))
              same
              (record {
                owner_is = refl;
                no_address = refl;
                data_hash = data_hash;
                hashed = p1;
                holds = refl;
              }),
          refl,
        )
    where
      made : InputTokenDataWithContext → Option ℕ → List ℕ → CompressedAccount
      made input delegate data_hash = record {
        owner = id;
        lamports = or_zero input.lamports;
        address = none;
        account_data = some (record {
          discriminator = token_compressed_account_discriminator;
          bytes = env.serialize (token_of input delegate frozen_outputs);
          data_hash = data_hash;
        });
      }

  -- the tokens and the lamports of the inputs and of the outputs
  abbrev pub Same : Spent → List OutputCompressedAccountWithPackedContext → Type 0
  Same spent outputs =
      (tokens : List TokenData) × (spent.tokens ≡ map (in_state frozen_inputs) tokens)
      × OutputsHold env outputs (map (in_state frozen_outputs) tokens)
      × (input_lamports spent.accounts ≡ output_lamports outputs)
      × (amount_sum (map (in_state frozen_inputs) tokens)
          ≡ amount_sum (map (in_state frozen_outputs) tokens))
      × AllOf mint (map (in_state frozen_outputs) tokens)

  pub loops-Same :
      (sum_lamports : ℕ) (inputs : List InputTokenDataWithContext) (spent : Spent)
      (slots outputs : List OutputCompressedAccountWithPackedContext)
      → length slots ≡ length inputs
      → input_loop frozen_inputs owner none remaining_accounts mint sum_lamports inputs ≡ ok spent
      → create_token_output_accounts env frozen_outputs remaining_accounts mint owner
          outputs_merkle_tree_index inputs slots
        ≡ ok outputs
      → Same spent outputs
  unfolding input_loop create_token_output_accounts
  loops-Same sum_lamports [] spent [] outputs size e f =
      subst (λ s. Same s outputs) (ok_injective e)
        (subst (Same (record { accounts = []; tokens = []; sum_lamports = sum_lamports }))
          (ok_injective f) ([], refl, tt, refl, refl, tt))
  loops-Same sum_lamports [] spent (slot ∷ slots) outputs size e f = absurd (omega (arith, size))
  loops-Same sum_lamports (input ∷ inputs) spent [] outputs size e f = absurd (omega (arith, size))
  loops-Same sum_lamports (input ∷ inputs) spent (slot ∷ slots) outputs size e f =
      let (read, p, q) =
        >>=-eq-ok (read_input frozen_inputs owner none remaining_accounts mint sum_lamports input) _
          e in
      let (rest, p1, q1) =
        >>=-eq-ok (input_loop frozen_inputs owner none remaining_accounts mint read.1.1 inputs) _
          q in
      let (output, r, s) =
        >>=-eq-ok
          (token_output env frozen_outputs remaining_accounts mint owner outputs_merkle_tree_index
            input)
          _ f in
      let (others, r1, s1) =
        >>=-eq-ok
          (create_token_output_accounts env frozen_outputs remaining_accounts mint owner
            outputs_merkle_tree_index inputs slots)
          _ s in
      let (lamports_in, (delegate, found, token_is)) =
        read_input-ReadsToken sum_lamports input read p in
      let (held, lamports_out) = token_output-IsTokenAccount input delegate output found r in
      let (tokens, tokens_are, hold, lamports, amounts, of_mint) =
        loops-Same read.1.1 inputs rest slots others (omega (arith, size)) p1 r1 in
      let built : Spent = record {
        accounts = read.0 ∷ rest.accounts;
        tokens = read.1.0 ∷ rest.tokens;
        sum_lamports = rest.sum_lamports;
      } in
      subst (λ s. Same s outputs) (ok_injective q1)
        (subst (Same built) (ok_injective s1) (
          token_of input delegate frozen_inputs ∷ tokens,
          ap₂ (λ t ts. t ∷ ts) token_is tokens_are,
          (held, hold),
          ap₂ (λ n ns. n ∷ ns) (lamports_in ∙ sym lamports_out) lamports,
          omega (arith, amounts),
          (refl, of_mint),
        ))

  pub length-spent :
      (sum_lamports : ℕ) (inputs : List InputTokenDataWithContext) (spent : Spent)
      → input_loop frozen_inputs owner none remaining_accounts mint sum_lamports inputs ≡ ok spent
      → length spent.accounts ≡ length inputs
  unfolding input_loop
  length-spent sum_lamports [] spent e = ap (λ s. length s.accounts) (sym (ok_injective e))
  length-spent sum_lamports (input ∷ inputs) spent e =
      let (read, p, q) =
        >>=-eq-ok (read_input frozen_inputs owner none remaining_accounts mint sum_lamports input) _
          e in
      let (rest, p1, q1) =
        >>=-eq-ok (input_loop frozen_inputs owner none remaining_accounts mint read.1.1 inputs) _
          q in
      ap (λ s. length s.accounts) (sym (ok_injective q1))
      ∙ ap suc (length-spent read.1.1 inputs rest p1)

-- the data that are added leave the lamports alone
pub add_token_data-lamports :
    (env : TokenEnv) (frozen_inputs : Bool) (hashed_mint : List ℕ)
    (accounts : List PackedCompressedAccountWithMerkleContext) (tokens : List TokenData)
    (filled : List PackedCompressedAccountWithMerkleContext)
    → add_token_data_to_input_compressed_accounts env frozen_inputs accounts tokens hashed_mint
      ≡ ok filled
    → input_lamports filled ≡ input_lamports accounts
unfolding add_token_data_to_input_compressed_accounts
add_token_data-lamports env frozen_inputs hashed_mint [] tokens filled e =
    ap input_lamports (sym (ok_injective e))
add_token_data-lamports env frozen_inputs hashed_mint (account ∷ accounts) [] filled e = cc e
add_token_data-lamports env frozen_inputs hashed_mint (account ∷ accounts) (token ∷ tokens) filled
      e =
    let (account_data, p, q) =
      >>=-eq-ok (token_account_data env frozen_inputs token hashed_mint) _ e in
    let (rest, p1, q1) =
      >>=-eq-ok
        (add_token_data_to_input_compressed_accounts env frozen_inputs accounts tokens hashed_mint)
        _ q in
    ap input_lamports (sym (ok_injective q1))
    ∙ ap (λ ns. account.compressed_account.lamports ∷ ns)
        (add_token_data-lamports env frozen_inputs hashed_mint accounts tokens rest p1)
