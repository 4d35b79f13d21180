-- ===== src/Token/Transfer/Pool.antt =====
-- programs/compressed-token/src: the sum check of a transfer, and what its SPL transfer does to the
-- token pool of the mint.
use light_protocol.Prelude.{
  ℕ, ◌+◌, ◌≡◌, inl, inr, refl, sym, ap, ◌∙◌, subst, arith, Bool, true, false, List, [], ◌∷◌, Option,
  none, some, ok, err, >>=-eq-ok, ok_injective, ok_or-ok, unwrap-ok, guard, ok_or, unwrap, ltb,
  ◌==◌, ==_iff, if◌then◌else◌, Bool-cases,
}
use light_protocol.Prelude.Bytes.{to_be_bytes}
use light_protocol.Prelude.Words.{checked_add, checked_sub, checked_sub-ok, word}
use light_protocol.System.SumCheck.Balance.{amount, compressed, decompressed}
use light_protocol.Token.Data.{
  TokenEnv, TokenData, TokenResult, TokenError, error_code, compute_input_sum_failed,
  compute_output_sum_failed, compute_compress_sum_failed, compute_decompress_sum_failed,
  sum_check_failed, invalid_token_pool_pda, id,
}
use light_protocol.Token.Holds.{amount_sum, sum}
use light_protocol.Token.Transfer.{
  CompressedTokenInstructionDataTransfer, TransferInstruction, SplTransfer, check_token_account,
  add_amounts, move_amount, sub_amounts, sum_check, pool_seed, spl_token_pool_derivation,
  compress_spl_tokens, decompress_spl_tokens, process_compression_or_decompression, move_spl,
}

checked_add-ok : (a b : ℕ) (e : TokenError) {r : ℕ} → ok_or (checked_add a b) e ≡ ok r → a + b ≡ r
checked_add-ok a b e p = elim (Bool-cases (ltb (a + b) word)) [
  | inl fits ↦ cc (rw fits at p)
  | inr over ↦ absurd (cc (rw over at p))
]

add_amounts-ok :
    (start : ℕ) (tokens : List TokenData) {r : ℕ}
    → add_amounts start tokens ≡ ok r
    → start + amount_sum tokens ≡ r
unfolding add_amounts
add_amounts-ok start [] {r} e = let same : start ≡ r = cc e in omega arith
add_amounts-ok start (token ∷ tokens) e =
    let (next, p, q) =
      >>=-eq-ok (ok_or (checked_add start token.amount) (error_code compute_input_sum_failed)) _
        e in
    omega (arith, add_amounts-ok next tokens q, checked_add-ok start token.amount _ p)

sub_amounts-ok :
    (start : ℕ) (amounts : List ℕ) {r : ℕ}
    → sub_amounts start amounts ≡ ok r
    → r + sum amounts ≡ start
unfolding sub_amounts
sub_amounts-ok start [] {r} e = let same : start ≡ r = cc e in omega arith
sub_amounts-ok start (n ∷ amounts) e =
    let (next, p, q) =
      >>=-eq-ok (ok_or (checked_sub start n) (error_code compute_output_sum_failed)) _ e in
    let (le, same) = checked_sub-ok start n (error_code compute_output_sum_failed) p in
    omega (arith, sub_amounts-ok next amounts q, le, same)

move_amount-ok :
    (start : ℕ) (moved : Option ℕ) (is_compress : Bool) {r : ℕ}
    → move_amount start moved is_compress ≡ ok r
    → r + decompressed moved is_compress ≡ start + compressed moved is_compress
unfolding move_amount
move_amount-ok start none true {r} e = let same : start ≡ r = cc e in omega arith
move_amount-ok start none false {r} e = let same : start ≡ r = cc e in omega arith
move_amount-ok start (some n) true e =
    omega (arith, checked_add-ok start n (error_code compute_compress_sum_failed) e)
move_amount-ok start (some n) false e =
    let (le, same) = checked_sub-ok start n (error_code compute_decompress_sum_failed) e in
    omega (arith, le, same)

pub sum_check-balanced_tokens :
    (tokens : List TokenData) (amounts : List ℕ) (moved : Option ℕ) (is_compress : Bool)
    (u : Unit {0})
    → sum_check tokens amounts moved is_compress ≡ ok u
    → amount_sum tokens + compressed moved is_compress
      ≡ sum amounts + decompressed moved is_compress
unfolding sum_check
sum_check-balanced_tokens tokens amounts moved is_compress u e =
    let (sum0, p, q) = >>=-eq-ok (add_amounts 0 tokens) _ e in
    let (sum1, p1, q1) = >>=-eq-ok (move_amount sum0 moved is_compress) _ q in
    let (sum2, p2, q2) = >>=-eq-ok (sub_amounts sum1 amounts) _ q1 in
    omega (
      arith,
      add_amounts-ok 0 tokens p,
      move_amount-ok sum0 moved is_compress p1,
      sub_amounts-ok sum1 amounts p2,
      nothing_left sum2 q2,
    )
  where
    nothing_left :
        (n : ℕ)
        → ◌≡◌ {A = TokenResult (Unit {0})}
            (if n == 0 then ok tt else err (error_code sum_check_failed))
            (ok u)
        → n ≡ 0
    nothing_left n e = elim (Bool-cases (n == 0)) [
      | inl z ↦ (==_iff n 0).0 z
      | inr nz ↦ absurd (cc (rw nz at e))
    ]

-- what a transfer moves into an account, and out of it
abbrev pub into : ℕ → Option SplTransfer → ℕ
into account none = 0
into account (some spl) = if spl.to == account then spl.amount else 0

abbrev pub out_of : ℕ → Option SplTransfer → ℕ
out_of account none = 0
out_of account (some spl) = if spl.from == account then spl.amount else 0

-- the pool of a mint
abbrev pub token_pool : TokenEnv → ℕ → ℕ
token_pool env mint = env.find_program_address (pool_seed ∷ (to_be_bytes 32 mint ∷ [])) id

guard_eq-ok :
    (a b : ℕ) (e : TokenError) (u : Unit {0})
    → ◌≡◌ {A = TokenResult (Unit {0})} (guard (a == b) e) (ok u)
    → a ≡ b
guard_eq-ok a b e u p = elim (Bool-cases (a == b)) [
  | inl same ↦ (==_iff a b).0 same
  | inr other ↦ absurd (cc (rw other at p))
]

check_token_account-ne :
    (pool account : ℕ) (u : Unit {0})
    → check_token_account (some pool) (some account) ≡ ok u
    → (pool == account) ≡ false
unfolding check_token_account
check_token_account-ne pool account u e = elim (Bool-cases (pool == account)) [
  | inl same ↦ absurd (cc (rw same at e))
  | inr other ↦ other
]

flow :
    (pool account side n : ℕ)
    → side ≡ pool
    → (pool == account) ≡ false
    → ((if side == pool then n else 0) ≡ n) × ((if account == pool then n else 0) ≡ 0)
flow pool account side n at other = ground arith

module _ (env : TokenEnv) (inputs : CompressedTokenInstructionDataTransfer)
    (ctx : TransferInstruction) (u : Unit {0})
    (checked : check_token_account ctx.token_pool_pda ctx.compress_or_decompress_token_account
      ≡ ok u) where
  no_amount :
      (is_compress : Bool) → (0 ≡ compressed none is_compress) × (0 ≡ decompressed none is_compress)
  no_amount true = (refl, refl)
  no_amount false = (refl, refl)

  -- the two accounts of a transfer
  abbrev Between : ℕ → ℕ → ℕ → SplTransfer → Type 0
  Between from to amount spl = (spl.from ≡ from) × (spl.to ≡ to) × (spl.amount ≡ amount)

  abbrev OtherAccount : ℕ → Type 0
  OtherAccount account = (token_pool env inputs.mint == account) ≡ false

  other_account :
      (pool account : ℕ)
      → ctx.token_pool_pda ≡ some pool
      → ctx.compress_or_decompress_token_account ≡ some account
      → spl_token_pool_derivation env inputs.mint id pool ≡ ok tt
      → (token_pool env inputs.mint ≡ pool) × OtherAccount account
  unfolding spl_token_pool_derivation
  other_account pool account pool_at account_at derived =
      let same =
        guard_eq-ok (token_pool env inputs.mint) pool (error_code invalid_token_pool_pda) tt
          derived in
      (
        same,
        ap (λ x. x == account) same
            ∙ check_token_account-ne pool account u (rw (pool_at, account_at) at checked),
      )

  compress-Between :
      (spl : SplTransfer)
      → compress_spl_tokens env inputs ctx ≡ ok spl
      → (account amount : ℕ) × OtherAccount account
        × (inputs.compress_or_decompress_amount ≡ some amount)
        × Between account (token_pool env inputs.mint) amount spl
  unfolding compress_spl_tokens
  compress-Between spl e =
      let (pool, p, q) = >>=-eq-ok (ok_or ctx.token_pool_pda _) _ e in
      let (v, p1, q1) = >>=-eq-ok (spl_token_pool_derivation env inputs.mint id pool) _ q in
      let (amount, p2, q2) = >>=-eq-ok (ok_or inputs.compress_or_decompress_amount _) _ q1 in
      let (from, p3, q3) = >>=-eq-ok (unwrap ctx.compress_or_decompress_token_account) _ q2 in
      let (program, p4, q4) = >>=-eq-ok (unwrap ctx.token_program) _ q3 in
      let (same, other) =
        other_account pool from (ok_or-ok ctx.token_pool_pda _ p)
          (unwrap-ok ctx.compress_or_decompress_token_account p3) p1 in
      (
        from,
        amount,
        other,
        ok_or-ok inputs.compress_or_decompress_amount _ p2,
        subst (Between from (token_pool env inputs.mint) amount) (ok_injective q4)
            (refl, sym same, refl),
      )

  decompress-Between :
      (spl : SplTransfer)
      → decompress_spl_tokens env inputs ctx ≡ ok spl
      → (account amount : ℕ) × OtherAccount account
        × (inputs.compress_or_decompress_amount ≡ some amount)
        × Between (token_pool env inputs.mint) account amount spl
  unfolding decompress_spl_tokens
  decompress-Between spl e =
      let (to, p3, q) = >>=-eq-ok (ok_or ctx.compress_or_decompress_token_account _) _ e in
      let (pool, p, q1) = >>=-eq-ok (ok_or ctx.token_pool_pda _) _ q in
      let (v, p1, q2) = >>=-eq-ok (spl_token_pool_derivation env inputs.mint id pool) _ q1 in
      let (amount, p2, q3) = >>=-eq-ok (ok_or inputs.compress_or_decompress_amount _) _ q2 in
      let (program, p4, q4) = >>=-eq-ok (unwrap ctx.token_program) _ q3 in
      let (same, other) =
        other_account pool to (ok_or-ok ctx.token_pool_pda _ p)
          (ok_or-ok ctx.compress_or_decompress_token_account _ p3) p1 in
      (
        to,
        amount,
        other,
        ok_or-ok inputs.compress_or_decompress_amount _ p2,
        subst (Between (token_pool env inputs.mint) to amount) (ok_injective q4)
            (sym same, refl, refl),
      )

  -- what moves in the direction of the flag
  by_direction :
      (n : ℕ) (is_compress : Bool) (call : SplTransfer)
      → inputs.compress_or_decompress_amount ≡ some n
      → ◌≡◌ {A = TokenResult SplTransfer}
          (if is_compress
            then compress_spl_tokens env inputs ctx
            else decompress_spl_tokens env inputs ctx)
          (ok call)
      → (into (token_pool env inputs.mint) (some call) ≡ compressed (some n) is_compress)
        × (out_of (token_pool env inputs.mint) (some call) ≡ decompressed (some n) is_compress)
  by_direction n true call moved p =
      let (account, found, other, moved_is, (from, to, same)) = compress-Between call p in
      let same_amount : found ≡ n = cc (moved_is, moved) in
      let (there, back) = flow (token_pool env inputs.mint) account call.to call.amount to other in
      (
        there ∙ same ∙ same_amount,
        ap (λ x. if x == token_pool env inputs.mint then call.amount else 0) from ∙ back,
      )
  by_direction n false call moved p =
      let (account, found, other, moved_is, (from, to, same)) = decompress-Between call p in
      let same_amount : found ≡ n = cc (moved_is, moved) in
      let (there, back) =
        flow (token_pool env inputs.mint) account call.from call.amount from other in
      (
        ap (λ x. if x == token_pool env inputs.mint then call.amount else 0) to ∙ back,
        there ∙ same ∙ same_amount,
      )

  -- the amounts that go into the pool of the mint and out of it are those of the instruction
  pub move_spl-Moved :
      (moved : Option ℕ) (spl : Option SplTransfer)
      → moved ≡ inputs.compress_or_decompress_amount
      → move_spl env inputs ctx moved ≡ ok spl
      → (into (token_pool env inputs.mint) spl ≡ compressed moved inputs.is_compress)
        × (out_of (token_pool env inputs.mint) spl ≡ decompressed moved inputs.is_compress)
  unfolding move_spl process_compression_or_decompression
  move_spl-Moved none spl same e =
      subst
        (λ s.
          (into (token_pool env inputs.mint) s ≡ compressed none inputs.is_compress)
          × (out_of (token_pool env inputs.mint) s ≡ decompressed none inputs.is_compress))
        (ok_injective e) (no_amount inputs.is_compress)
  move_spl-Moved (some n) spl same e =
      let (call, p, q) = >>=-eq-ok (process_compression_or_decompression env inputs ctx) _ e in
      subst
        (λ s.
          (into (token_pool env inputs.mint) s ≡ compressed (some n) inputs.is_compress)
          × (out_of (token_pool env inputs.mint) s ≡ decompressed (some n) inputs.is_compress))
        (ok_injective q) (by_direction n inputs.is_compress call (sym same) p)
