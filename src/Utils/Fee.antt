-- ===== src/Utils/Fee.antt =====
-- utils/src/fee.rs: what each leaf pays, so that the fees of a tree pay for the one after it.
use light_protocol.Prelude.{
  ℕ, subst, ◌⊎◌, true, false, ◌+◌, ◌*◌, ◌/◌, ◌%◌, ◌^◌, ◌≤◌, ◌<◌, ◌≡◌, ap, ◌∙◌, arith, inl, inr,
  Result, ok, err, ◌>>=◌, >>=-eq-ok, ltb, ◌==◌, if◌then◌else◌, Bool-cases,
}
use light_protocol.Prelude.Bits.{pow_pos}
use light_protocol.Prelude.Words.{one_shl, mul, mul-ok}

pub data FeeError : Type 0 where
  invalid_rollover_threshold : FeeError

-- `div_ceil`
abbrev pub div_ceil : ℕ → ℕ → ℕ
div_ceil a b = if ltb 0 (a % b) then a / b + 1 else a / b

unfoldable pub compute_rollover_fee : ℕ → ℕ → ℕ → Result FeeError ℕ
compute_rollover_fee rollover_threshold tree_height rent = do
  number_of_transactions ← one_shl tree_height
  let fee : Result FeeError ℕ = (do
    total ← mul rent 100
    leaves ← mul number_of_transactions rollover_threshold
    ok (div_ceil total leaves))
  if ltb 100 rollover_threshold
      then err invalid_rollover_threshold
      else if rollover_threshold == 0
      then ok rent
      else fee

product_pos : (a b : ℕ) → 0 < a → 0 < b → 0 < a * b
product_pos a b p q = grind arith

-- rounded up: enough, and by less than one too much
div_ceil_bounds : (a b : ℕ) → 0 < b → (a ≤ div_ceil a b * b) × (div_ceil a b * b < a + b)
div_ceil_bounds a b h = (grind arith, grind arith)

one_shl-ok : (k : ℕ) {r : ℕ} → ◌≡◌ {A = Result FeeError ℕ} (one_shl k) (ok r) → 2 ^ k ≡ r
one_shl-ok k p = elim (Bool-cases (ltb k 64)) [
  | inl fits ↦ cc (rw fits at p)
  | inr over ↦ absurd (cc (rw over at p))
]

-- If `compute_rollover_fee` returns a fee, the threshold is 0 and the fee is the rent, or the
-- threshold is at most 100 and the fees of the share of the leaves that the threshold gives
-- cover the rent, where a fee less by one would not.
pub compute_rollover_fee-covers :
    (rollover_threshold tree_height rent fee : ℕ)
    → compute_rollover_fee rollover_threshold tree_height rent ≡ ok fee
    → ((rollover_threshold ≡ 0) × (fee ≡ rent))
      ⊎ ((rollover_threshold ≤ 100)
          × (rent * 100 ≤ fee * (2 ^ tree_height * rollover_threshold))
          × (fee * (2 ^ tree_height * rollover_threshold)
              < rent * 100 + 2 ^ tree_height * rollover_threshold))
unfolding compute_rollover_fee
compute_rollover_fee-covers rollover_threshold tree_height rent fee e =
    let (n, shifted, p) = >>=-eq-ok (one_shl tree_height) _ e in
    by_threshold n (one_shl-ok tree_height shifted) (Bool-cases (ltb 100 rollover_threshold))
      (Bool-cases (rollover_threshold == 0)) p
  where
    covered :
        (n : ℕ)
        → 2 ^ tree_height ≡ n
        → rollover_threshold ≤ 100
        → (rollover_threshold == 0) ≡ false
        → ◌≡◌ {A = Result FeeError ℕ}
            (mul rent 100 >>= λ total.
              mul n rollover_threshold >>= λ leaves. ok (div_ceil total leaves))
            (ok fee)
        → (rent * 100 ≤ fee * (2 ^ tree_height * rollover_threshold))
          × (fee * (2 ^ tree_height * rollover_threshold)
              < rent * 100 + 2 ^ tree_height * rollover_threshold)
    covered n power small some_threshold q =
        let (total, p1, q1) = >>=-eq-ok (mul rent 100) _ q in
        let (leaves, p2, q2) = >>=-eq-ok (mul n rollover_threshold) _ q1 in
        let product : 2 ^ tree_height * rollover_threshold ≡ leaves =
          ap (λ x. x * rollover_threshold) power ∙ mul-ok n rollover_threshold p2 in
        let total_is : rent * 100 ≡ total = mul-ok rent 100 p1 in
        let bounds = div_ceil_bounds total leaves (
          subst (λ x. 0 < x) product
            (product_pos (2 ^ tree_height) rollover_threshold (pow_pos tree_height)
              (ground arith))) in
        let same : div_ceil total leaves ≡ fee = cc q2 in rw (product, total_is, ← same) bounds

    by_threshold :
        (n : ℕ)
        → 2 ^ tree_height ≡ n
        → (ltb 100 rollover_threshold ≡ true) ⊎ (ltb 100 rollover_threshold ≡ false)
        → ((rollover_threshold == 0) ≡ true) ⊎ ((rollover_threshold == 0) ≡ false)
        → ◌≡◌ {A = Result FeeError ℕ}
            (if ltb 100 rollover_threshold
              then err invalid_rollover_threshold
              else if rollover_threshold == 0
              then ok rent
              else mul rent 100 >>= λ total.
                  mul n rollover_threshold >>= λ leaves. ok (div_ceil total leaves))
            (ok fee)
        → ((rollover_threshold ≡ 0) × (fee ≡ rent))
          ⊎ ((rollover_threshold ≤ 100)
              × (rent * 100 ≤ fee * (2 ^ tree_height * rollover_threshold))
              × (fee * (2 ^ tree_height * rollover_threshold)
                  < rent * 100 + 2 ^ tree_height * rollover_threshold))
    by_threshold n power (inl big) t q = absurd (cc (rw big at q))
    by_threshold n power (inr small) (inl none_at) q =
        inl (ground arith, cc (rw (small, none_at) at q))
    by_threshold n power (inr small) (inr some_at) q =
        let low : rollover_threshold ≤ 100 = ground arith in
        let (enough, close) = covered n power low some_at (rw (small, some_at) at q) in
        inr (low, enough, close)
