-- ===== src/System/SumCheck/Balance.antt =====
-- `sum_check` passes exactly when the amounts balance.
use light_protocol.Prelude.{
  ℕ, ◌+◌, ◌-◌, ◌≤◌, ◌<◌, ◌≡◌, refl, ap, ◌∙◌, arith, Bool, true, false, List, [], ◌∷◌, Option, none,
  some, ok, err, panic, >>=-eq-ok, ok_or, ltb, leb, ◌==◌, if◌then◌else◌, Bool-cases, inl, inr,
  lt→ltb, le→leb,
}
use light_protocol.Prelude.Words.{checked_add, checked_sub, word}
use light_protocol.System.Accounts.{
  SystemResult, SystemProgramError, sum_check_failed, compute_input_sum_failed,
  compute_output_sum_failed, compute_rpc_sum_failed, PackedCompressedAccountWithMerkleContext,
  OutputCompressedAccountWithPackedContext,
}
use light_protocol.System.SumCheck.{
  add_inputs, sub_outputs, move_lamports, pay_relay_fee, sum_check,
}

-- the lamports of the accounts, as numbers of any size
abbrev pub input_sum : List PackedCompressedAccountWithMerkleContext → ℕ
input_sum [] = 0
input_sum (account ∷ accounts) = account.compressed_account.lamports + input_sum accounts

abbrev pub output_sum : List OutputCompressedAccountWithPackedContext → ℕ
output_sum [] = 0
output_sum (account ∷ accounts) = account.compressed_account.lamports + output_sum accounts

abbrev pub amount : Option ℕ → ℕ
amount none = 0
amount (some n) = n

abbrev pub compressed : Option ℕ → Bool → ℕ
compressed lamports is_compress = if is_compress then amount lamports else 0

abbrev pub decompressed : Option ℕ → Bool → ℕ
decompressed lamports is_compress = if is_compress then 0 else amount lamports

-- no input account is read-only
abbrev pub IsWritable : List PackedCompressedAccountWithMerkleContext → Type 0
IsWritable [] = Unit {0}
IsWritable (account ∷ accounts) = (account.read_only ≡ false) × IsWritable accounts

add_ok : (a b : ℕ) (e : SystemProgramError) {r : ℕ} → ok_or (checked_add a b) e ≡ ok r → r ≡ a + b
add_ok a b e p = elim (Bool-cases (ltb (a + b) word)) [
  | inl fits ↦ cc (rw fits at p)
  | inr over ↦ absurd (cc (rw over at p))
]

sub_ok : (a b : ℕ) (e : SystemProgramError) {r : ℕ} → ok_or (checked_sub a b) e ≡ ok r → r + b ≡ a
sub_ok a b e {r} p = elim (Bool-cases (leb b a)) [
  | inl fits ↦ let same : a - b ≡ r = cc (rw fits at p) in ground arith
  | inr under ↦ absurd (cc (rw under at p))
]

add_inputs-ok :
    (sum : ℕ) (inputs : List PackedCompressedAccountWithMerkleContext) {r : ℕ}
    → add_inputs sum inputs ≡ ok r
    → r ≡ sum + input_sum inputs
unfolding add_inputs
add_inputs-ok sum [] {r} e = let same : sum ≡ r = cc e in omega arith
add_inputs-ok sum (account ∷ accounts) e =
    let (next, p, q) =
      >>=-eq-ok
        (if account.read_only
          then panic
          else ok_or (checked_add sum account.compressed_account.lamports) compute_input_sum_failed)
        _ e in
    let step : next ≡ sum + account.compressed_account.lamports =
      elim (Bool-cases account.read_only) [
        | inl ro ↦ absurd (cc (rw ro at p))
        | inr w ↦
            add_ok sum account.compressed_account.lamports compute_input_sum_failed (rw w at p)
      ] in
    omega (arith, add_inputs-ok next accounts q, step)

sub_outputs-ok :
    (sum : ℕ) (outputs : List OutputCompressedAccountWithPackedContext) {r : ℕ}
    → sub_outputs sum outputs ≡ ok r
    → r + output_sum outputs ≡ sum
unfolding sub_outputs
sub_outputs-ok sum [] {r} e = let same : sum ≡ r = cc e in omega arith
sub_outputs-ok sum (account ∷ accounts) e =
    let (next, p, q) =
      >>=-eq-ok
        (ok_or (checked_sub sum account.compressed_account.lamports) compute_output_sum_failed) _
        e in
    omega (
      arith,
      sub_outputs-ok next accounts q,
      sub_ok sum account.compressed_account.lamports compute_output_sum_failed p,
    )

move_lamports-ok :
    (sum : ℕ) (lamports : Option ℕ) (is_compress : Bool) {r : ℕ}
    → move_lamports sum lamports is_compress ≡ ok r
    → r + decompressed lamports is_compress ≡ sum + compressed lamports is_compress
unfolding move_lamports
move_lamports-ok sum none true {r} e = let same : sum ≡ r = cc e in omega arith
move_lamports-ok sum none false {r} e = let same : sum ≡ r = cc e in omega arith
move_lamports-ok sum (some n) true e = omega (arith, add_ok sum n compute_output_sum_failed e)
move_lamports-ok sum (some n) false e = omega (arith, sub_ok sum n compute_output_sum_failed e)

pay_relay_fee-ok :
    (sum : ℕ) (fee : Option ℕ) {r : ℕ} → pay_relay_fee sum fee ≡ ok r → r + amount fee ≡ sum
unfolding pay_relay_fee
pay_relay_fee-ok sum none {r} e = let same : sum ≡ r = cc e in omega arith
pay_relay_fee-ok sum (some n) e = sub_ok sum n compute_rpc_sum_failed e

-- If `sum_check` passes, the lamports of the input accounts, with those that are compressed,
-- are the lamports of the output accounts, with those that are decompressed and the relay fee,
-- as sums of numbers of any size.
pub sum_check-balanced :
    (inputs : List PackedCompressedAccountWithMerkleContext)
    (outputs : List OutputCompressedAccountWithPackedContext) (relay_fee lamports : Option ℕ)
    (is_compress : Bool)
    → sum_check inputs outputs relay_fee lamports is_compress ≡ ok tt
    → input_sum inputs + compressed lamports is_compress
      ≡ output_sum outputs + decompressed lamports is_compress + amount relay_fee
unfolding sum_check
sum_check-balanced inputs outputs relay_fee lamports is_compress e =
    let (sum, p, q) = >>=-eq-ok (add_inputs 0 inputs) _ e in
    let (sum1, p1, q1) = >>=-eq-ok (move_lamports sum lamports is_compress) _ q in
    let (sum2, p2, q2) = >>=-eq-ok (sub_outputs sum1 outputs) _ q1 in
    let (sum3, p3, q3) = >>=-eq-ok (pay_relay_fee sum2 relay_fee) _ q2 in
    let nothing_left : sum3 ≡ 0 = zero_left sum3 q3 in
    omega (
      arith,
      add_inputs-ok 0 inputs p,
      move_lamports-ok sum lamports is_compress p1,
      sub_outputs-ok sum1 outputs p2,
      pay_relay_fee-ok sum2 relay_fee p3,
      nothing_left,
    )
  where
    zero_left :
        (n : ℕ)
        → ◌≡◌ {A = SystemResult (Unit {0})} (if n == 0 then ok tt else err sum_check_failed) (ok tt)
        → n ≡ 0
    zero_left n e = elim (Bool-cases (n == 0)) [
      | inl z ↦ ground arith
      | inr nz ↦ absurd (cc (rw nz at e))
    ]

add_inputs_lem :
    (sum : ℕ) (inputs : List PackedCompressedAccountWithMerkleContext)
    → IsWritable inputs
    → sum + input_sum inputs < word
    → add_inputs sum inputs ≡ ok (sum + input_sum inputs)
unfolding add_inputs
add_inputs_lem sum [] w lt = ap ok (omega arith)
add_inputs_lem sum (account ∷ accounts) (writable, w) lt =
    rw (writable, lt→ltb (sum + account.compressed_account.lamports) word (omega arith))
      (add_inputs_lem (sum + account.compressed_account.lamports) accounts w (omega arith)
        ∙ ap ok (omega arith))

sub_outputs_lem :
    (sum : ℕ) (outputs : List OutputCompressedAccountWithPackedContext)
    → output_sum outputs ≤ sum
    → sub_outputs sum outputs ≡ ok (sum - output_sum outputs)
unfolding sub_outputs
sub_outputs_lem sum [] le = ap ok (omega arith)
sub_outputs_lem sum (account ∷ accounts) le =
    rw (le→leb account.compressed_account.lamports sum (omega arith)) (
      sub_outputs_lem (sum - account.compressed_account.lamports) accounts (omega arith)
      ∙ ap ok (omega arith))

move_lamports_lem :
    (sum : ℕ) (lamports : Option ℕ) (is_compress : Bool)
    → sum + compressed lamports is_compress < word
    → decompressed lamports is_compress ≤ sum
    → move_lamports sum lamports is_compress
      ≡ ok (sum + compressed lamports is_compress - decompressed lamports is_compress)
unfolding move_lamports
move_lamports_lem sum none true lt le = ap ok (omega arith)
move_lamports_lem sum none false lt le = ap ok (omega arith)
move_lamports_lem sum (some n) true lt le = rw (lt→ltb (sum + n) word lt) (ap ok (omega arith))
move_lamports_lem sum (some n) false lt le = rw (le→leb n sum le) (ap ok (omega arith))

pay_relay_fee_lem :
    (sum : ℕ) (fee : Option ℕ) → amount fee ≤ sum → pay_relay_fee sum fee ≡ ok (sum - amount fee)
unfolding pay_relay_fee
pay_relay_fee_lem sum none le = ap ok (omega arith)
pay_relay_fee_lem sum (some n) le = rw (le→leb n sum le) refl

-- If no input account is read-only, the sum of the inputs with what is compressed is below 2 ^
-- 64, what is decompressed is at most the sum of the inputs, and the amounts balance,
-- `sum_check` passes.
pub sum_check_complete :
    (inputs : List PackedCompressedAccountWithMerkleContext)
    (outputs : List OutputCompressedAccountWithPackedContext) (relay_fee lamports : Option ℕ)
    (is_compress : Bool)
    → IsWritable inputs
    → input_sum inputs + compressed lamports is_compress < word
    → decompressed lamports is_compress ≤ input_sum inputs
    → input_sum inputs + compressed lamports is_compress
      ≡ output_sum outputs + decompressed lamports is_compress + amount relay_fee
    → sum_check inputs outputs relay_fee lamports is_compress ≡ ok tt
unfolding sum_check
sum_check_complete inputs outputs relay_fee lamports is_compress writable fits enough balance =
    let sum1 =
      input_sum inputs + compressed lamports is_compress - decompressed lamports is_compress in
    let p : add_inputs 0 inputs ≡ ok (input_sum inputs) =
      add_inputs_lem 0 inputs writable (omega arith) ∙ ap ok (omega arith) in
    let nothing_left : (sum1 - output_sum outputs - amount relay_fee == 0) ≡ true =
      equal _ (omega arith) in
    rw
      (
        p,
        move_lamports_lem (input_sum inputs) lamports is_compress fits enough,
        sub_outputs_lem sum1 outputs (omega arith),
        pay_relay_fee_lem (sum1 - output_sum outputs) relay_fee (omega arith),
        nothing_left,
      )
      refl
  where
    equal : (n : ℕ) → n ≡ 0 → (n == 0) ≡ true
    equal n e = ground arith
