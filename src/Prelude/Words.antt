-- ===== src/Prelude/Words.antt =====
-- Machine integers as native numbers: the checked and the panicking operations of `u64` and
-- `usize` (the programs run on a 64-bit target).
use light_protocol.Prelude.Tests.{ltb, leb, if◌then◌else◌}
use light_protocol.Prelude.Outcome.{Result, ok, panic, ok_or}
use light_protocol.Prelude.Tests.{Bool-cases}
use Prim.Native.Nat.{◌≤◌, ◌<◌}
use mathlib.Core.Path.{◌≡◌}
use mathlib.Core.Logic.{inl, inr}
use native.Mathlib.Omega.{arith}
use Prim.Native.Nat.{ℕ, ◌+◌, ◌-◌, ◌*◌, ◌/◌, ◌%◌, ◌^◌}
use mathlib.Core.Option.{Option, none, some}

-- 2 ^ 64
abbrev pub word : ℕ
word = 18446744073709551616

-- `checked_add`
abbrev pub checked_add : ℕ → ℕ → Option ℕ
checked_add a b = if ltb (a + b) word then some (a + b) else none

-- `checked_sub`
abbrev pub checked_sub : ℕ → ℕ → Option ℕ
checked_sub a b = if leb b a then some (a - b) else none

-- `a + b`, which panics on overflow
abbrev pub add {ℓ} : {E : Type ℓ} → ℕ → ℕ → Result E ℕ
add a b = if ltb (a + b) word then ok (a + b) else panic

-- `a * b`, which panics on overflow
abbrev pub mul {ℓ} : {E : Type ℓ} → ℕ → ℕ → Result E ℕ
mul a b = if ltb (a * b) word then ok (a * b) else panic

-- `a - b`, which panics on underflow
abbrev pub sub {ℓ} : {E : Type ℓ} → ℕ → ℕ → Result E ℕ
sub a b = if leb b a then ok (a - b) else panic

-- `a / b` and `a % b`, which panic at 0
abbrev pub div {ℓ} : {E : Type ℓ} → ℕ → ℕ → Result E ℕ
div a b = if ltb 0 b then ok (a / b) else panic

abbrev pub rem {ℓ} : {E : Type ℓ} → ℕ → ℕ → Result E ℕ
rem a b = if ltb 0 b then ok (a % b) else panic

-- the number that `a >> k` gives
abbrev pub shr : ℕ → ℕ → ℕ
shr a k = a / 2 ^ k

-- `a >> k`, which panics from the width on
abbrev pub shift_right {ℓ} : {E : Type ℓ} → ℕ → ℕ → Result E ℕ
shift_right a k = if ltb k 64 then ok (shr a k) else panic

-- `1 << k`, which panics from the width on
abbrev pub one_shl {ℓ} : {E : Type ℓ} → ℕ → Result E ℕ
one_shl k = if ltb k 64 then ok (2 ^ k) else panic

-- what an operation that returns has computed
pub add-ok {ℓ} :
    {E : Type ℓ} (a b : ℕ) {r : ℕ}
    → ◌≡◌ {A = Result E ℕ} (add a b) (ok r)
    → (a + b ≡ r) × (r < word)
add-ok a b {r} p = elim (Bool-cases (ltb (a + b) word)) [
  | inl fits ↦ let same : a + b ≡ r = cc (rw fits at p) in (same, ground arith)
  | inr over ↦ absurd (cc (rw over at p))
]

pub mul-ok {ℓ} : {E : Type ℓ} (a b : ℕ) {r : ℕ} → ◌≡◌ {A = Result E ℕ} (mul a b) (ok r) → a * b ≡ r
mul-ok a b p = elim (Bool-cases (ltb (a * b) word)) [
  | inl fits ↦ cc (rw fits at p)
  | inr over ↦ absurd (cc (rw over at p))
]

pub div-ok {ℓ} :
    {E : Type ℓ} (a b : ℕ) {r : ℕ} → ◌≡◌ {A = Result E ℕ} (div a b) (ok r) → (0 < b) × (a / b ≡ r)
div-ok a b p = elim (Bool-cases (ltb 0 b)) [
  | inl some_b ↦ (ground arith, cc (rw some_b at p))
  | inr none_b ↦ absurd (cc (rw none_b at p))
]

pub rem-ok {ℓ} :
    {E : Type ℓ} (a b : ℕ) {r : ℕ} → ◌≡◌ {A = Result E ℕ} (rem a b) (ok r) → (0 < b) × (a % b ≡ r)
rem-ok a b p = elim (Bool-cases (ltb 0 b)) [
  | inl some_b ↦ (ground arith, cc (rw some_b at p))
  | inr none_b ↦ absurd (cc (rw none_b at p))
]

pub checked_sub-ok {ℓ} :
    {E : Type ℓ} (a b : ℕ) (e : E) {r : ℕ}
    → ok_or (checked_sub a b) e ≡ ok r
    → (b ≤ a) × (a - b ≡ r)
checked_sub-ok a b e p = elim (Bool-cases (leb b a)) [
  | inl fits ↦ (ground arith, cc (rw fits at p))
  | inr under ↦ absurd (cc (rw under at p))
]

pub shift_right-ok {ℓ} :
    {E : Type ℓ} (a k : ℕ) {r : ℕ}
    → ◌≡◌ {A = Result E ℕ} (shift_right a k) (ok r)
    → (k < 64) × (shr a k ≡ r)
shift_right-ok a k p = elim (Bool-cases (ltb k 64)) [
  | inl fits ↦ (ground arith, cc (rw fits at p))
  | inr over ↦ absurd (cc (rw over at p))
]

pub sub-ok {ℓ} : {E : Type ℓ} (a b : ℕ) {r : ℕ} → ◌≡◌ {A = Result E ℕ} (sub a b) (ok r) → r + b ≡ a
sub-ok a b {r} p = elim (Bool-cases (leb b a)) [
  | inl fits ↦ let same : a - b ≡ r = cc (rw fits at p) in ground arith
  | inr under ↦ absurd (cc (rw under at p))
]
