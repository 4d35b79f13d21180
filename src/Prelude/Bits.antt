-- ===== src/Prelude/Bits.antt =====
-- The bit operations of the program at variables: `^`, `& 1` and `leading_zeros`.
use Prim.Native.Nat.{
  ℕ, zero, suc, ◌+◌, ◌*◌, ◌/◌, ◌%◌, ◌^◌, ◌≤◌, ◌<◌, min, bit_and, bit_xor, digits, bit_and-bitwise,
  bit_xor-bitwise, differ,
}
use mathlib.Core.Path.{◌≡◌, refl, ◌∙◌, ap, ap₂}
use mathlib.Core.Logic.{◌≢◌}
use native.Mathlib.Omega.{arith}
use native.Mathlib.Nat.{pow-suc, add-suc, add-zero, mul-one}
use mathlib.Core.Logic.{inl, inr}
use light_protocol.Prelude.Tests.{leb, ◌==◌, if◌then◌else◌, Bool-cases}

pub pow_pos : (n : ℕ) → 0 < 2 ^ n
pow_pos zero = omega arith
pow_pos (suc n) = omega (arith, pow-suc 2 n, pow_pos n)

abbrev xor_digits : ℕ → ℕ → ℕ → ℕ
xor_digits n a b = digits (λ b. b) differ n a b

-- more fuel than the first argument changes nothing
xor_digits_fuel : (n m a b : ℕ) → a ≤ n → a ≤ m → xor_digits n a b ≡ xor_digits m a b
xor_digits_fuel zero zero a b p q = refl
xor_digits_fuel zero (suc m) zero b p q = refl
xor_digits_fuel zero (suc m) (suc a) b p q = absurd (omega arith)
xor_digits_fuel (suc n) zero zero b p q = refl
xor_digits_fuel (suc n) zero (suc a) b p q = absurd (omega arith)
xor_digits_fuel (suc n) (suc m) zero b p q = refl
xor_digits_fuel (suc n) (suc m) (suc a) b p q =
    ap (λ k. k * 2 + differ (suc a % 2) (b % 2))
      (xor_digits_fuel n m (suc a / 2) (b / 2) (omega arith) (omega arith))

below_one : (a : ℕ) → a < 2 ^ 0 → a ≡ 0
below_one a h = omega arith

zero-bit_xor : (b : ℕ) → bit_xor 0 b ≡ b
zero-bit_xor b = bit_xor-bitwise 0 b

differ_bit : (a b : ℕ) → a < 2 → b < 2 → differ a b ≡ (a + b) % 2
differ_bit zero b h k = omega arith
differ_bit (suc zero) zero h k = refl
differ_bit (suc zero) (suc zero) h k = refl
differ_bit (suc zero) (suc (suc b)) h k = absurd (omega arith)
differ_bit (suc (suc a)) b h k = absurd (omega arith)

pub bit_xor_step : (a b : ℕ) → bit_xor a b ≡ bit_xor (a / 2) (b / 2) * 2 + (a % 2 + b % 2) % 2
bit_xor_step zero b = omega (arith, zero-bit_xor b, zero-bit_xor (b / 2))
bit_xor_step (suc a) b = omega (
  arith,
  bit_xor-bitwise (suc a) b,
  bit_xor-bitwise (suc a / 2) (b / 2),
  xor_digits_fuel a (suc a / 2) (suc a / 2) (b / 2) (omega arith) (omega arith),
  differ_bit (suc a % 2) (b % 2) (omega arith) (omega arith),
)

pub bit_xor-half : (a b : ℕ) → bit_xor a b / 2 ≡ bit_xor (a / 2) (b / 2)
bit_xor-half a b = omega (arith, bit_xor_step a b)

bit_xor_self_fuel : (n a : ℕ) → a ≤ n → bit_xor a a ≡ 0
bit_xor_self_fuel n zero h = zero-bit_xor 0
bit_xor_self_fuel zero (suc a) h = absurd (omega arith)
bit_xor_self_fuel (suc n) (suc a) h =
    omega (arith, bit_xor_step (suc a) (suc a), bit_xor_self_fuel n (suc a / 2) (omega arith))

pub bit_xor_self : (a : ℕ) → bit_xor a a ≡ 0
bit_xor_self a = bit_xor_self_fuel a a (omega arith)

pub bit_xor-lt : (w a b : ℕ) → a < 2 ^ w → b < 2 ^ w → bit_xor a b < 2 ^ w
bit_xor-lt zero a b h k = omega (arith, ap₂ bit_xor (below_one a h) (below_one b k), zero-bit_xor 0)
bit_xor-lt (suc w) a b h k = omega (
  arith,
  pow-suc 2 w,
  bit_xor_step a b,
  bit_xor-lt w (a / 2) (b / 2) (omega (arith, pow-suc 2 w)) (omega (arith, pow-suc 2 w)),
)

bit_xor_pos_fuel : (n a b : ℕ) → a ≤ n → a ≢ b → 0 < bit_xor a b
bit_xor_pos_fuel zero a b h ne = omega (arith, zero-bit_xor b, ap (λ k. bit_xor k b) (le_zero h))
  where
    le_zero : {k : ℕ} → k ≤ 0 → k ≡ 0
    le_zero p = omega arith
bit_xor_pos_fuel (suc n) a b h ne = elim (Bool-cases (a / 2 == b / 2)) [
  | inl e ↦ ground (arith, bit_xor_step a b)
  | inr e ↦
      ground
        (arith, bit_xor_step a b, bit_xor_pos_fuel n (a / 2) (b / 2) (omega arith) (ground arith))
]

pub bit_xor_pos : (a b : ℕ) → a ≢ b → 0 < bit_xor a b
bit_xor_pos a b ne = bit_xor_pos_fuel a a b (omega arith) ne

pub bit_and-one : (a : ℕ) → bit_and a 1 ≡ a % 2
bit_and-one zero = bit_and-bitwise 0 1
bit_and-one (suc a) = omega (arith, bit_and-bitwise (suc a) 1, and_zero a (suc a / 2))
  where
    and_zero : (n a : ℕ) → digits (λ b. zero) min n a 0 ≡ 0
    and_zero zero a = refl
    and_zero (suc n) zero = refl
    and_zero (suc n) (suc a) = omega (arith, and_zero n (suc a / 2))

-- `leading_zeros` of a `w`-bit word
abbrev pub leading_zeros : ℕ → ℕ → ℕ
leading_zeros zero x = 0
leading_zeros (suc w) x = if leb (2 ^ w) x then 0 else suc (leading_zeros w x)

pub leading_zeros-half : (w x : ℕ) → 2 ≤ x → leading_zeros (suc w) x ≡ leading_zeros w (x / 2)
leading_zeros-half zero x h = ground arith
leading_zeros-half (suc w) x h = ground (arith, leading_zeros-half w x h, pow-suc 2 w)

pub leading_zeros-one : (w : ℕ) → leading_zeros (suc w) 1 ≡ w
leading_zeros-one zero = refl
leading_zeros-one (suc w) = ground (arith, leading_zeros-one w, pow-suc 2 w, pow_pos w)

double : (x p : ℕ) → 0 < x → (2 ≤ x * 2 ^ suc p) × (x * 2 ^ suc p / 2 ≡ x * 2 ^ p)
double x p h =
    let twice : x * 2 ^ suc p ≡ 2 * (x * 2 ^ p) = omega (arith, ap (λ k. x * k) (pow-suc 2 p)) in
    let pos : 0 < x * 2 ^ p = grind (arith, pow_pos p) in (omega arith, omega arith)

-- the padding to the full word does not change the count
pub leading_zeros-shift :
    (w p x : ℕ) → 0 < x → leading_zeros (w + p) (x * 2 ^ p) ≡ leading_zeros w x
leading_zeros-shift w zero x h = ap₂ leading_zeros (add-zero w) (mul-one x)
leading_zeros-shift w (suc p) x h =
    ap (λ k. leading_zeros k (x * 2 ^ suc p)) (add-suc w p)
    ∙ leading_zeros-half (w + p) (x * 2 ^ suc p) (double x p h).0
    ∙ ap (leading_zeros (w + p)) (double x p h).1
    ∙ leading_zeros-shift w p x h

pub shift-lt : (w p x : ℕ) → x < 2 ^ w → x * 2 ^ p < 2 ^ (w + p)
shift-lt w zero x h = rw (add-zero w, mul-one x) h
shift-lt w (suc p) x h =
    let twice : x * 2 ^ suc p ≡ 2 * (x * 2 ^ p) = omega (arith, ap (λ k. x * k) (pow-suc 2 p)) in
    rw (add-suc w p) (omega (arith, twice, pow-suc 2 (w + p), shift-lt w p x h))
