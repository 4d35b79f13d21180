-- ===== src/Prelude/Arith.antt =====
-- Slots of a ring of `cap` cells, and powers of two.
use Prim.Native.Nat.{ℕ, zero, suc, ◌+◌, ◌-◌, ◌*◌, ◌/◌, ◌%◌, ◌^◌, ◌≤◌, ◌<◌}
use mathlib.Core.Path.{◌≡◌, sym, ap, ◌∙◌}
use mathlib.Core.Logic.{◌≢◌}
use native.Mathlib.Omega.{arith}
use mathlib.Core.Bool.{Bool, true, false, ◌&&◌}
use native.Mathlib.Nat.{
  lt-mul-div-succ, mul_comm, add-zero, add-suc, pow-suc, div-div-eq-div-mul, div-eq_of_lt,
}
use mathlib.Core.Logic.{inl, inr}
use light_protocol.Prelude.Tests.{ltb, ◌==◌, if◌then◌else◌, Bool-cases}
use light_protocol.Prelude.Bits.{pow_pos}

pub step-mod : (cap h : ℕ) → h < cap → (h + 1) % cap ≡ (if h + 1 == cap then 0 else h + 1)
step-mod cap h lt = grind arith

-- `m` steps round the ring
abbrev pub advance : ℕ → ℕ → ℕ → ℕ
advance cap h zero = h
advance cap h (suc m) = advance cap ((h + 1) % cap) m

pub advance_closed :
    (cap h m : ℕ)
    → h < cap
    → m < cap
    → advance cap h m ≡ (if ltb (h + m) cap then h + m else h + m - cap)
advance_closed cap h zero lt lm = ground arith
advance_closed cap h (suc m) lt lm =
    ground (arith, step-mod cap h lt, advance_closed cap ((h + 1) % cap) m)

pub advance-lt : (cap h m : ℕ) → h < cap → m < cap → advance cap h m < cap
advance-lt cap h m lt lm = ground (arith, advance_closed cap h m lt lm)

pub advance-ne : (cap h m : ℕ) → h < cap → suc m < cap → advance cap h (suc m) ≢ h
advance-ne cap h m lt lm = ground (arith, advance_closed cap h (suc m) lt lm)

pub shr-suc : (i l : ℕ) → i / 2 ^ suc l ≡ i / 2 ^ l / 2
shr-suc i l = ap (λ k. i / k) (pow-suc 2 l) ∙ sym (div-div-eq-div-mul i (2 ^ l) 2)

pub shr-zero : (i : ℕ) → i / 2 ^ 0 ≡ i
shr-zero i = omega arith

pub shr-eq-zero : (i l : ℕ) → i < 2 ^ l → i / 2 ^ l ≡ 0
shr-eq-zero i l h = div-eq_of_lt h

-- whether adding one to `n` carries into bit `l`
abbrev pub carry : ℕ → ℕ → Bool
carry n zero = true
carry n (suc l) = carry n l && (n / 2 ^ l % 2 == 1)

-- adding one changes the bits that the carry reaches
pub shr-add_one : (n l : ℕ) → (n + 1) / 2 ^ l ≡ (if carry n l then n / 2 ^ l + 1 else n / 2 ^ l)
shr-add_one n zero = omega arith
shr-add_one n (suc l) = ground (arith, shr-suc (n + 1) l, shr-suc n l, shr-add_one n l)

-- beyond a zero bit that the carry reaches, it reaches none
pub carry_stops : (n l k : ℕ) → n / 2 ^ l % 2 ≡ 0 → carry n (suc l + k) ≡ false
carry_stops n l zero e = rw add-zero (ground arith)
carry_stops n l (suc k) e = rw add-suc (ground (arith, carry_stops n l k e))

-- the node to the right of the path of `n` lies beyond `n`
pub lt-shr_next : (n l : ℕ) → n + 1 ≤ (n / 2 ^ l + 1) * 2 ^ l
lt-shr_next n l = omega (arith, lt-mul-div-succ n (pow_pos l), mul_comm (2 ^ l) (n / 2 ^ l + 1))

pub carry_reach : (n l i : ℕ) → n / 2 ^ i % 2 ≡ 0 → carry n l ≡ true → l < suc i
carry_reach n l i even carried = elim (Bool-cases (ltb i l)) [
  | inl beyond ↦
      let e : l ≡ suc i + (l - suc i) = ground arith in
      cc (carried, ap (carry n) e, carry_stops n i (l - suc i) even)
  | inr within ↦ ground arith
]
