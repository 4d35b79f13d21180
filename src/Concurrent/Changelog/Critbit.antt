-- ===== src/Concurrent/Changelog/Critbit.antt =====
-- `intersection_index` is the level at which the paths of two leaves meet.
use Prim.Native.Nat.{bit_xor}
use light_protocol.Prelude.{
  ℕ, zero, suc, ◌+◌, ◌-◌, ◌*◌, ◌/◌, ◌%◌, ◌^◌, ◌≤◌, ◌<◌, ◌≡◌, ◌≢◌, sym, ap, ◌∙◌, arith, true, ok,
  leb, ◌==◌, if◌then◌else◌, Bool-cases, inl, inr, mod-eq_of_lt, lt→ltb, le→leb,
}
use native.Mathlib.Nat.{pow-suc}
use light_protocol.Prelude.Words.{word}
use light_protocol.Prelude.Bits.{
  leading_zeros, leading_zeros-half, leading_zeros-one, leading_zeros-shift, bit_xor-half,
  bit_xor_pos, bit_xor_self, bit_xor_step, bit_xor-lt, shift-lt,
}
use light_protocol.Hasher.{Hasher}
use light_protocol.Concurrent.Changelog.{ChangelogEntry, intersection_index}

-- The level below the lowest common ancestor of leaves `i` and `j` of a tree of the given height.
abbrev pub critbit : ℕ → ℕ → ℕ → ℕ
critbit zero i j = 0
critbit (suc height) i j = if i / 2 == j / 2 then 0 else suc (critbit height (i / 2) (j / 2))

parity_ne : (i j : ℕ) → i ≢ j → i / 2 ≡ j / 2 → (i % 2 + j % 2) % 2 ≡ 1
parity_ne i j ne e = ground arith

bit_xor_bit : (i j : ℕ) → i ≢ j → i / 2 ≡ j / 2 → bit_xor i j ≡ 1
bit_xor_bit i j ne e = omega (
  arith,
  bit_xor_step i j,
  ap (λ k. bit_xor k (j / 2)) e,
  bit_xor_self (j / 2),
  parity_ne i j ne e,
)

-- the position of the highest bit that differs
leading_zeros-critbit :
    (height i j : ℕ)
    → i < 2 ^ height
    → j < 2 ^ height
    → i ≢ j
    → suc (critbit height i j + leading_zeros height (bit_xor i j)) ≡ height
leading_zeros-critbit zero i j hi hj ne = absurd (omega arith)
leading_zeros-critbit (suc height) i j hi hj ne = elim (Bool-cases (i / 2 == j / 2)) [
  | inl e ↦
      let level : critbit (suc height) i j ≡ 0 = ground arith in
      let count : leading_zeros (suc height) (bit_xor i j) ≡ height =
        ap (leading_zeros (suc height)) (bit_xor_bit i j ne (ground arith))
        ∙ leading_zeros-one height in
      omega (arith, level, count)
  | inr e ↦
      let away : i / 2 ≢ j / 2 = ground arith in
      let level : critbit (suc height) i j ≡ suc (critbit height (i / 2) (j / 2)) = ground arith in
      let big : 2 ≤ bit_xor i j =
        omega (arith, bit_xor-half i j, bit_xor_pos (i / 2) (j / 2) away) in
      let count : leading_zeros (suc height) (bit_xor i j)
          ≡ leading_zeros height (bit_xor (i / 2) (j / 2)) =
        leading_zeros-half height (bit_xor i j) big
        ∙ ap (leading_zeros height) (bit_xor-half i j) in
      omega (
        arith,
        level,
        count,
        leading_zeros-critbit height (i / 2) (j / 2) (omega (arith, pow-suc 2 height))
            (omega (arith, pow-suc 2 height)) away,
      )
]

add_back : (k : ℕ) → k ≤ 64 → k + (64 - k) ≡ 64
add_back k le = omega arith

leading_zeros-shift_word :
    (height x : ℕ)
    → height ≤ 64
    → 0 < x
    → leading_zeros 64 (x * 2 ^ (64 - height)) ≡ leading_zeros height x
leading_zeros-shift_word height x small pos =
    ap (λ k. leading_zeros k (x * 2 ^ (64 - height))) (sym (add_back height small))
    ∙ leading_zeros-shift height (64 - height) x pos

shift_fits : (height x : ℕ) → height ≤ 64 → x < 2 ^ height → x * 2 ^ (64 - height) < word
shift_fits height x small lt =
    rw (ap (λ k. 2 ^ k) (add_back height small)) at (shift-lt height (64 - height) x lt)

not_root : (height i j : ℕ) → i < 2 ^ height → j < 2 ^ height → i ≢ j → 0 < height
not_root zero i j hi hj ne = absurd (omega arith)
not_root (suc height) i j hi hj ne = omega arith

-- For two different leaves of a tree of height at most 64, `intersection_index` returns the
-- level below the lowest common ancestor of the leaves, and does not panic.
pub intersection_index_lem :
    (h : Hasher) (height i : ℕ) (entry : ChangelogEntry h.Hash)
    → height ≤ 64
    → i < 2 ^ height
    → entry.index < 2 ^ height
    → i ≢ entry.index
    → intersection_index h height entry i ≡ ok (critbit height i entry.index)
unfolding intersection_index
intersection_index_lem h height i entry small hi hj ne =
    let x = bit_xor i entry.index in
    let pos : 0 < height = not_root height i entry.index hi hj ne in
    let fits : x * 2 ^ (64 - height) < word =
      shift_fits height x small (bit_xor-lt height i entry.index hi hj) in
    let total : suc (critbit height i entry.index + leading_zeros height x) ≡ height =
      leading_zeros-critbit height i entry.index hi hj ne in
    let some_zeros : leb (leading_zeros height x) (height - 1) ≡ true = le→leb _ _ (omega arith) in
    rw
      (
        le→leb height 64 small,
        lt→ltb (64 - height) 64 (omega arith),
        le→leb 1 height pos,
        mod-eq_of_lt fits,
        leading_zeros-shift_word height x small (bit_xor_pos i entry.index ne),
        some_zeros,
      )
      (ap ok (omega arith))
