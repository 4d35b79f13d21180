-- ===== src/BoundedVec/Cells.antt =====
-- The allocation behind a vector: `none` is a cell that was never written. A read of such a cell,
-- and any access outside the allocation, is undefined behaviour; the model makes it `panic`.
use light_protocol.Prelude.{
  ℕ, zero, suc, ◌<◌, ◌≡◌, refl, ap, List, [], ◌∷◌, ◌++◌, Option, none, some, arith, Result, ok,
  panic, unwrap, length, get_elem?, set, ltb, if◌then◌else◌,
}

module _ {ℓ} {A : Type ℓ} where
  -- the value in a cell, if it is there and was written
  abbrev pub cell : List (Option A) → ℕ → Option A
  cell [] i = none
  cell (c ∷ cs) zero = c
  cell (c ∷ cs) (suc i) = cell cs i

  -- `ptr.add(i)` read
  abbrev pub read {κ} : {E : Type κ} → List (Option A) → ℕ → Result E A
  read cs i = unwrap (cell cs i)

  -- `ptr::write(ptr.add(i), x)`
  abbrev pub write {κ} : {E : Type κ} → List (Option A) → ℕ → A → Result E (List (Option A))
  write cs i x = if ltb i (length cs) then ok (set cs i (some x)) else panic

  -- the first `n` cells were written
  abbrev pub Written : ℕ → List (Option A) → Type 0
  Written zero cs = Unit
  Written (suc n) [] = ⊥
  Written (suc n) (none ∷ cs) = ⊥
  Written (suc n) (some x ∷ cs) = Written n cs

  -- `slice::from_raw_parts(ptr, n)`
  abbrev pub slice : ℕ → List (Option A) → List A
  slice zero cs = []
  slice (suc n) [] = []
  slice (suc n) (none ∷ cs) = slice n cs
  slice (suc n) (some x ∷ cs) = x ∷ slice n cs

  pub length-slice : (n : ℕ) (cs : List (Option A)) → Written n cs → length (slice n cs) ≡ n
  length-slice zero cs w = refl
  length-slice (suc n) [] w = absurd w
  length-slice (suc n) (none ∷ cs) w = absurd w
  length-slice (suc n) (some x ∷ cs) w = ap suc (length-slice n cs w)

  pub cell-slice :
      (n : ℕ) (cs : List (Option A)) (i : ℕ)
      → Written n cs
      → i < n
      → cell cs i ≡ get_elem? (slice n cs) i
  cell-slice zero cs i w h = elim h [ ]
  cell-slice (suc n) [] i w h = absurd w
  cell-slice (suc n) (none ∷ cs) i w h = absurd w
  cell-slice (suc n) (some x ∷ cs) zero w h = refl
  cell-slice (suc n) (some x ∷ cs) (suc i) w h = cell-slice n cs i w (omega arith)

  pub cell-Written :
      (n : ℕ) (cs : List (Option A)) (i : ℕ) → Written n cs → i < n → (x : A) × (cell cs i ≡ some x)
  cell-Written zero cs i w h = elim h [ ]
  cell-Written (suc n) [] i w h = absurd w
  cell-Written (suc n) (none ∷ cs) i w h = absurd w
  cell-Written (suc n) (some x ∷ cs) zero w h = (x, refl)
  cell-Written (suc n) (some x ∷ cs) (suc i) w h = cell-Written n cs i w (omega arith)

  -- a write just past the written cells
  pub Written-set_end :
      (n : ℕ) (cs : List (Option A)) (x : A)
      → Written n cs
      → n < length cs
      → Written (suc n) (set cs n (some x))
  Written-set_end zero [] x w h = elim h [ ]
  Written-set_end zero (c ∷ cs) x w h = tt
  Written-set_end (suc n) [] x w h = absurd w
  Written-set_end (suc n) (none ∷ cs) x w h = absurd w
  Written-set_end (suc n) (some y ∷ cs) x w h = Written-set_end n cs x w (omega arith)

  pub slice-set_end :
      (n : ℕ) (cs : List (Option A)) (x : A)
      → Written n cs
      → n < length cs
      → slice (suc n) (set cs n (some x)) ≡ slice n cs ++ (x ∷ [])
  slice-set_end zero [] x w h = elim h [ ]
  slice-set_end zero (c ∷ cs) x w h = refl
  slice-set_end (suc n) [] x w h = absurd w
  slice-set_end (suc n) (none ∷ cs) x w h = absurd w
  slice-set_end (suc n) (some y ∷ cs) x w h = ap (λ l. y ∷ l) (slice-set_end n cs x w (omega arith))

  -- a write among the written cells
  pub Written-set :
      (n : ℕ) (cs : List (Option A)) (i : ℕ) (x : A) → Written n cs → Written n (set cs i (some x))
  Written-set zero cs i x w = tt
  Written-set (suc n) [] i x w = absurd w
  Written-set (suc n) (none ∷ cs) i x w = absurd w
  Written-set (suc n) (some y ∷ cs) zero x w = w
  Written-set (suc n) (some y ∷ cs) (suc i) x w = Written-set n cs i x w

  pub slice-set :
      (n : ℕ) (cs : List (Option A)) (i : ℕ) (x : A)
      → Written n cs
      → i < n
      → slice n (set cs i (some x)) ≡ set (slice n cs) i x
  slice-set zero cs i x w h = elim h [ ]
  slice-set (suc n) [] i x w h = absurd w
  slice-set (suc n) (none ∷ cs) i x w h = absurd w
  slice-set (suc n) (some y ∷ cs) zero x w h = refl
  slice-set (suc n) (some y ∷ cs) (suc i) x w h =
      ap (λ l. y ∷ l) (slice-set n cs i x w (omega arith))

  pub cell-set_self :
      (cs : List (Option A)) (i : ℕ) (x : A) → i < length cs → cell (set cs i (some x)) i ≡ some x
  cell-set_self [] i x h = elim h [ ]
  cell-set_self (c ∷ cs) zero x h = refl
  cell-set_self (c ∷ cs) (suc i) x h = cell-set_self cs i x (omega arith)

  pub cell-set_ne :
      (cs : List (Option A)) (i j : ℕ) (x : A)
      → (i ≡ j → ⊥)
      → cell (set cs i (some x)) j ≡ cell cs j
  cell-set_ne [] i j x h = refl
  cell-set_ne (c ∷ cs) zero zero x h = absurd (h refl)
  cell-set_ne (c ∷ cs) zero (suc j) x h = refl
  cell-set_ne (c ∷ cs) (suc i) zero x h = refl
  cell-set_ne (c ∷ cs) (suc i) (suc j) x h = cell-set_ne cs i j x (λ e. h (ap suc e))
