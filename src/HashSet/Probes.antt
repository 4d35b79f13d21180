-- ===== src/HashSet/Probes.antt =====
-- Which bucket the probes of `insert` choose.
use light_protocol.Prelude.{
  ℕ, zero, suc, ◌+◌, ◌≡◌, sym, ap, subst, Bool, true, false, not, ◌&&◌, Option, none, some, ok, err,
  >>=-eq-ok, ◌==◌, if◌then◌else◌, Bool-cases, inl, inr,
}
use light_protocol.BigInt.{BigUint}
use light_protocol.HashSet.{
  HashSet, HashSetCell, HashSetResult, element_already_exists, is_valid, probe, value_biguint,
  find_loop,
}

same_pair :
    {x y : ℕ} {c d : Bool}
    → ◌≡◌ {A = HashSetResult (Option (ℕ × Bool))} (ok (some (x, c))) (ok (some (y, d)))
    → (x ≡ y) × (c ≡ d)
same_pair e = (cc e, cc e)

module _ (b : BigUint) (s : HashSet) (value current : ℕ) where
  -- Among the `n` probes from `i` on, the first one that does not hit a valid cell hits the bucket
  -- `index`; the flag says whether that bucket is empty. No probe before it hits the value.
  pub data Found : ℕ → ℕ → ℕ → Bool → Type 0 where
    empty : (n i index : ℕ) → probe s value i ≡ ok (index, none) → Found (suc n) i index true
    expired :
        (n i index : ℕ) (cell : HashSetCell)
        → probe s value i ≡ ok (index, some cell)
        → is_valid cell current ≡ false
        → Found (suc n) i index false
    later :
        (n i index j : ℕ) (is_new : Bool) (cell : HashSetCell)
        → probe s value i ≡ ok (j, some cell)
        → is_valid cell current ≡ true
        → (value_biguint b cell == value) ≡ false
        → Found n (i + 1) index is_new
        → Found (suc n) i index is_new

  find_loop-kept :
      (n i : ℕ) (free : ℕ × Bool) (r : Option (ℕ × Bool))
      → find_loop b s value current n i (some free) ≡ ok r
      → r ≡ some free
  unfolding find_loop
  find_loop-kept zero i free r e = cc e
  find_loop-kept (suc n) i free r e =
      let ((j, bucket), p, q) = >>=-eq-ok (probe s value i) _ e in
      kept (find_loop-kept n (i + 1) free r) j bucket q
    where
      kept :
          (find_loop b s value current n (i + 1) (some free) ≡ ok r → r ≡ some free)
          → (j : ℕ) (bucket : Option HashSetCell)
          → (elim bucket [
            | some cell ↦
                if is_valid cell current && (value_biguint b cell == value)
                then err element_already_exists
                else find_loop b s value current n (i + 1) (some free)
            | none ↦ find_loop b s value current n (i + 1) (some free)
          ])
            ≡ ok r
          → r ≡ some free
      kept again j none q = again q
      kept again j (some cell) q =
          elim (Bool-cases (is_valid cell current && (value_biguint b cell == value))) [
            | inl same ↦ absurd (cc (rw same at q))
            | inr other ↦ again (rw other at q)
          ]

  pub find_loop-Found :
      (n i index : ℕ) (is_new : Bool)
      → find_loop b s value current n i none ≡ ok (some (index, is_new))
      → Found n i index is_new
  unfolding find_loop
  find_loop-Found zero i index is_new e = absurd (cc e)
  find_loop-Found (suc n) i index is_new e =
      let ((j, bucket), p, q) = >>=-eq-ok (probe s value i) _ e in
      found (find_loop-Found n (i + 1) index is_new) j bucket p q
    where
      found :
          (find_loop b s value current n (i + 1) none ≡ ok (some (index, is_new))
            → Found n (i + 1) index is_new)
          → (j : ℕ) (bucket : Option HashSetCell) → probe s value i ≡ ok (j, bucket)
          → ◌≡◌ {A = HashSetResult (Option (ℕ × Bool))}
              (elim bucket [
                | some cell ↦
                    if is_valid cell current && (value_biguint b cell == value)
                    then err element_already_exists
                    else find_loop b s value current n
                        (i + 1)
                        (if true && not (is_valid cell current) then some (j, false) else none)
                | none ↦ ok (some (j, true))
              ])
              (ok (some (index, is_new)))
          → Found (suc n) i index is_new
      found again j none p q =
          let (at, new) = same_pair q in
          subst (λ k. Found (suc n) i k is_new) at (subst (Found (suc n) i j) new (empty n i j p))
      found again j (some cell) p q = elim (Bool-cases (is_valid cell current)) [
        | inl valid ↦ elim (Bool-cases (value_biguint b cell == value)) [
          | inl same ↦ absurd (cc (rw (valid, same) at q))
          | inr other ↦ later n i index j is_new cell p valid other (again (rw (valid, other) at q))
        ]
        | inr invalid ↦
            let (at, new) =
              same_pair (sym (ap ok (find_loop-kept n (i + 1) (j, false) _ (rw invalid at q)))) in
            subst (λ k. Found (suc n) i k is_new) at
              (subst (Found (suc n) i j) new (expired n i j cell p invalid))
      ]
