-- ===== src/System/Append/Addresses.antt =====
-- programs/system/src/invoke/append_state.rs: which address the check of an output account takes away.
use light_protocol.Prelude.{
  ℕ, zero, suc, ◌<◌, ◌≡◌, refl, sym, ap, ◌∙◌, subst, arith, true, false, List, [], ◌∷◌, Option,
  none, some, Result, ok, err, >>=-eq-ok, ok_injective, length, Bool-cases, inl, inr,
}
use mathlib.Core.Option.{some-injective}
use light_protocol.System.Accounts.{invalid_address}
use light_protocol.System.CpiSigner.{SystemError, system_program_error}
use light_protocol.System.Append.{bytes_eq, filter_some, position, remove, take_address}

-- the position in a list with an entry before it
position_after :
    (x : List ℕ) (xs : List (List ℕ)) (address : List ℕ) (p : ℕ)
    → bytes_eq x address ≡ false
    → position (x ∷ xs) address ≡ some p
    → (n : ℕ) × (p ≡ suc n) × (position xs address ≡ some n)
position_after x xs address p other e = by_rest (position xs address) refl (rw other at e)
  where
    by_rest :
        (o : Option ℕ)
        → position xs address ≡ o
        → ◌≡◌ {A = Option ℕ} (elim o [ none ↦ none | some n ↦ some (suc n) ]) (some p)
        → (n : ℕ) × (p ≡ suc n) × (position xs address ≡ some n)
    by_rest none q e = absurd (cc e)
    by_rest (some n) q e = (n, some-injective p (suc n) (sym e), q)

position_before :
    (x : List ℕ) (xs : List (List ℕ)) (address : List ℕ) (n : ℕ)
    → position xs address ≡ some n
    → (m : ℕ) × (position (x ∷ xs) address ≡ some m)
position_before x xs address n e = elim (Bool-cases (bytes_eq x address)) [
  | inl same ↦ (0, rw same refl)
  | inr other ↦ (suc n, rw (other, e) refl)
]

-- an entry before the address is removed, so that the address is still there
remove_before :
    (addresses left : List (Option (List ℕ))) (address : List ℕ) (p q : ℕ)
    → position (filter_some addresses) address ≡ some p
    → q < p
    → remove addresses q ≡ ok left
    → (n : ℕ) × (position (filter_some left) address ≡ some n)
unfolding remove
remove_before [] left address p q e lt r = absurd (cc e)
remove_before (none ∷ xs) left address p zero e lt r =
    (p, ap (λ l. position (filter_some l) address) (sym (ok_injective r)) ∙ e)
remove_before (none ∷ xs) left address p (suc q) e lt r =
    let (rest, p1, q1) = >>=-eq-ok (remove xs q) _ r in
    let (n, found) = remove_before xs rest address p q e (omega (arith, lt)) p1 in
    (n, ap (λ l. position (filter_some l) address) (sym (ok_injective q1)) ∙ found)
remove_before (some x ∷ xs) left address p q e lt r = elim (Bool-cases (bytes_eq x address)) [
  | inl same ↦ absurd (first_is same)
  | inr other ↦
      by_position (remove_before xs) q (position_after x (filter_some xs) address p other e) lt r
]
  where
    first_is : bytes_eq x address ≡ true → ⊥
    first_is same =
        let zero_is : 0 ≡ p = some-injective 0 p (rw same at e) in omega (arith, zero_is, lt)

    by_position :
        ((rest : List (Option (List ℕ))) (a : List ℕ) (n k : ℕ)
          → position (filter_some xs) a ≡ some n
          → k < n
          → remove xs k ≡ ok rest
          → (m : ℕ) × (position (filter_some rest) a ≡ some m))
        → (q : ℕ) → (n : ℕ) × (p ≡ suc n) × (position (filter_some xs) address ≡ some n)
        → q < p
        → remove (some x ∷ xs) q ≡ ok left
        → (n : ℕ) × (position (filter_some left) address ≡ some n)
    by_position before zero (n, after, found) lt r =
        (n, ap (λ l. position (filter_some l) address) (sym (ok_injective r)) ∙ found)
    by_position before (suc q) (n, after, found) lt r =
        let (rest, p1, q1) = >>=-eq-ok (remove xs q) _ r in
        let (m, still) = before rest address n q found (omega (arith, lt, after)) p1 in
        subst (λ l. (k : ℕ) × (position (filter_some l) address ≡ some k)) (ok_injective q1)
          (position_before x (filter_some rest) address m still)

-- a position of a known address is one of the list
position_lt :
    (addresses : List (Option (List ℕ))) (address : List ℕ) (p : ℕ)
    → position (filter_some addresses) address ≡ some p
    → p < length addresses
position_lt [] address p e = absurd (cc e)
position_lt (none ∷ xs) address p e = omega (arith, position_lt xs address p e)
position_lt (some x ∷ xs) address p e = elim (Bool-cases (bytes_eq x address)) [
  | inl same ↦ let zero_is : 0 ≡ p = some-injective 0 p (rw same at e) in omega (arith, zero_is)
  | inr other ↦
      let (n, after, found) = position_after x (filter_some xs) address p other e in
      omega (arith, after, position_lt xs address n found)
]

remove_total :
    (xs : List (Option (List ℕ))) (i : ℕ)
    → i < length xs
    → (left : List (Option (List ℕ))) × (remove xs i ≡ ok left)
unfolding remove
remove_total [] i lt = absurd (omega (arith, lt))
remove_total (x ∷ xs) zero lt = (xs, refl)
remove_total (x ∷ xs) (suc i) lt =
    let (left, e) = remove_total xs i (omega (arith, lt)) in (x ∷ left, rw e refl)

-- an address that is there is taken
take_found :
    (addresses : List (Option (List ℕ))) (address : List ℕ) (p : ℕ)
    → position (filter_some addresses) address ≡ some p
    → (left : List (Option (List ℕ))) × (take_address addresses (some address) ≡ ok left)
unfolding take_address
take_found addresses address p e =
    let (left, r) = remove_total addresses p (position_lt addresses address p e) in
    (left, ap (λ o. taken o) e ∙ r)
  where
    taken : Option ℕ → Result SystemError (List (Option (List ℕ)))
    taken none = err (system_program_error invalid_address)
    taken (some position) = remove addresses position

-- Where the first entry of `compressed_account_addresses` is empty, an address that the check
-- of an output account accepts is still there afterwards: the same check accepts it once more.
pub take_address-take_address :
    (addresses left : List (Option (List ℕ))) (address : List ℕ)
    → take_address (none ∷ addresses) (some address) ≡ ok left
    → (left' : List (Option (List ℕ))) × (take_address left (some address) ≡ ok left')
unfolding take_address remove
take_address-take_address addresses left address e =
    by_position (position (filter_some addresses) address) refl e
  where
    by_position :
        (o : Option ℕ)
        → position (filter_some addresses) address ≡ o
        → ◌≡◌ {A = Result SystemError (List (Option (List ℕ)))}
            (elim o [
              | none ↦ err (system_program_error invalid_address)
              | some p ↦ remove (none ∷ addresses) p
            ])
            (ok left)
        → (left' : List (Option (List ℕ))) × (take_address left (some address) ≡ ok left')
    by_position none found e = absurd (cc e)
    by_position (some zero) found e =
        take_found left address 0
          (ap (λ l. position (filter_some l) address) (sym (ok_injective e)) ∙ found)
    by_position (some (suc p)) found e =
        let (rest, p1, q1) = >>=-eq-ok (remove addresses p) _ e in
        let (n, still) = remove_before addresses rest address (suc p) p found (omega arith) p1 in
        take_found left address n
          (ap (λ l. position (filter_some l) address) (sym (ok_injective q1)) ∙ still)
