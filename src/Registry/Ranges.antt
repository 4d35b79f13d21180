-- ===== src/Registry/Ranges.antt =====
-- The ranges that foresters are given when they register for an epoch.
use light_protocol.Prelude.{
  ℕ, zero, suc, ◌+◌, ◌≤◌, ◌<◌, ◌≡◌, ◌≢◌, refl, sym, ap, ◌∙◌, arith, true, false, ◌&&◌, List, [],
  ◌∷◌, some, ok, >>=-eq-ok, guard, leb, ltb, Bool-cases, inl, inr, get_elem?,
}
use light_protocol.Prelude.Words.{add, add-ok, word}
use light_protocol.Registry.Config.{RegistryResult, is_registration_phase, weight_insuffient}
use light_protocol.Registry.Epoch.{
  EpochPda, ForesterPda, ForesterEpochPda, is_eligible, process_register_for_epoch,
}

-- Foresters register for an epoch one after the other; the list holds the accounts that they get.
pub data Registered : EpochPda → List ForesterEpochPda → EpochPda → Type 0 where
  nobody : (e : EpochPda) → Registered e [] e
  one_more :
      (authority slot : ℕ) (forester forester' : ForesterPda) (f : ForesterEpochPda)
      (fs : List ForesterEpochPda) (e e' e'' : EpochPda)
      → process_register_for_epoch authority forester e slot ≡ ok (forester', f, e')
      → Registered e' fs e''
      → Registered e (f ∷ fs) e''

-- the range that a forester gets, and the weight that the epoch then has
pub registered-range :
    (authority slot : ℕ) (forester forester' : ForesterPda) (f : ForesterEpochPda) (e e' : EpochPda)
    → process_register_for_epoch authority forester e slot ≡ ok (forester', f, e')
    → (f.forester_index ≡ e.registered_weight)
      × (f.forester_index + f.weight ≡ e'.registered_weight)
      × (e'.registered_weight < word)
unfolding process_register_for_epoch
registered-range authority slot forester forester' f e e' p =
    let (u, p1, q1) =
      >>=-eq-ok (guard (leb e.protocol_config.min_weight forester.active_weight) weight_insuffient)
        _ p in
    let (start, p2, q2) = >>=-eq-ok (is_registration_phase e.protocol_config slot) _ q1 in
    let (w, p3, q3) = >>=-eq-ok (add e.registered_weight forester.active_weight) _ q2 in
    let (sum, fits) = add-ok e.registered_weight forester.active_weight p3 in
    let same = three q3 in
    let index : e.registered_weight ≡ f.forester_index = ap (λ g. index_of g) (same.1) in
    let weight : forester.active_weight ≡ f.weight = ap (λ g. weight_of g) (same.1) in
    let total : w ≡ e'.registered_weight = ap (λ d. total_of d) (same.2) in
    (sym index, omega (arith, sum, index, weight, total), omega (arith, fits, total))
  where
    three :
        {A B C : Type 0} {a a' : A} {b b' : B} {c c' : C}
        → ◌≡◌ {A = RegistryResult (A × B × C)} (ok (a, b, c)) (ok (a', b', c'))
        → (a ≡ a') × (b ≡ b') × (c ≡ c')
    three q = (cc q, cc q, cc q)

    index_of : ForesterEpochPda → ℕ
    index_of g = g.forester_index

    weight_of : ForesterEpochPda → ℕ
    weight_of g = g.weight

    total_of : EpochPda → ℕ
    total_of d = d.registered_weight

pub is_eligible_lem :
    (f : ForesterEpochPda) (x : ℕ)
    → f.forester_index + f.weight < word
    → is_eligible f x ≡ ok (leb f.forester_index x && ltb x (f.forester_index + f.weight))
unfolding is_eligible
is_eligible_lem f x fits = ground arith

below :
    (f : ForesterEpochPda) (x : ℕ)
    → f.forester_index + f.weight < word
    → x < f.forester_index
    → is_eligible f x ≡ ok false
below f x fits lt =
    let no : leb f.forester_index x ≡ false = ground arith in is_eligible_lem f x fits ∙ rw no refl

above :
    (f : ForesterEpochPda) (x : ℕ)
    → f.forester_index + f.weight < word
    → f.forester_index + f.weight ≤ x
    → is_eligible f x ≡ ok false
above f x fits le =
    let after : leb f.forester_index x ≡ true = ground arith in
    let no : ltb x (f.forester_index + f.weight) ≡ false = ground arith in
    is_eligible_lem f x fits ∙ rw (after, no) refl

within :
    (f : ForesterEpochPda) (x : ℕ)
    → f.forester_index + f.weight < word
    → f.forester_index ≤ x
    → x < f.forester_index + f.weight
    → is_eligible f x ≡ ok true
within f x fits le lt =
    let after : leb f.forester_index x ≡ true = ground arith in
    let before : ltb x (f.forester_index + f.weight) ≡ true = ground arith in
    is_eligible_lem f x fits ∙ rw (after, before) refl

-- Nobody is eligible for an index below the weight at which the registrations began.
nobody_below :
    (e e' : EpochPda) (fs : List ForesterEpochPda) (x : ℕ)
    → Registered e fs e'
    → x < e.registered_weight
    → (j : ℕ) (g : ForesterEpochPda) → get_elem? fs j ≡ some g
    → is_eligible g x ≡ ok false
nobody_below e e' [] x (nobody _) lt j g at = absurd (cc at)
nobody_below e e' (f ∷ fs) x (one_more authority slot forester forester' _ _ _ d _ p rest) lt zero g
      at =
    let (index, sum, fits) = registered-range authority slot forester forester' f e d p in
    let same : f ≡ g = cc at in
    ap (λ k. is_eligible k x) (sym same) ∙ below f x (omega arith) (omega arith)
nobody_below e e' (f ∷ fs) x (one_more authority slot forester forester' _ _ _ d _ p rest) lt
      (suc j) g at =
    let (index, sum, fits) = registered-range authority slot forester forester' f e d p in
    nobody_below d e' fs x rest (omega arith) j g at

-- When foresters register for an epoch one after the other, every index from the weight at
-- which the registrations began to below the epoch's registered weight belongs to exactly one
-- of the forester accounts: that forester is eligible for it, and all others are not. No
-- eligibility test panics.
pub Registered-eligible :
    (e e' : EpochPda) (fs : List ForesterEpochPda) (x : ℕ)
    → Registered e fs e'
    → e.registered_weight ≤ x
    → x < e'.registered_weight
    → (i : ℕ) × (f : ForesterEpochPda) × (get_elem? fs i ≡ some f)
      × (is_eligible f x ≡ ok true)
      × ((j : ℕ) (g : ForesterEpochPda)
          → i ≢ j
          → get_elem? fs j ≡ some g
          → is_eligible g x ≡ ok false)
Registered-eligible e e' [] x (nobody _) le lt = absurd (omega arith)
Registered-eligible e e' (f ∷ fs) x (one_more authority slot forester forester' _ _ _ d _ p rest) le
      lt =
    let (index, sum, fits) = registered-range authority slot forester forester' f e d p in
    elim (Bool-cases (ltb x d.registered_weight)) [
      | inl here ↦ (
        0,
        f,
        refl,
        within f x (omega arith) (omega arith) (ground arith),
        others (nobody_below d e' fs x rest (ground arith)),
      )
      | inr there ↦
          let (i, g, at, yes_at, rest_at) = Registered-eligible d e' fs x rest (ground arith) lt in
          (suc i, g, at, yes_at, shifted i (above f x (omega arith) (ground arith)) rest_at)
    ]
  where
    others :
        ((j : ℕ) (g : ForesterEpochPda) → get_elem? fs j ≡ some g → is_eligible g x ≡ ok false)
        → (j : ℕ) (g : ForesterEpochPda) → 0 ≢ j
        → get_elem? (f ∷ fs) j ≡ some g
        → is_eligible g x ≡ ok false
    others tail zero g ne at = absurd (ne refl)
    others tail (suc j) g ne at = tail j g at

    shifted :
        (i : ℕ)
        → is_eligible f x ≡ ok false
        → ((j : ℕ) (g : ForesterEpochPda)
            → i ≢ j
            → get_elem? fs j ≡ some g
            → is_eligible g x ≡ ok false)
        → (j : ℕ) (g : ForesterEpochPda) → suc i ≢ j
        → get_elem? (f ∷ fs) j ≡ some g
        → is_eligible g x ≡ ok false
    shifted i head tail zero g ne at =
        let same : f ≡ g = cc at in ap (λ k. is_eligible k x) (sym same) ∙ head
    shifted i head tail (suc j) g ne at = tail j g (λ same. ne (ap suc same)) at
