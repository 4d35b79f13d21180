-- ===== src/Indexed/Low.antt =====
-- merkle-tree/indexed/src/array.rs: the low element that the search finds.
use light_protocol.Prelude.{
  ℕ, zero, suc, ◌+◌, ◌<◌, ◌≤◌, ◌≡◌, ◌≢◌, ◌⊎◌, inl, inr, refl, subst, arith, Bool, true, false, ◌&&◌,
  List, [], ◌∷◌, Option, none, some, ok, err, guard, not, unwrap, >>=-eq-ok, get_elem?, ltb, ◌==◌,
  if◌then◌else◌, Bool-cases,
}
use light_protocol.Indexed.{
  IndexedArray, IndexedElement, IndexedMerkleTreeError, IndexedResult, integer_overflow, element,
  element_already_exists, low_loop, find_low_element_index_for_nonexistent,
}

-- the value lies between an element and the next one in the chain
pub record Between (a : IndexedArray) (value i : ℕ) : Type 0 where
  pub low : IndexedElement
  pub next : IndexedElement
  pub low_at : get_elem? a.elements i ≡ some low
  pub next_at : get_elem? a.elements low.next_index ≡ some next
  pub above : low.value < value
  pub below : value < next.value

-- none of the elements has the value, and none has it between itself and the next one
abbrev pub IsBeyond : IndexedArray → List IndexedElement → ℕ → Type 0
IsBeyond a nodes value =
    (j : ℕ) (node next : IndexedElement)
    → get_elem? nodes j ≡ some node
    → get_elem? a.elements node.next_index ≡ some next
    → (node.value ≢ value) × ((node.value < value) → next.value ≤ value)

pub guard-not :
    (t : Bool) (e : IndexedMerkleTreeError)
    → ◌≡◌ {A = IndexedResult (Unit {0})} (guard (not t) e) (ok tt)
    → t ≡ false
guard-not true e p = absurd (cc p)
guard-not false e p = refl

pub unwrap-ok :
    (o : Option IndexedElement) {x : IndexedElement}
    → ◌≡◌ {A = IndexedResult IndexedElement} (unwrap o) (ok x)
    → o ≡ some x
unwrap-ok none p = absurd (cc p)
unwrap-ok (some y) p = cc p

ne-of_test : (x y : ℕ) → (x == y) ≡ false → x ≢ y
ne-of_test x y p = ground arith

fits :
    (low value next : ℕ) → (ltb value next && ltb low value) ≡ true → (low < value) × (value < next)
fits low value next p = ground arith

misses :
    (low value next : ℕ) → (ltb value next && ltb low value) ≡ false → low < value → next ≤ value
misses low value next p h = ground arith

module _ (index_bound : ℕ) where
  stops :
      (i r : ℕ)
      → ◌≡◌ {A = IndexedResult ℕ} (if ltb i index_bound then ok i else err integer_overflow) (ok r)
      → i ≡ r
  stops i r q = elim (Bool-cases (ltb i index_bound)) [
    | inl p ↦ cc (rw p at q)
    | inr p ↦ absurd (cc (rw p at q))
  ]

  pub low_loop-Low :
      (a : IndexedArray) (value : ℕ) (nodes : List IndexedElement) (i r : ℕ)
      → ((k : ℕ) (node : IndexedElement)
          → get_elem? nodes k ≡ some node
          → get_elem? a.elements (i + k) ≡ some node)
      → low_loop index_bound a value nodes i ≡ ok r
      → Between a value r ⊎ ((r ≡ a.highest_element_index) × IsBeyond a nodes value)
  unfolding low_loop
  low_loop-Low a value [] i r within e = inr (cc e, λ j node next at next_at. cc at)
  low_loop-Low a value (node ∷ nodes) i r within e =
      let (u, p, q) = >>=-eq-ok (guard (not (node.value == value)) element_already_exists) _ e in
      let (next, next_read, s) = >>=-eq-ok (element a node.next_index) _ q in
      let next_at = unwrap-ok (get_elem? a.elements node.next_index) next_read in
      decide next next_at (guard-not (node.value == value) _ p)
        (Bool-cases (ltb value next.value && ltb node.value value)) s
        (low_loop-Low a value nodes (i + 1) r shifted)
    where
      shifted :
          (k : ℕ) (f : IndexedElement)
          → get_elem? nodes k ≡ some f
          → get_elem? a.elements (i + 1 + k) ≡ some f
      shifted k f at =
          subst (λ x. get_elem? a.elements x ≡ some f) (omega arith) (within (suc k) f at)

      beyond :
          (next : IndexedElement)
          → get_elem? a.elements node.next_index ≡ some next
          → (node.value == value) ≡ false
          → (ltb value next.value && ltb node.value value) ≡ false
          → IsBeyond a nodes value
          → IsBeyond a (node ∷ nodes) value
      beyond next next_at other no_fit none_fits zero f g f_at g_at =
          head (cc (f_at)) (cc (f_at, next_at, g_at))
        where
          head : node ≡ f → next ≡ g → (f.value ≢ value) × ((f.value < value) → g.value ≤ value)
          head same_f same_g =
              subst (λ x. (x.value ≢ value) × ((x.value < value) → g.value ≤ value)) same_f
                (subst (λ y. (node.value ≢ value) × ((node.value < value) → y.value ≤ value)) same_g
                  (ne-of_test node.value value other, misses node.value value next.value no_fit))
      beyond next next_at other no_fit none_fits (suc j) f g f_at g_at = none_fits j f g f_at g_at

      decide :
          (next : IndexedElement)
          → get_elem? a.elements node.next_index ≡ some next
          → (node.value == value) ≡ false
          → ((ltb value next.value && ltb node.value value) ≡ true)
            ⊎ ((ltb value next.value && ltb node.value value) ≡ false)
          → ◌≡◌ {A = IndexedResult ℕ}
              (if ltb value next.value && ltb node.value value
                then (if ltb i index_bound then ok i else err integer_overflow)
                else low_loop index_bound a value nodes (i + 1))
              (ok r)
          → (low_loop index_bound a value nodes (i + 1) ≡ ok r
              → Between a value r ⊎ ((r ≡ a.highest_element_index) × IsBeyond a nodes value))
          → Between a value r ⊎ ((r ≡ a.highest_element_index) × IsBeyond a (node ∷ nodes) value)
      decide next next_at other (inl yes_fits) s tail =
          let same = stops i r (rw yes_fits at s) in
          let (above, below) = fits node.value value next.value yes_fits in
          inl (record {
            low = node;
            next = next;
            low_at =
                subst (λ x. get_elem? a.elements x ≡ some node) (omega (arith, same))
                  (within 0 node refl);
            next_at = next_at;
            above = above;
            below = below;
          })
      decide next next_at other (inr no_fit) s tail = elim (tail (rw no_fit at s)) [
        | inl found ↦ inl found
        | inr (last, none_fits) ↦ inr (last, beyond next next_at other no_fit none_fits)
      ]

  pub find_low_element_index-Low :
      (a : IndexedArray) (value r : ℕ)
      → find_low_element_index_for_nonexistent index_bound a value ≡ ok r
      → Between a value r ⊎ ((r ≡ a.highest_element_index) × IsBeyond a a.elements value)
  unfolding find_low_element_index_for_nonexistent
  find_low_element_index-Low a value r e =
      low_loop-Low a value a.elements 0 r
        (λ k node at. subst (λ x. get_elem? a.elements x ≡ some node) (omega arith) at) e
