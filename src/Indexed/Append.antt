-- ===== src/Indexed/Append.antt =====
-- merkle-tree/indexed/src/array.rs: what an append does to the chain.
use light_protocol.Prelude.{
  ℕ, ◌+◌, ◌<◌, ◌≡◌, ◌≢◌, ◌⊎◌, inl, inr, sym, ap, ◌∙◌, arith, true, false, [], ◌∷◌, ◌++◌, some, ok,
  guard, not, >>=-eq-ok, get_elem?, length, set, ltb, leb, ◌==◌, if◌then◌else◌, Bool-cases,
  get_elem?-set_self, get_elem?-set_ne, lt-length_of_get, get_elem?-append_lt,
  get_elem?-append_length, length-set, length-append,
}
use light_protocol.Indexed.{
  IndexedArray, IndexedElement, IndexedElementBundle, integer_overflow, element, check_range,
  new_element_with_low_element_index, append_with_low_element_index,
  find_low_element_index_for_nonexistent, append, low_element_greater_or_equal_to_new_element,
}
use light_protocol.Indexed.Low.{Between, IsBeyond, find_low_element_index-Low, unwrap-ok, guard-not}

-- What an append with a low element has done: the low element points at the new one, the last of
-- the array, which points where the low element did. The other elements are as before.
pub record Linked (a : IndexedArray) (index value : ℕ) (a' : IndexedArray) : Type 0 where
  pub low : IndexedElement
  pub low_at : get_elem? a.elements index ≡ some low
  pub above : low.value < value
  pub below :
      (low.next_index ≡ 0)
      ⊎ ((next : IndexedElement) × (get_elem? a.elements low.next_index ≡ some next)
          × (value < next.value))
  pub relinked :
      get_elem? a'.elements index ≡ some (record low { next_index = a.current_node_index + 1 })
  pub added :
      get_elem? a'.elements (length a.elements)
      ≡ some
          (record { index = a.current_node_index + 1; value = value; next_index = low.next_index })
  pub kept :
      (j : ℕ) → index ≢ j → j < length a.elements → get_elem? a'.elements j ≡ get_elem? a.elements j
  pub size : length a'.elements ≡ length a.elements + 1
  pub current : a'.current_node_index ≡ a.current_node_index + 1

above_of_test : (x y : ℕ) → leb y x ≡ false → x < y
above_of_test x y p = ground arith

zero_of_test : (x : ℕ) → (x == 0) ≡ true → x ≡ 0
zero_of_test x p = ground arith

range_parts :
    (a : IndexedArray) (low : IndexedElement) (value : ℕ) (u : Unit {0})
    → check_range a low value ≡ ok u
    → (low.value < value)
      × ((low.next_index ≡ 0)
          ⊎ ((next : IndexedElement) × (get_elem? a.elements low.next_index ≡ some next)
              × (value < next.value)))
unfolding check_range
range_parts a low value u e = elim (Bool-cases (low.next_index == 0)) [
  | inl last ↦ (
    above_of_test low.value value (guard-not (leb value low.value) _ (rw last at e)),
    inl (zero_of_test low.next_index last),
  )
  | inr inner ↦
      let (v, p, q) =
        >>=-eq-ok (guard (not (leb value low.value)) low_element_greater_or_equal_to_new_element) _
          (rw inner at e) in
      let (next, read, r) = >>=-eq-ok (element a low.next_index) _ q in
      (
        above_of_test low.value value (guard-not (leb value low.value) _ p),
        inr (
          next,
          unwrap-ok (get_elem? a.elements low.next_index) read,
          above_of_test value next.value (guard-not (leb next.value value) _ r),
        ),
      )
]

module _ (index_bound : ℕ) where
  bundle_parts :
      (a : IndexedArray) (index value : ℕ) (low : IndexedElement) (bundle : IndexedElementBundle)
      → get_elem? a.elements index ≡ some low
      → new_element_with_low_element_index index_bound a index value ≡ ok bundle
      → (bundle.new_low_element ≡ record low { next_index = a.current_node_index + 1 })
        × (bundle.new_element ≡ record {
          index = a.current_node_index + 1;
          value = value;
          next_index = low.next_index;
        })
  unfolding new_element_with_low_element_index
  bundle_parts a index value low bundle at e =
      let (low', read, p) = >>=-eq-ok (element a index) _ e in
      let (u, fits, q) =
        >>=-eq-ok (guard (ltb (a.current_node_index + 1) index_bound) integer_overflow) _ p in
      let (next, read_next, r) = >>=-eq-ok (element a low'.next_index) _ q in
      let same : low' ≡ low = cc (unwrap-ok (get_elem? a.elements index) read, at) in
      let relinked : IndexedElement → IndexedElement =
        λ l. record l { next_index = a.current_node_index + 1 } in
      let linked : IndexedElement → IndexedElement = λ l. record {
        index = a.current_node_index + 1;
        value = value;
        next_index = l.next_index;
      } in
      let built : IndexedElementBundle = record {
        new_low_element = relinked low';
        new_element = linked low';
        new_element_next_value = next.value;
      } in
      let made : built ≡ bundle = cc r in
      (
        sym (ap (λ b. b.new_low_element) made) ∙ ap relinked same,
        sym (ap (λ b. b.new_element) made) ∙ ap linked same,
      )

  pub append_with_low_element_index-Linked :
      (a : IndexedArray) (index value : ℕ) (a' : IndexedArray) (bundle : IndexedElementBundle)
      → append_with_low_element_index index_bound a index value ≡ ok (a', bundle)
      → Linked a index value a'
  unfolding append_with_low_element_index
  append_with_low_element_index-Linked a index value a' bundle e =
      let (low, read, p) = >>=-eq-ok (element a index) _ e in
      let (u, in_range, q) = >>=-eq-ok (check_range a low value) _ p in
      let (made, made_ok, r) =
        >>=-eq-ok (new_element_with_low_element_index index_bound a index value) _ q in
      let at = unwrap-ok (get_elem? a.elements index) read in
      let (above, below) = range_parts a low value u in_range in
      let (new_low, new) = bundle_parts a index value low made at made_ok in
      let result : a' ≡ record {
        elements = set (a.elements ++ (made.new_element ∷ [])) index made.new_low_element;
        current_node_index = made.new_element.index;
        highest_element_index =
            if low.next_index == 0 then made.new_element.index else a.highest_element_index;
      } =
        cc r in
      let inside = lt-length_of_get a.elements index at in
      let written : a'.elements
          ≡ set (a.elements ++ (made.new_element ∷ [])) index made.new_low_element =
        ap (λ x. x.elements) result in
      record {
        low = low;
        low_at = at;
        above = above;
        below = below;
        relinked =
            ap (λ l. get_elem? l index) written
            ∙ get_elem?-set_self (a.elements ++ (made.new_element ∷ [])) index made.new_low_element
                (omega (arith, inside, length-append a.elements (made.new_element ∷ [])))
            ∙ ap some new_low;
        added =
            ap (λ l. get_elem? l (length a.elements)) written
            ∙ get_elem?-set_ne (a.elements ++ (made.new_element ∷ [])) index (length a.elements)
                made.new_low_element (omega (arith, inside))
            ∙ get_elem?-append_length a.elements made.new_element
            ∙ ap some new;
        kept = λ j ne within.
            ap (λ l. get_elem? l j) written
            ∙ get_elem?-set_ne (a.elements ++ (made.new_element ∷ [])) index j made.new_low_element
                ne
            ∙ get_elem?-append_lt a.elements (made.new_element ∷ []) j within;
        size =
            ap length written
            ∙ length-set (a.elements ++ (made.new_element ∷ [])) index made.new_low_element
            ∙ length-append a.elements (made.new_element ∷ []);
        current = ap (λ x. x.current_node_index) result ∙ ap (λ x. x.index) new;
      }

  -- If `append` of an indexed array returns `Ok`, it chose a low element: one with a value
  -- below the new value whose next element has a value above it, or the highest element,
  -- where no element has the new value and every element with a value below it has a next
  -- element that is not above it. The new value is above the low element's and, unless the
  -- low element's next index is 0, below the next element's. The new element is the last of
  -- the array, with the low element's next index, the low element gets the new element's
  -- index as its next index, and all other elements are as before.
  pub append-Linked :
      (a : IndexedArray) (value : ℕ) (a' : IndexedArray) (bundle : IndexedElementBundle)
      → append index_bound a value ≡ ok (a', bundle)
      → (index : ℕ) × (Between a value index
          ⊎ ((index ≡ a.highest_element_index) × IsBeyond a a.elements value))
        × Linked a index value a'
  unfolding append
  append-Linked a value a' bundle e =
      let (index, found, p) =
        >>=-eq-ok (find_low_element_index_for_nonexistent index_bound a value) _ e in
      (
        index,
        find_low_element_index-Low index_bound a value index found,
        append_with_low_element_index-Linked a index value a' bundle p,
      )
