-- ===== src/Indexed.antt =====
-- merkle-tree/indexed/src/array.rs: the elements of an indexed Merkle tree, a linked list in the
-- order of the values. The hash of an element is not modelled.
pub mod Low
pub mod Append
mod Tests
use light_protocol.Prelude.{
  ℕ, zero, suc, ◌+◌, Bool, true, false, ◌&&◌, List, [], ◌∷◌, ◌++◌, Option, none, some, Result, ok,
  err, panic, ◌>>=◌, ◌>>◌, guard, not, unwrap, length, get_elem?, set, take, leb, ltb, ◌==◌,
  if◌then◌else◌,
}
use light_protocol.BoundedVec.Plain.{BoundedVecError}

-- without the errors of the hasher, the concurrent tree and the utils, which no function here returns
pub data IndexedMerkleTreeError : Type 0 where
  integer_overflow : IndexedMerkleTreeError
  index_higher_than_max : IndexedMerkleTreeError
  low_element_not_found : IndexedMerkleTreeError
  low_element_greater_or_equal_to_new_element : IndexedMerkleTreeError
  new_element_greater_or_equal_to_next_element : IndexedMerkleTreeError
  element_already_exists : IndexedMerkleTreeError
  element_does_not_exist : IndexedMerkleTreeError
  changelog_buffer_size : ℕ → ℕ → IndexedMerkleTreeError
  bounded_vec : BoundedVecError → IndexedMerkleTreeError
  array_full : IndexedMerkleTreeError

abbrev pub IndexedResult {κ} : Type κ → Type κ
IndexedResult = Result IndexedMerkleTreeError

pub record IndexedElement : Type 0 where
  pub index : ℕ
  pub value : ℕ
  pub next_index : ℕ

pub record IndexedElementBundle : Type 0 where
  pub new_low_element : IndexedElement
  pub new_element : IndexedElement
  pub new_element_next_value : ℕ

pub record IndexedArray : Type 0 where
  pub elements : List IndexedElement
  pub current_node_index : ℕ
  pub highest_element_index : ℕ

-- `Default::default`
abbrev pub default : IndexedArray
default = record {
  elements = record { index = 0; value = 0; next_index = 0 } ∷ [];
  current_node_index = 0;
  highest_element_index = 0;
}

-- `self.elements[index]`
abbrev pub element : IndexedArray → ℕ → IndexedResult IndexedElement
element a index = unwrap (get_elem? a.elements index)

-- The check that the value lies between the low element and the next one.
unfoldable pub check_range : IndexedArray → IndexedElement → ℕ → IndexedResult (Unit {0})
check_range a low value =
    let in_range : IndexedResult (Unit {0}) = (do
      guard (not (leb value low.value)) low_element_greater_or_equal_to_new_element
      next ← element a low.next_index
      guard (not (leb next.value value)) new_element_greater_or_equal_to_next_element) in
    if low.next_index == 0
    then guard (not (leb value low.value)) low_element_greater_or_equal_to_new_element
    else in_range

-- `index_bound` is 2 to the width of the index type.
module _ (index_bound : ℕ) where
  -- the loop of `find_low_element_index_for_nonexistent`, over the elements from `i` on
  unfoldable pub low_loop : IndexedArray → ℕ → List IndexedElement → ℕ → IndexedResult ℕ
  low_loop a value [] i = ok a.highest_element_index
  low_loop a value (node ∷ nodes) i = do
    guard (not (node.value == value)) element_already_exists
    next ← element a node.next_index
    let rest = low_loop a value nodes (i + 1)
    if ltb value next.value && ltb node.value value
        then (if ltb i index_bound then ok i else err integer_overflow)
        else rest

  unfoldable pub find_low_element_index_for_nonexistent : IndexedArray → ℕ → IndexedResult ℕ
  find_low_element_index_for_nonexistent a value = low_loop a value a.elements 0

  unfoldable pub new_element_with_low_element_index :
      IndexedArray → ℕ → ℕ → IndexedResult IndexedElementBundle
  new_element_with_low_element_index a low_element_index value = do
    low ← element a low_element_index
    guard (ltb (a.current_node_index + 1) index_bound) integer_overflow
    next ← element a low.next_index
    ok (record {
      new_low_element = record low { next_index = a.current_node_index + 1 };
      new_element = record {
        index = a.current_node_index + 1;
        value = value;
        next_index = low.next_index;
      };
      new_element_next_value = next.value;
    })

  unfoldable pub new_element_for : IndexedArray → ℕ → IndexedResult IndexedElementBundle
  new_element_for a value = do
    low_element_index ← find_low_element_index_for_nonexistent a value
    new_element_with_low_element_index a low_element_index value

  unfoldable pub append_with_low_element_index :
      IndexedArray → ℕ → ℕ → IndexedResult (IndexedArray × IndexedElementBundle)
  append_with_low_element_index a low_element_index value = do
    low ← element a low_element_index
    check_range a low value
    bundle ← new_element_with_low_element_index a low_element_index value
    ok (
      record {
        elements =
            set (a.elements ++ (bundle.new_element ∷ [])) low_element_index bundle.new_low_element;
        current_node_index = bundle.new_element.index;
        highest_element_index =
            if low.next_index == 0 then bundle.new_element.index else a.highest_element_index;
      },
      bundle,
    )

  unfoldable pub append : IndexedArray → ℕ → IndexedResult (IndexedArray × IndexedElementBundle)
  append a value = do
    low_element_index ← find_low_element_index_for_nonexistent a value
    append_with_low_element_index a low_element_index value
