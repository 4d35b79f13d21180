-- ===== src/Indexed/Tests.antt =====
-- merkle-tree/indexed/src/array.rs: runs, on indices of 16 bits.
use light_protocol.Prelude.{ℕ, ◌≡◌, ◌⊎◌, refl, ok, err, ◌∷◌, []}
use light_protocol.Indexed.{
  IndexedArray, IndexedElementBundle, default, low_loop, find_low_element_index_for_nonexistent,
  check_range, new_element_with_low_element_index, append_with_low_element_index, append,
  element_already_exists,
}
use light_protocol.Indexed.Low.{Between, IsBeyond}
use light_protocol.Indexed.Append.{Linked, append-Linked}

-- after an append of 30
abbrev with_30 : IndexedArray
with_30 = record {
  elements =
      record { index = 0; value = 0; next_index = 1 }
      ∷ (record { index = 1; value = 30; next_index = 0 } ∷ []);
  current_node_index = 1;
  highest_element_index = 1;
}

-- and then of 10
abbrev with_30_and_10 : IndexedArray
with_30_and_10 = record {
  elements =
      record { index = 0; value = 0; next_index = 2 }
      ∷ (record { index = 1; value = 30; next_index = 0 }
          ∷ (record { index = 2; value = 10; next_index = 1 } ∷ []));
  current_node_index = 2;
  highest_element_index = 1;
}

abbrev bundle_of_10 : IndexedElementBundle
bundle_of_10 = record {
  new_low_element = record { index = 0; value = 0; next_index = 2 };
  new_element = record { index = 2; value = 10; next_index = 1 };
  new_element_next_value = 30;
}

append_30 :
    append 65536 default 30
    ≡ ok (
      with_30,
      record {
        new_low_element = record { index = 0; value = 0; next_index = 1 };
        new_element = record { index = 1; value = 30; next_index = 0 };
        new_element_next_value = 0;
      },
    )
unfolding append append_with_low_element_index new_element_with_low_element_index check_range
    find_low_element_index_for_nonexistent low_loop
append_30 = refl

append_10 : append 65536 with_30 10 ≡ ok (with_30_and_10, bundle_of_10)
unfolding append append_with_low_element_index new_element_with_low_element_index check_range
    find_low_element_index_for_nonexistent low_loop
append_10 = refl

append_30_again : append 65536 with_30_and_10 30 ≡ err element_already_exists
unfolding append append_with_low_element_index new_element_with_low_element_index check_range
    find_low_element_index_for_nonexistent low_loop
append_30_again = refl

append-Linked_example :
    (index : ℕ) × (Between with_30 10 index
      ⊎ ((index ≡ with_30.highest_element_index) × IsBeyond with_30 with_30.elements 10))
    × Linked with_30 index 10 with_30_and_10
append-Linked_example = append-Linked 65536 with_30 10 with_30_and_10 bundle_of_10 append_10
