-- ===== src/BoundedVec/Tests.antt =====
-- The theorems on bounded vectors at vectors of two numbers.
use light_protocol.Prelude.{
  ℕ, ◌≡◌, refl, arith, [], ◌∷◌, ◌++◌, some, none, ok, err, inr, map_ok, map_err, ◌>>=◌, take,
}
use light_protocol.Prelude.Arith.{advance}
use light_protocol.BoundedVec.Plain
use light_protocol.BoundedVec.Plain.{BoundedVec, BoundedVecError, full, extend, as_slice}
use light_protocol.BoundedVec.Plain.Refine.{
  bounded_push, push-bounded_push, extend_refines, to_array-from_slice,
}
use light_protocol.BoundedVec.Cyclic
use light_protocol.BoundedVec.Cyclic.{CyclicBoundedVec, with_capacity, iter, iter_from, collect}
use light_protocol.BoundedVec.Cyclic.Refine.{contents, remember, push_refines}
use light_protocol.BoundedVec.Cyclic.Iterate.{push_each, collect-push_each, collect-iter_from}

abbrev half_full : BoundedVec ℕ
half_full = record { capacity = 2; len = 1; buffer = some 5 ∷ none ∷ [] }

half_full-IsValid : Plain.Refine.IsValid half_full
half_full-IsValid = record { storage = refl; within = omega arith; written = tt }

-- 8, then 9, round the end of the storage
abbrev wrapped : CyclicBoundedVec ℕ
wrapped = record {
  capacity = 2;
  len = 2;
  first_index = 1;
  last_index = 0;
  buffer = some 9 ∷ some 8 ∷ [];
}

wrapped-IsValid : Cyclic.Refine.IsValid wrapped
wrapped-IsValid = record {
  storage = refl;
  positive = omega arith;
  within = omega arith;
  written = tt;
  shape = inr (refl, omega arith, refl);
}

extend_refines_example :
    (as_slice (extend half_full (6 ∷ 7 ∷ [])).0 ≡ as_slice half_full ++ take 1 (6 ∷ 7 ∷ []))
    × ((extend half_full (6 ∷ 7 ∷ [])).1 ≡ err full)
    × Plain.Refine.IsValid (extend half_full (6 ∷ 7 ∷ [])).0
extend_refines_example = extend_refines half_full (6 ∷ 7 ∷ []) half_full-IsValid

push_refines_example :
    map_ok contents (Cyclic.push {E = BoundedVecError} wrapped 10) ≡ ok (9 ∷ 10 ∷ [])
push_refines_example = push_refines {E = BoundedVecError} wrapped 10 wrapped-IsValid

collect-push_each_example :
    (push_each {A = ℕ} {E = BoundedVecError} (with_capacity 2) (1 ∷ 2 ∷ 3 ∷ []) >>= λ v.
    collect 4 (iter v))
    ≡ ok (2 ∷ 3 ∷ [])
collect-push_each_example = collect-push_each {E = BoundedVecError} 2 (1 ∷ 2 ∷ 3 ∷ []) (omega arith)

collect-iter_from_example :
    (map_err (λ e. e) (iter_from wrapped (advance 2 1 1)) >>= collect 4) ≡ ok (9 ∷ [])
collect-iter_from_example =
    collect-iter_from {E = BoundedVecError} (λ e. e) wrapped 1 wrapped-IsValid (omega arith)
