-- ===== src/HashSet/Mark.antt =====
-- How long a marked value stays valid.
use light_protocol.Prelude.{
  ℕ, ◌+◌, ◌≡◌, ◌≢◌, refl, sym, ap, ◌∙◌, List, Option, none, some, ok, ok_or, unwrap, ◌>>=◌,
  >>=-eq-ok, leb, ltb, inl, inr, Bool-cases, get_elem?, set, get_elem?-set_self, get_elem?-set_ne,
  lt-length_of_get,
}
use light_protocol.Prelude.Words.{add, add-ok}
use light_protocol.HashSet.{
  HashSet, HashSetCell, HashSetResult, element_does_not_exist, is_valid, get_bucket,
  mark_with_sequence_number,
}

-- the bucket that a read returns
bucket_at :
    (s : HashSet) (index : ℕ) (o : Option (Option HashSetCell)) (cell : HashSetCell)
    → get_bucket s index ≡ ok o
    → o ≡ some (some cell)
    → get_elem? s.buckets index ≡ some (some cell)
unfolding get_bucket
bucket_at s index o cell p e = elim (Bool-cases (leb s.capacity index)) [
  | inl out ↦ absurd (cc (rw out at p, e))
  | inr fits ↦ read (get_elem? s.buckets index) (rw fits at p)
]
  where
    read :
        (found : Option (Option HashSetCell))
        → ◌≡◌ {A = HashSetResult (Option (Option HashSetCell))}
            (unwrap found >>= λ b. ok (some b))
            (ok o)
        → found ≡ some (some cell)
    read none q = absurd (cc q)
    read (some b) q = cc (q, e)

some_of :
    {A : Type 0} (o : Option A) {a : A}
    → ◌≡◌ {A = HashSetResult A} (ok_or o element_does_not_exist) (ok a)
    → o ≡ some a
some_of none e = absurd (cc e)
some_of (some x) e = cc e

-- If `mark_with_sequence_number` returns `Ok`, the bucket held a cell and keeps its value, the
-- new cell is valid exactly for the sequence numbers below the given one plus the threshold,
-- and the other buckets are as before.
pub is_valid-mark_with_sequence_number :
    (s s' : HashSet) (index n : ℕ)
    → mark_with_sequence_number s index n ≡ ok s'
    → (old new : HashSetCell) × (get_elem? s.buckets index ≡ some (some old))
      × (get_elem? s'.buckets index ≡ some (some new))
      × (new.value ≡ old.value)
      × ((current : ℕ) → is_valid new current ≡ ltb current (n + s.sequence_threshold))
      × ((j : ℕ) → index ≢ j → get_elem? s'.buckets j ≡ get_elem? s.buckets j)
unfolding mark_with_sequence_number is_valid
is_valid-mark_with_sequence_number s s' index n e =
    let (o, p, q) = >>=-eq-ok (get_bucket s index) _ e in
    let (bucket, p', q') = >>=-eq-ok (ok_or o element_does_not_exist) _ q in
    let (cell, p'', q'') = >>=-eq-ok (ok_or bucket element_does_not_exist) _ q' in
    let (until, p3, q3) = >>=-eq-ok (add n s.sequence_threshold) _ q'' in
    let (sum, fits) = add-ok n s.sequence_threshold p3 in
    let at = bucket_at s index o cell p (some_of o p' ∙ ap some (some_of bucket p'')) in
    let marked : HashSetCell = record cell { sequence_number = some until } in
    let same : set s.buckets index (some marked) ≡ s'.buckets = ap buckets_of (done q3) in
    (
      cell,
      marked,
      at,
      ap (λ l. get_elem? l index) (sym same)
          ∙ get_elem?-set_self s.buckets index (some marked) (lt-length_of_get s.buckets index at),
      refl,
      λ current. ap (ltb current) (sym sum),
      λ j ne.
          ap (λ l. get_elem? l j) (sym same) ∙ get_elem?-set_ne s.buckets index j (some marked) ne,
    )
  where
    buckets_of : HashSet → List (Option HashSetCell)
    buckets_of t = t.buckets

    done : {a b : HashSet} → ◌≡◌ {A = HashSetResult HashSet} (ok a) (ok b) → a ≡ b
    done q = cc q
