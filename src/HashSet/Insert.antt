-- ===== src/HashSet/Insert.antt =====
-- What `insert` does to the hash set, and that lookups find the new value.
use light_protocol.Prelude.{
  ℕ, ◌+◌, ◌≡◌, ◌≢◌, ◌⊎◌, inl, inr, refl, sym, ap, subst, ◌∙◌, Bool, true, false, Option, none, some,
  ok, err, unwrap, ok_or, ◌>>=◌, >>=-eq-ok, leb, ◌==◌, if◌then◌else◌, Bool-cases, get_elem?,
  get_elem?-set_self, get_elem?-set_ne, lt-length_of_get,
}
use light_protocol.BigInt.{BigUint}
use light_protocol.HashSet.{
  HashSet, HashSetCell, HashSetResult, element_already_exists, full, iterations, is_valid, probe,
  probe_index, get_bucket, set_bucket, value_biguint, new_cell, find_loop,
  insert_into_occupied_cell, insert_found, occupied, insert,
}
use light_protocol.HashSet.Probes.{Found, empty, expired, later, find_loop-Found}

-- what a probe that returns has done
pub probe_parts :
    (s : HashSet) (value i j : ℕ) (bucket : Option HashSetCell)
    → probe s value i ≡ ok (j, bucket)
    → (probe_index s.capacity value i ≡ ok j)
      × (leb s.capacity j ≡ false)
      × (get_elem? s.buckets j ≡ some bucket)
unfolding probe
probe_parts s value i j bucket e =
    let (k, p, q) = >>=-eq-ok (probe_index s.capacity value i) _ e in
    inside k p (Bool-cases (leb s.capacity k)) q
  where
    read :
        (k : ℕ) (o : Option (Option HashSetCell))
        → ◌≡◌ {A = HashSetResult (ℕ × Option HashSetCell)}
            ((unwrap o >>= λ x. ok (some x)) >>= λ found. unwrap found >>= λ x. ok (k, x))
            (ok (j, bucket))
        → (k ≡ j) × (o ≡ some bucket)
    read k none q = absurd (cc q)
    read k (some x) q = (cc q, cc q)

    inside :
        (k : ℕ)
        → probe_index s.capacity value i ≡ ok k
        → (leb s.capacity k ≡ true) ⊎ (leb s.capacity k ≡ false)
        → ◌≡◌ {A = HashSetResult (ℕ × Option HashSetCell)}
            (get_bucket s k >>= λ found. unwrap found >>= λ x. ok (k, x))
            (ok (j, bucket))
        → (probe_index s.capacity value i ≡ ok j)
          × (leb s.capacity j ≡ false)
          × (get_elem? s.buckets j ≡ some bucket)
    inside k p (inl out) q = absurd (cc (rw (get_bucket, out) at q))
    inside k p (inr fits) q =
        let (same, at) = read k (get_elem? s.buckets k) (rw (get_bucket, fits) at q) in
        (
          p ∙ ap ok same,
          ap (leb s.capacity) (sym same) ∙ fits,
          ap (get_elem? s.buckets) (sym same) ∙ at,
        )

probe_of :
    (s : HashSet) (value i j : ℕ) (bucket : Option HashSetCell)
    → probe_index s.capacity value i ≡ ok j
    → leb s.capacity j ≡ false
    → get_elem? s.buckets j ≡ some bucket
    → probe s value i ≡ ok (j, bucket)
unfolding probe
probe_of s value i j bucket p fits at = rw (p, fits, at) refl

pub probe-set_self :
    (s : HashSet) (value i index : ℕ) (old new : Option HashSetCell)
    → probe s value i ≡ ok (index, old)
    → probe (set_bucket s index new) value i ≡ ok (index, new)
unfolding set_bucket
probe-set_self s value i index old new e =
    let (p, fits, at) = probe_parts s value i index old e in
    probe_of (set_bucket s index new) value i index new p fits
      (get_elem?-set_self s.buckets index new (lt-length_of_get s.buckets index at))

pub probe-set_ne :
    (s : HashSet) (value i j index : ℕ) (bucket new : Option HashSetCell)
    → probe s value i ≡ ok (j, bucket)
    → index ≢ j
    → probe (set_bucket s index new) value i ≡ ok (j, bucket)
unfolding set_bucket
probe-set_ne s value i j index bucket new e ne =
    let (p, fits, at) = probe_parts s value i j bucket e in
    probe_of (set_bucket s index new) value i j bucket p fits
      (get_elem?-set_ne s.buckets index j new ne ∙ at)

module _ (b : BigUint) where
  -- an empty bucket, or one whose cell is no longer valid
  abbrev pub IsFree : HashSet → ℕ → ℕ → Type 0
  IsFree s current index =
      (get_elem? s.buckets index ≡ some none)
      ⊎ ((cell : HashSetCell) × (get_elem? s.buckets index ≡ some (some cell))
          × (is_valid cell current ≡ false))

  pub Found-IsFree :
      (s : HashSet) (value current n i index : ℕ) (is_new : Bool)
      → Found b s value current n i index is_new
      → IsFree s current index
  Found-IsFree s value current n i index is_new (empty _ _ _ p) =
      let (q, fits, at) = probe_parts s value i index none p in inl at
  Found-IsFree s value current n i index is_new (expired _ _ _ cell p invalid) =
      let (q, fits, at) = probe_parts s value i index (some cell) p in inr (cell, at, invalid)
  Found-IsFree s value current n i index is_new (later m _ _ j _ cell p valid other rest) =
      Found-IsFree s value current m (i + 1) index is_new rest

  pub free_ne :
      (s : HashSet) (current index j : ℕ) (cell : HashSetCell)
      → IsFree s current index
      → get_elem? s.buckets j ≡ some (some cell)
      → is_valid cell current ≡ true
      → index ≢ j
  free_ne s current index j cell (inl none_at) at valid e = absurd (cc (none_at, at, e))
  free_ne s current index j cell (inr (c, c_at, invalid)) at valid e =
      absurd (cc (c_at, at, e, invalid, valid))

  -- what `insert` has done when it returns `Ok`
  pub record Inserted (s : HashSet) (value current : ℕ) (s' : HashSet) (index : ℕ) : Type 0 where
    pub is_new : Bool
    pub found : Found b s value current iterations 0 index is_new
    pub cell : HashSetCell
    pub made : new_cell b value ≡ ok cell
    pub written : s' ≡ set_bucket s index (some cell)

  -- Only a write reports that it wrote.
  overwritten :
      (s : HashSet) (value current i : ℕ) (s' : HashSet)
      → insert_into_occupied_cell b s i value current ≡ ok (s', true)
      → (cell : HashSetCell) × (new_cell b value ≡ ok cell) × (s' ≡ set_bucket s i (some cell))
  unfolding insert_into_occupied_cell
  overwritten s value current i s' e =
      let (o, p, q) = >>=-eq-ok (get_bucket s i) _ e in
      let (bucket, p', q') = >>=-eq-ok (unwrap o) _ q in
      let (cell, p'', q'') = >>=-eq-ok (unwrap bucket) _ q' in
      by_number cell cell.sequence_number q''
    where
      refused :
          (cell : HashSetCell) (same : Bool)
          → ◌≡◌ {A = HashSetResult (HashSet × Bool)}
              (if same then err element_already_exists else ok (s, false))
              (ok (s', true))
          → (cell : HashSetCell) × (new_cell b value ≡ ok cell) × (s' ≡ set_bucket s i (some cell))
      refused cell true q = absurd (cc q)
      refused cell false q = absurd (cc q)

      written_when :
          (cell : HashSetCell) (old : Bool)
          → ◌≡◌ {A = HashSetResult (HashSet × Bool)}
              (if old
                then (new_cell b value >>= λ c. ok (set_bucket s i (some c), true))
                else occupied b s cell value)
              (ok (s', true))
          → (cell : HashSetCell) × (new_cell b value ≡ ok cell) × (s' ≡ set_bucket s i (some cell))
      written_when cell true q =
          let (c, made, q') = >>=-eq-ok (new_cell b value) _ q in (c, made, cc q')
      written_when cell false q = refused cell (value_biguint b cell == value) q

      by_number :
          (cell : HashSetCell) (number : Option ℕ)
          → ◌≡◌ {A = HashSetResult (HashSet × Bool)}
              (elim number [
                | none ↦ occupied b s cell value
                | some n ↦
                    if leb n current
                    then (new_cell b value >>= λ c. ok (set_bucket s i (some c), true))
                    else occupied b s cell value
              ])
              (ok (s', true))
          → (cell : HashSetCell) × (new_cell b value ≡ ok cell) × (s' ≡ set_bucket s i (some cell))
      by_number cell none q = refused cell (value_biguint b cell == value) q
      by_number cell (some n) q = written_when cell (leb n current) q

  insert_found-Inserted :
      (s : HashSet) (value current i index : ℕ) (is_new : Bool) (s' : HashSet)
      → Found b s value current iterations 0 i is_new
      → insert_found b s value current i is_new ≡ ok (s', index)
      → Inserted s value current s' index
  unfolding insert_found
  insert_found-Inserted s value current i index true s' found e =
      let (o, p, q) = >>=-eq-ok (get_bucket s i) _ e in
      let (bucket, p', q') = >>=-eq-ok (unwrap o) _ q in
      let (cell, made, q'') = >>=-eq-ok (new_cell b value) _ q' in
      let at : i ≡ index = cc q'' in
      let after : set_bucket s i (some cell) ≡ s' = cc q'' in
      record {
        is_new = true;
        found = subst (λ k. Found b s value current iterations 0 k true) at found;
        cell = cell;
        made = made;
        written = sym after ∙ ap (λ k. set_bucket s k (some cell)) at;
      }
  insert_found-Inserted s value current i index false s' found e =
      let ((s'', inserted), p, q) = >>=-eq-ok (insert_into_occupied_cell b s i value current) _ e in
      elim (Bool-cases inserted) [
        | inl wrote ↦
            let (cell, made, after) =
              overwritten s value current i s'' (p ∙ ap (λ w. ok (s'', w)) wrote) in
            let done : ok (s'', i) ≡ ok (s', index) = rw wrote at q in
            let at : i ≡ index = cc done in
            let same : s'' ≡ s' = cc done in
            record {
              is_new = false;
              found = subst (λ k. Found b s value current iterations 0 k false) at found;
              cell = cell;
              made = made;
              written = sym same ∙ after ∙ ap (λ k. set_bucket s k (some cell)) at;
            }
        | inr kept ↦ absurd (cc (rw kept at q))
      ]

  pub insert-Inserted :
      (s : HashSet) (value current index : ℕ) (s' : HashSet)
      → insert b s value current ≡ ok (s', index)
      → Inserted s value current s' index
  unfolding insert
  insert-Inserted s value current index s' e =
      let (o, p, q) = >>=-eq-ok (find_loop b s value current iterations 0 none) _ e in chosen o p q
    where
      chosen :
          (o : Option (ℕ × Bool))
          → find_loop b s value current iterations 0 none ≡ ok o
          → ◌≡◌ {A = HashSetResult (HashSet × ℕ)}
              (ok_or o full >>= λ x. insert_found b s value current x.0 x.1)
              (ok (s', index))
          → Inserted s value current s' index
      chosen none p q = absurd (cc q)
      chosen (some (i, is_new)) p q =
          insert_found-Inserted s value current i index is_new s'
            (find_loop-Found b s value current iterations 0 i is_new p) q
