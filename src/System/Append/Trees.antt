-- ===== src/System/Append/Trees.antt =====
-- programs/system/src/invoke/append_state.rs: the trees of the output accounts.
use light_protocol.Prelude.{
  ℕ, ◌+◌, ◌<◌, ◌≡◌, ◌⊎◌, inl, inr, refl, sym, ap, ◌∙◌, subst, arith, Bool, true, false, not, List,
  [], ◌∷◌, Option, none, some, Result, ok, err, panic, >>=-eq-ok, ok_injective, guard, guard-ok,
  unwrap, unwrap-ok, get_elem?, ltb, ◌==◌, ==_iff, ◌||◌, if◌then◌else◌, Bool-cases,
}
use light_protocol.Prelude.Words.{add}
use light_protocol.System.Accounts.{
  OutputCompressedAccountWithPackedContext, invalid_merkle_tree_owner,
  output_merkle_tree_not_unique, output_merkle_tree_indices_not_in_order,
}
use light_protocol.System.CpiSigner.{SystemError, system_program_error}
use light_protocol.System.AccountHash.{SystemEnv, hash_pubkey, hash, find_hashed}
use light_protocol.System.AccountHash.Known.{Coherent, find-Coherent}
use light_protocol.System.HashInputs.{is_index}
use light_protocol.System.Append.Keys.{times, AllIn, new-times, contains-last, AllIn-append}
use light_protocol.System.Append.{
  StateMerkleTree, RemainingAccount, AppendState, add_below, byte_size, half_word, is_program,
  is_above, contains, check_program_owner_state_merkle_tree, hash_tree, add_tree, enter_output_tree,
}

not-true : (t : Bool) → not t ≡ true → t ≡ false
not-true true e = absurd (cc e)
not-true false e = refl

pub add_below-ok : (bound a b : ℕ) {r : ℕ} → add_below bound a b ≡ ok r → (a + b ≡ r) × (r < bound)
add_below-ok bound a b {r} e = elim (Bool-cases (ltb (a + b) bound)) [
  | inl fits ↦ let same : a + b ≡ r = ok_injective (rw fits at e) in (same, ground arith)
  | inr over ↦ absurd (cc (rw over at e))
]

-- who may write to a tree: all programs, or the one that owns it
abbrev pub MayWrite : Option ℕ → StateMerkleTree → Type 0
MayWrite invoking_program tree =
    (tree.program_owner ≡ 0) ⊎ (invoking_program ≡ some tree.program_owner)

may_write :
    (invoking_program : Option ℕ) (tree : StateMerkleTree)
    → ((tree.program_owner == 0) || is_program invoking_program tree.program_owner) ≡ true
    → MayWrite invoking_program tree
may_write invoking_program tree e = elim (Bool-cases (tree.program_owner == 0)) [
  | inl free ↦ inl ((==_iff tree.program_owner 0).0 free)
  | inr owned ↦ inr (by_program invoking_program (rw owned at e))
]
  where
    by_program :
        (program : Option ℕ)
        → is_program program tree.program_owner ≡ true
        → program ≡ some tree.program_owner
    by_program none e = absurd (cc e)
    by_program (some p) e = ap some ((==_iff p tree.program_owner).0 e)

-- what the check of a tree reads
check_program_owner-Reads :
    (account : RemainingAccount) (invoking_program : Option ℕ) (read : ℕ × (Option ℕ × ℕ))
    → check_program_owner_state_merkle_tree account invoking_program ≡ ok read
    → (tree : StateMerkleTree) × (account.state_merkle_tree ≡ ok tree)
      × (read.0 ≡ tree.next_index)
      × MayWrite invoking_program tree
unfolding check_program_owner_state_merkle_tree
check_program_owner-Reads account invoking_program read e =
    let (tree, p, q) = >>=-eq-ok account.state_merkle_tree _ e in
    let (seq, p1, q1) = >>=-eq-ok (add tree.sequence_number 1) _ q in
    let (next, p2, q2) =
      >>=-eq-ok {E = SystemError}
        (if ltb tree.next_index half_word then ok tree.next_index else panic) _ q1 in
    let test = (tree.program_owner == 0) || is_program invoking_program tree.program_owner in
    let (u, p3, q3) =
      >>=-eq-ok (guard test (system_program_error invalid_merkle_tree_owner)) _ q2 in
    (
      tree,
      p,
      ap (λ r. r.0) (sym (ok_injective q3)) ∙ sym (fits tree.next_index next p2),
      may_write invoking_program tree
          (guard-ok test (system_program_error invalid_merkle_tree_owner) p3),
    )
  where
    fits :
        (n next : ℕ)
        → ◌≡◌ {A = Result SystemError ℕ} (if ltb n half_word then ok n else panic) (ok next)
        → n ≡ next
    fits n next e = elim (Bool-cases (ltb n half_word)) [
      | inl small ↦ ok_injective (rw small at e)
      | inr big ↦ absurd (cc (rw big at e))
    ]

module _ (env : SystemEnv) (invoking_program : Option ℕ)
    (remaining_accounts : List RemainingAccount) where
  -- The tree of an output account, in the remaining account: the leaf after those that are in the
  -- tree and those of the outputs before it, which go to the trees with the keys `seen`.
  abbrev pub IsAppended :
      RemainingAccount → List ℕ → OutputCompressedAccountWithPackedContext → ℕ → List ℕ → Type 0
  IsAppended account seen output leaf_index leaf =
      (tree : StateMerkleTree) × (get_elem? remaining_accounts output.merkle_tree_index
        ≡ some account)
      × (account.state_merkle_tree ≡ ok tree)
      × MayWrite invoking_program tree
      × (leaf_index ≡ tree.next_index + times account.key seen)
      × (leaf_index < half_word)
      × (hash env output.compressed_account account.key leaf_index ≡ ok leaf)

  abbrev pub AreAppended :
      List ℕ → List OutputCompressedAccountWithPackedContext → List ℕ → List (List ℕ) → Type 0
  AreAppended seen [] indices leaves = Unit {0}
  AreAppended seen (output ∷ outputs) [] leaves = ⊥
  AreAppended seen (output ∷ outputs) (index ∷ indices) [] = ⊥
  AreAppended seen (output ∷ outputs) (index ∷ indices) (leaf ∷ leaves) =
      (account : RemainingAccount) × IsAppended account seen output index leaf
      × AreAppended (account.key ∷ seen) outputs indices leaves

  -- what the variables of the loop hold within a tree
  pub record InTree (seen : List ℕ) (index : ℕ) (state : AppendState) : Type 0 where
    pub account : RemainingAccount
    pub tree : StateMerkleTree
    pub found : get_elem? remaining_accounts index ≡ some account
    pub reads : account.state_merkle_tree ≡ ok tree
    pub may : MayWrite invoking_program tree
    pub next : state.mt_next_index ≡ tree.next_index
    pub hashed : hash_pubkey env account.key ≡ some state.hashed_merkle_tree
    pub count : times account.key seen ≡ state.num_leaves_in_tree
    pub own : contains state.merkle_tree_pubkeys account.key ≡ true
    pub all : AllIn state.merkle_tree_pubkeys seen
    pub current : state.current_index ≡ some index

  abbrev pub Current : List ℕ → Option ℕ → AppendState → Type 0
  Current seen none state = seen ≡ []
  Current seen (some index) state = InTree seen index state

  pub record Holds (seen : List ℕ) (state : AppendState) : Type 0 where
    pub known : Coherent env state.hashed_pubkeys
    pub in_current : Current seen state.current_index state

  hash_tree-eq :
      (known : List (ℕ × List ℕ)) (key : ℕ) (hashed : List ℕ)
      → Coherent env known
      → hash_tree env invoking_program remaining_accounts known key ≡ ok hashed
      → hash_pubkey env key ≡ some hashed
  unfolding hash_tree
  hash_tree-eq known key hashed c e = by_find (find_hashed env known key) refl e
    where
      by_find :
          (o : Option (List ℕ))
          → find_hashed env known key ≡ o
          → ◌≡◌ {A = Result SystemError (List ℕ)}
              (elim o [ none ↦ unwrap (hash_pubkey env key) | some h ↦ ok h ])
              (ok hashed)
          → hash_pubkey env key ≡ some hashed
      by_find none p e = unwrap-ok (hash_pubkey env key) e
      by_find (some h) p e = find-Coherent env known key h c p ∙ ap some (ok_injective e)

  add_tree-InTree :
      (seen : List ℕ) (state entered : AppendState) (index : ℕ)
      → Coherent env state.hashed_pubkeys
      → AllIn state.merkle_tree_pubkeys seen
      → add_tree env invoking_program remaining_accounts state index ≡ ok entered
      → Coherent env entered.hashed_pubkeys × InTree seen index entered
  unfolding add_tree
  add_tree-InTree seen state entered index known all e =
      let (account, p, q) = >>=-eq-ok (unwrap (get_elem? remaining_accounts index)) _ e in
      let (read, p1, q1) =
        >>=-eq-ok (check_program_owner_state_merkle_tree account invoking_program) _ q in
      let (hashed, p2, q2) =
        >>=-eq-ok
          (hash_tree env invoking_program remaining_accounts state.hashed_pubkeys account.key) _
          q1 in
      let (u, p3, q3) =
        >>=-eq-ok
          (guard (not (contains state.merkle_tree_pubkeys account.key))
            (system_program_error output_merkle_tree_not_unique))
          _ q2 in
      let (slot, p4, q4) = >>=-eq-ok (add_below byte_size state.index_merkle_tree_account 1) _ q3 in
      let (tree, reads, next, may) = check_program_owner-Reads account invoking_program read p1 in
      let new : contains state.merkle_tree_pubkeys account.key ≡ false = not-true _ (
        guard-ok (not (contains state.merkle_tree_pubkeys account.key))
          (system_program_error output_merkle_tree_not_unique) p3) in
      subst (λ s. Coherent env s.hashed_pubkeys × InTree seen index s) (ok_injective q4)
        (
          known,
          record {
            account = account;
            tree = tree;
            found = unwrap-ok (get_elem? remaining_accounts index) p;
            reads = reads;
            may = may;
            next = next;
            hashed = hash_tree-eq state.hashed_pubkeys account.key hashed known p2;
            count = new-times state.merkle_tree_pubkeys account.key seen all new;
            own = contains-last state.merkle_tree_pubkeys account.key;
            all = AllIn-append state.merkle_tree_pubkeys (account.key ∷ []) seen all;
            current = refl;
          },
        )

  pub enter_output_tree-InTree :
      (seen : List ℕ) (state entered : AppendState) (index : ℕ)
      → Holds seen state
      → enter_output_tree env invoking_program remaining_accounts state index ≡ ok entered
      → Coherent env entered.hashed_pubkeys × InTree seen index entered
  unfolding enter_output_tree
  enter_output_tree-InTree seen state entered index h e =
      by_current state.current_index h.in_current e
    where
      by_current :
          (current : Option ℕ)
          → Current seen current state
          → ◌≡◌ {A = Result SystemError AppendState}
              (if is_index current index
                then ok state
                else if is_above index current
                then add_tree env invoking_program remaining_accounts state index
                else err (system_program_error output_merkle_tree_indices_not_in_order))
              (ok entered)
          → Coherent env entered.hashed_pubkeys × InTree seen index entered
      by_current none at e =
          add_tree-InTree seen state entered index h.known
            (subst (AllIn state.merkle_tree_pubkeys) (sym at) tt) e
      by_current (some i) at e = elim (Bool-cases (i == index)) [
        | inl same ↦
            subst (λ s. Coherent env s.hashed_pubkeys × InTree seen index s)
              (ok_injective (rw same at e))
              (h.known, subst (λ n. InTree seen n state) ((==_iff i index).0 same) at)
        | inr other ↦ elim (Bool-cases (ltb i index)) [
          | inl above ↦
              add_tree-InTree seen state entered index h.known at.all (rw (other, above) at e)
          | inr below ↦ absurd (cc (rw (other, below) at e))
        ]
      ]
