-- ===== src/System/HashInputs/Leaves.antt =====
-- programs/system/src/invoke/verify_state_proof.rs: the leaves of the input accounts are the hashes
-- that the accounts have by themselves.
use light_protocol.Prelude.{
  ℕ, suc, ◌≡◌, refl, sym, ap, ◌∙◌, subst, true, List, [], ◌∷◌, Option, none, some, ok, >>=-eq-ok,
  ok_injective, unwrap, unwrap-ok, get_elem?, length, ◌==◌, ==_iff, Bool-cases, inl, inr,
}
use light_protocol.System.Accounts.{PackedCompressedAccountWithMerkleContext}
use light_protocol.System.AccountHash.{
  SystemEnv, hash_pubkey, hash_with_hashed_values, hash, find_or_hash,
}
use light_protocol.System.AccountHash.Known.{Coherent, Coherent-append, find_or_hash-Coherent}
use light_protocol.System.HashInputs.{
  HashState, is_index, uncons, store_address, no_queue_index, enter_tree, enter_owner, hash_loop,
  hash_input_compressed_accounts,
}

module _ (env : SystemEnv) (remaining_accounts : List ℕ) where
  -- the tree at an index has the hash
  abbrev TreeAt : ℕ → List ℕ → Type 0
  TreeAt index hashed =
      (key : ℕ) × (get_elem? remaining_accounts index ≡ some key)
      × (hash_pubkey env key ≡ some hashed)

  abbrev CurrentTree : Option ℕ → List ℕ → Type 0
  CurrentTree none hashed = Unit {0}
  CurrentTree (some index) hashed = TreeAt index hashed

  -- the variables of the loop hold the hashes that they stand for
  record Holds (state : HashState) : Type 0 where
    of_owner : hash_pubkey env state.owner_pubkey ≡ some state.hashed_owner
    of_tree : CurrentTree state.current_mt_index state.current_hashed_mt
    of_known : Coherent env state.hashed_pubkeys

  current-TreeAt :
      (current : Option ℕ) (index : ℕ) (hashed : List ℕ)
      → CurrentTree current hashed
      → is_index current index ≡ true
      → TreeAt index hashed
  current-TreeAt none index hashed t e = absurd (cc e)
  current-TreeAt (some i) index hashed t e = subst (λ n. TreeAt n hashed) ((==_iff i index).0 e) t

  enter_tree-Holds :
      (state entered : HashState) (index : ℕ)
      → Holds state
      → enter_tree env remaining_accounts state index ≡ ok entered
      → Holds entered × TreeAt index entered.current_hashed_mt
  unfolding enter_tree
  enter_tree-Holds state entered index h e =
      elim (Bool-cases (is_index state.current_mt_index index)) [
        | inl same ↦
            subst (λ s. Holds s × TreeAt index s.current_hashed_mt) (ok_injective (rw same at e))
              (
                h,
                current-TreeAt state.current_mt_index index state.current_hashed_mt h.of_tree same,
              )
        | inr other ↦
            let (key, p, q) =
              >>=-eq-ok (unwrap (get_elem? remaining_accounts index)) _ (rw other at e) in
            let (found, p1, q1) = >>=-eq-ok (find_or_hash env state.hashed_pubkeys key) _ q in
            let (hashed, known) =
              find_or_hash-Coherent env state.hashed_pubkeys key found h.of_known p1 in
            let at : TreeAt index found.0 =
              (key, unwrap-ok (get_elem? remaining_accounts index) p, hashed) in
            subst (λ s. Holds s × TreeAt index s.current_hashed_mt) (ok_injective q1)
              (record { of_owner = h.of_owner; of_tree = at; of_known = known }, at)
      ]

  enter_owner-Holds :
      (state entered : HashState) (owner : ℕ)
      → Holds state
      → enter_owner env remaining_accounts state owner ≡ ok entered
      → Holds entered
        × (hash_pubkey env owner ≡ some entered.hashed_owner)
        × (entered.current_hashed_mt ≡ state.current_hashed_mt)
  unfolding enter_owner
  enter_owner-Holds state entered owner h e = elim (Bool-cases (state.owner_pubkey == owner)) [
    | inl same ↦
        subst
          (λ s.
            Holds s
            × (hash_pubkey env owner ≡ some s.hashed_owner)
            × (s.current_hashed_mt ≡ state.current_hashed_mt))
          (ok_injective (rw same at e))
          (
            h,
            subst (λ n. hash_pubkey env n ≡ some state.hashed_owner)
                ((==_iff state.owner_pubkey owner).0 same) h.of_owner,
            refl,
          )
    | inr other ↦
        let (found, p, q) =
          >>=-eq-ok (find_or_hash env state.hashed_pubkeys owner) _ (rw other at e) in
        let (hashed, known) =
          find_or_hash-Coherent env state.hashed_pubkeys owner found h.of_known p in
        subst
          (λ s.
            Holds s
            × (hash_pubkey env owner ≡ some s.hashed_owner)
            × (s.current_hashed_mt ≡ state.current_hashed_mt))
          (ok_injective q)
          (record { of_owner = hashed; of_tree = h.of_tree; of_known = known }, hashed, refl)
  ]

  -- a leaf is the hash of its account in its tree at its index, and there is one for each account
  abbrev pub AreLeaves : List PackedCompressedAccountWithMerkleContext → List (List ℕ) → Type 0
  AreLeaves [] leaves = Unit {0}
  AreLeaves (account ∷ accounts) [] = ⊥
  AreLeaves (account ∷ accounts) (leaf ∷ leaves) =
      ((key : ℕ) × (get_elem? remaining_accounts account.merkle_context.merkle_tree_pubkey_index
          ≡ some key)
        × (hash env account.compressed_account key account.merkle_context.leaf_index ≡ ok leaf))
      × AreLeaves accounts leaves

  hash_loop-AreLeaves :
      (j : ℕ) (state : HashState) (accounts : List PackedCompressedAccountWithMerkleContext)
      (slots : List (List ℕ)) (addresses : List (Option (List ℕ)))
      (hashed : List (List ℕ) × (List (Option (List ℕ)) × List (ℕ × List ℕ)))
      → Holds state
      → hash_loop env remaining_accounts j state accounts slots addresses ≡ ok hashed
      → AreLeaves accounts hashed.0 × (length hashed.0 ≡ length slots) × Coherent env hashed.1.1
  unfolding hash_loop hash
  hash_loop-AreLeaves j state [] slots addresses hashed h e =
      subst (λ r. Unit {0} × (length r.0 ≡ length slots) × Coherent env r.1.1) (ok_injective e)
        (tt, refl, h.of_known)
  hash_loop-AreLeaves j state (account ∷ accounts) slots addresses hashed h e =
      let (addresses', p, q) =
        >>=-eq-ok (store_address addresses j account.compressed_account.address) _ e in
      let (u, p1, q1) = >>=-eq-ok (no_queue_index account.merkle_context.queue_index) _ q in
      let (in_tree, p2, q2) =
        >>=-eq-ok
          (enter_tree env remaining_accounts state account.merkle_context.merkle_tree_pubkey_index)
          _ q1 in
      let (of_owner, p3, q3) =
        >>=-eq-ok (enter_owner env remaining_accounts in_tree account.compressed_account.owner) _
          q2 in
      let (leaf, p4, q4) =
        >>=-eq-ok
          (hash_with_hashed_values env account.compressed_account of_owner.hashed_owner
            of_owner.current_hashed_mt account.merkle_context.leaf_index)
          _ q3 in
      let (slot, p5, q5) = >>=-eq-ok (unwrap (uncons slots)) _ q4 in
      let (rest, p6, q6) =
        >>=-eq-ok (hash_loop env remaining_accounts (suc j) of_owner accounts slot.1 addresses') _
          q5 in
      let (h1, (key, found, hashed_mt)) =
        enter_tree-Holds state in_tree account.merkle_context.merkle_tree_pubkey_index h p2 in
      let (h2, hashed_owner, kept) =
        enter_owner-Holds in_tree of_owner account.compressed_account.owner h1 p3 in
      let (leaves, size, known) =
        hash_loop-AreLeaves (suc j) of_owner accounts slot.1 addresses' rest h2 p6 in
      let tree : hash_pubkey env key ≡ some of_owner.current_hashed_mt =
        hashed_mt ∙ ap some (sym kept) in
      subst
        (λ r. AreLeaves (account ∷ accounts) r.0 × (length r.0 ≡ length slots) × Coherent env r.1.1)
        (ok_injective q6)
        (
          ((key, found, rw (hashed_owner, tree) p4), leaves),
          ap suc size ∙ sym (length_uncons slots slot (unwrap-ok (uncons slots) p5)),
          known,
        )
    where
      length_uncons :
          (xs : List (List ℕ)) (parts : List ℕ × List (List ℕ))
          → uncons xs ≡ some parts
          → length xs ≡ suc (length parts.1)
      length_uncons [] parts e = absurd (cc e)
      length_uncons (x ∷ xs) parts e = ap (λ o. size_of o) e
        where
          size_of : Option (List ℕ × List (List ℕ)) → ℕ
          size_of none = 0
          size_of (some p) = suc (length p.1)

  -- If `hash_input_compressed_accounts` returns, and the known hashes of public keys are
  -- right before, the leaf of each input account is the one that `CompressedAccount::hash`
  -- computes from the account, the key of its tree and its leaf index. There are as many
  -- leaves as before, and the known hashes are still right.
  pub hash_input_compressed_accounts-AreLeaves :
      (accounts : List PackedCompressedAccountWithMerkleContext) (slots : List (List ℕ))
      (addresses : List (Option (List ℕ))) (known : List (ℕ × List ℕ))
      (hashed : List (List ℕ) × (List (Option (List ℕ)) × List (ℕ × List ℕ)))
      → Coherent env known
      → hash_input_compressed_accounts env remaining_accounts accounts slots addresses known
        ≡ ok hashed
      → AreLeaves accounts hashed.0 × (length hashed.0 ≡ length slots) × Coherent env hashed.1.1
  unfolding hash_input_compressed_accounts
  hash_input_compressed_accounts-AreLeaves accounts slots addresses known hashed c e =
      let (first, p, q) = >>=-eq-ok (unwrap (get_elem? accounts 0)) _ e in
      let (hashed_owner, p1, q1) =
        >>=-eq-ok (unwrap (hash_pubkey env first.compressed_account.owner)) _ q in
      let owner = unwrap-ok (hash_pubkey env first.compressed_account.owner) p1 in
      hash_loop-AreLeaves 0 _ accounts slots addresses hashed
        (record {
          of_owner = owner;
          of_tree = tt;
          of_known = Coherent-append env known first.compressed_account.owner hashed_owner c owner;
        })
        q1
