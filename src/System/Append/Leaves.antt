-- ===== src/System/Append/Leaves.antt =====
-- programs/system/src/invoke/append_state.rs: the leaves that the output accounts get.
use light_protocol.Prelude.{
  ℕ, ◌+◌, ◌-◌, ◌<◌, ◌≡◌, refl, sym, ◌∙◌, subst, arith, List, [], ◌∷◌, ◌++◌, Option, some, ok,
  >>=-eq-ok, ok_injective, unwrap, get_elem?, length,
}
use light_protocol.Prelude.Words.{sub}
use light_protocol.System.Accounts.{OutputCompressedAccountWithPackedContext}
use light_protocol.System.CpiSigner.{is_some}
use light_protocol.System.AccountHash.{
  SystemEnv, hash_pubkey, hash_with_hashed_values, hash, find_or_hash,
}
use light_protocol.System.AccountHash.Known.{Coherent, find_or_hash-Coherent}
use light_protocol.System.HashInputs.{uncons}
use light_protocol.System.Append.{
  RemainingAccount, AppendState, add_below, half_word, take_address, check_data_owner,
  enter_output_tree, append_account, append_loop, create_cpi_accounts_and_instruction_data,
}
use light_protocol.System.Append.Keys.{times_self}
use light_protocol.System.Append.Trees.{
  add_below-ok, IsAppended, AreAppended, InTree, Current, Holds, enter_output_tree-InTree,
}

module _ (env : SystemEnv) (invoking_program : Option ℕ)
    (remaining_accounts : List RemainingAccount) where
  -- a leaf more in the tree
  InTree-push :
      (seen : List ℕ) (index leaves : ℕ) (state : AppendState) (instruction_data : List ℕ)
      (addresses : List (Option (List ℕ))) (known : List (ℕ × List ℕ))
      (t : InTree env invoking_program remaining_accounts seen index state)
      → state.num_leaves_in_tree + 1 ≡ leaves
      → InTree env invoking_program remaining_accounts (t.account.key ∷ seen) index (record state {
        num_leaves_in_tree = leaves;
        instruction_data = instruction_data;
        compressed_account_addresses = addresses;
        hashed_pubkeys = known;
      })
  InTree-push seen index leaves state instruction_data addresses known t more = record {
    account = t.account;
    tree = t.tree;
    found = t.found;
    reads = t.reads;
    may = t.may;
    next = t.next;
    hashed = t.hashed;
    count = times_self t.account.key seen ∙ omega (arith, t.count, more);
    own = t.own;
    all = (t.own, t.all);
    current = t.current;
  }

  -- the leaf that a round of the loop computes
  InTree-IsAppended :
      (seen : List ℕ) (state : AppendState) (output : OutputCompressedAccountWithPackedContext)
      (leaf_index : ℕ) (hashed_owner leaf : List ℕ)
      (t : InTree env invoking_program remaining_accounts seen output.merkle_tree_index state)
      → state.mt_next_index + state.num_leaves_in_tree ≡ leaf_index
      → leaf_index < half_word
      → hash_pubkey env output.compressed_account.owner ≡ some hashed_owner
      → hash_with_hashed_values env output.compressed_account hashed_owner state.hashed_merkle_tree
          leaf_index
        ≡ ok leaf
      → IsAppended env invoking_program remaining_accounts t.account seen output leaf_index leaf
  unfolding hash
  InTree-IsAppended seen state output leaf_index hashed_owner leaf t sum fits owner hashed =
      let tree = t.hashed in
      (
        t.tree,
        t.found,
        t.reads,
        t.may,
        omega (arith, sum, t.next, t.count),
        fits,
        rw (owner, tree) hashed,
      )

  -- what a round of the loop has run
  record Ran (before : AppendState) (output : OutputCompressedAccountWithPackedContext)
      (appended : ℕ × (List ℕ × AppendState)) : Type 0 where
    state : AppendState
    addresses : List (Option (List ℕ))
    leaf_index : ℕ
    leaves : ℕ
    owner : List ℕ × List (ℕ × List ℕ)
    leaf : List ℕ
    tree_account : ℕ
    entered :
        enter_output_tree env invoking_program remaining_accounts before output.merkle_tree_index
        ≡ ok state
    index_is : add_below half_word state.mt_next_index state.num_leaves_in_tree ≡ ok leaf_index
    leaves_are : add_below half_word state.num_leaves_in_tree 1 ≡ ok leaves
    owner_is : find_or_hash env state.hashed_pubkeys output.compressed_account.owner ≡ ok owner
    leaf_is :
        hash_with_hashed_values env output.compressed_account owner.0 state.hashed_merkle_tree
          leaf_index
        ≡ ok leaf
    result_is :
        (
          leaf_index,
          (
            leaf,
            record state {
              num_leaves_in_tree = leaves;
              instruction_data = state.instruction_data ++ (tree_account ∷ leaf);
              compressed_account_addresses = addresses;
              hashed_pubkeys = owner.1;
            },
          ),
        )
        ≡ appended

  append_account-Ran :
      (before : AppendState) (output : OutputCompressedAccountWithPackedContext)
      (appended : ℕ × (List ℕ × AppendState))
      → append_account env invoking_program remaining_accounts before output ≡ ok appended
      → Ran before output appended
  unfolding append_account
  append_account-Ran before output appended e =
      let (state, p, q) =
        >>=-eq-ok
          (enter_output_tree env invoking_program remaining_accounts before
            output.merkle_tree_index)
          _ e in
      let (addresses, p1, q1) =
        >>=-eq-ok
          (take_address state.compressed_account_addresses output.compressed_account.address) _ q in
      let (leaf_index, p2, q2) =
        >>=-eq-ok (add_below half_word state.mt_next_index state.num_leaves_in_tree) _ q1 in
      let (leaves, p3, q3) = >>=-eq-ok (add_below half_word state.num_leaves_in_tree 1) _ q2 in
      let (u, p4, q4) =
        >>=-eq-ok
          (check_data_owner (is_some output.compressed_account.account_data) invoking_program) _
          q3 in
      let (owner, p5, q5) =
        >>=-eq-ok (find_or_hash env state.hashed_pubkeys output.compressed_account.owner) _ q4 in
      let (leaf, p6, q6) =
        >>=-eq-ok
          (hash_with_hashed_values env output.compressed_account owner.0 state.hashed_merkle_tree
            leaf_index)
          _ q5 in
      let (tree_account, p7, q7) = >>=-eq-ok (sub state.index_merkle_tree_account 1) _ q6 in
      record {
        state = state;
        addresses = addresses;
        leaf_index = leaf_index;
        leaves = leaves;
        owner = owner;
        leaf = leaf;
        tree_account = tree_account;
        entered = p;
        index_is = p2;
        leaves_are = p3;
        owner_is = p5;
        leaf_is = p6;
        result_is = ok_injective q7;
      }

  pushed-Holds :
      (seen : List ℕ) (index leaves : ℕ) (state : AppendState) (instruction_data : List ℕ)
      (addresses : List (Option (List ℕ))) (known : List (ℕ × List ℕ))
      → Coherent env known
      → (t : InTree env invoking_program remaining_accounts seen index state)
      → state.num_leaves_in_tree + 1 ≡ leaves
      → Holds env invoking_program remaining_accounts (t.account.key ∷ seen) (record state {
        num_leaves_in_tree = leaves;
        instruction_data = instruction_data;
        compressed_account_addresses = addresses;
        hashed_pubkeys = known;
      })
  pushed-Holds seen index leaves state instruction_data addresses known c t more = record {
    known = c;
    in_current =
        subst
          (λ o.
            Current env invoking_program remaining_accounts (t.account.key ∷ seen) o (record state {
              num_leaves_in_tree = leaves;
              instruction_data = instruction_data;
              compressed_account_addresses = addresses;
              hashed_pubkeys = known;
            }))
          (sym t.current)
          (InTree-push seen index leaves state instruction_data addresses known t more);
  }

  -- a round of the loop appends the next leaf of its tree
  append_account-IsAppended :
      (seen : List ℕ) (before : AppendState) (output : OutputCompressedAccountWithPackedContext)
      (appended : ℕ × (List ℕ × AppendState))
      → Holds env invoking_program remaining_accounts seen before
      → Ran before output appended
      → (account : RemainingAccount) × IsAppended env invoking_program remaining_accounts account
          seen output appended.0 appended.1.0
        × Holds env invoking_program remaining_accounts (account.key ∷ seen) appended.1.1
  append_account-IsAppended seen before output appended h r =
      let index = output.merkle_tree_index in
      let (known, t) =
        enter_output_tree-InTree env invoking_program remaining_accounts seen before r.state index h
          r.entered in
      let (hashed_owner, known') =
        find_or_hash-Coherent env r.state.hashed_pubkeys output.compressed_account.owner r.owner
          known r.owner_is in
      let (sum, fits) =
        add_below-ok half_word r.state.mt_next_index r.state.num_leaves_in_tree r.index_is in
      let (more, in_range) = add_below-ok half_word r.state.num_leaves_in_tree 1 r.leaves_are in
      subst
        (λ a.
          (account : RemainingAccount) × IsAppended env invoking_program remaining_accounts account
            seen output a.0 a.1.0
          × Holds env invoking_program remaining_accounts (account.key ∷ seen) a.1.1)
        r.result_is
        (
          t.account,
          InTree-IsAppended seen r.state output r.leaf_index r.owner.0 r.leaf t sum fits
              hashed_owner r.leaf_is,
          pushed-Holds seen index r.leaves r.state
              (r.state.instruction_data ++ (r.tree_account ∷ r.leaf)) r.addresses r.owner.1 known' t
              more,
        )

  append_loop-AreAppended :
      (seen : List ℕ) (state : AppendState)
      (outputs : List OutputCompressedAccountWithPackedContext) (index_slots : List ℕ)
      (leaf_slots : List (List ℕ)) (appended : List ℕ × (List (List ℕ) × AppendState))
      → Holds env invoking_program remaining_accounts seen state
      → append_loop env invoking_program remaining_accounts state outputs index_slots leaf_slots
        ≡ ok appended
      → AreAppended env invoking_program remaining_accounts seen outputs appended.0 appended.1.0
  unfolding append_loop
  append_loop-AreAppended seen state [] index_slots leaf_slots appended h e = tt
  append_loop-AreAppended seen state (output ∷ outputs) index_slots leaf_slots appended h e =
      let (done, p, q) =
        >>=-eq-ok (append_account env invoking_program remaining_accounts state output) _ e in
      let (index_slot, p1, q1) = >>=-eq-ok (unwrap (uncons index_slots)) _ q in
      let (leaf_slot, p2, q2) = >>=-eq-ok (unwrap (uncons leaf_slots)) _ q1 in
      let (rest, p3, q3) =
        >>=-eq-ok
          (append_loop env invoking_program remaining_accounts done.1.1 outputs index_slot.1
            leaf_slot.1)
          _ q2 in
      let (account, here, h1) =
        append_account-IsAppended seen state output done h
          (append_account-Ran state output done p) in
      subst
        (λ r. AreAppended env invoking_program remaining_accounts seen (output ∷ outputs) r.0 r.1.0)
        (ok_injective q3)
        (
          account,
          here,
          append_loop-AreAppended (account.key ∷ seen) done.1.1 outputs index_slot.1 leaf_slot.1
              rest h1 p3,
        )

  -- If `create_cpi_accounts_and_instruction_data` returns, and the known hashes of public
  -- keys are right before, each output account gets the next leaf of its tree: its leaf index
  -- is the tree's next index with the number of the output accounts before it that go to a
  -- tree with the same key, by whatever index among the remaining accounts, and is below 2 ^
  -- 32. The program may write to the tree, and the leaf is the hash of the account for the
  -- tree's key and this index.
  pub create_cpi_accounts-AreAppended :
      (outputs : List OutputCompressedAccountWithPackedContext) (index_slots : List ℕ)
      (leaf_slots : List (List ℕ)) (addresses : List (Option (List ℕ))) (known : List (ℕ × List ℕ))
      (sequence_numbers : List (ℕ × ℕ)) (accounts : List ℕ)
      (appended : List ℕ × (List (List ℕ) × AppendState))
      → Coherent env known
      → create_cpi_accounts_and_instruction_data env invoking_program remaining_accounts outputs
          index_slots leaf_slots addresses known sequence_numbers accounts
        ≡ ok appended
      → AreAppended env invoking_program remaining_accounts [] outputs appended.0 appended.1.0
  unfolding create_cpi_accounts_and_instruction_data
  create_cpi_accounts-AreAppended outputs index_slots leaf_slots addresses known sequence_numbers
        accounts appended c e =
      let (last, p, q) = >>=-eq-ok (unwrap (get_elem? outputs (length outputs - 1))) _ e in
      append_loop-AreAppended [] _ outputs index_slots leaf_slots appended
        (record { known = c; in_current = refl }) q
