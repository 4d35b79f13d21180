-- ===== src/System/Append.antt =====
-- programs/system/src/invoke/append_state.rs: the leaves of the output accounts, and the data for the
-- append to the trees. A state Merkle tree account is what reading it gives.
pub mod Addresses
pub mod Keys
pub mod Trees
pub mod Leaves
mod Tests
use light_protocol.Prelude.{
  zero, replicate, ℕ, suc, ◌+◌, ◌-◌, Bool, true, false, not, List, [], ◌∷◌, ◌++◌, Option, none,
  some, Result, ok, err, panic, ◌>>=◌, ◌>>◌, guard, unwrap, get_elem?, length, ltb, ◌==◌, ◌&&◌,
  ◌||◌, if◌then◌else◌,
}
use light_protocol.Prelude.Bytes.{to_le_bytes}
use light_protocol.Prelude.Words.{add, sub}
use light_protocol.System.Accounts.{
  SystemProgramError, invalid_merkle_tree_owner, output_merkle_tree_not_unique,
  output_merkle_tree_indices_not_in_order, invalid_address, invoking_program_not_provided,
  OutputCompressedAccountWithPackedContext,
}
use light_protocol.System.CpiSigner.{SystemError, system_program_error, is_some}
use light_protocol.System.AccountHash.{
  SystemEnv, hash_pubkey, hash_with_hashed_values, find_hashed, find_or_hash,
}
use light_protocol.System.HashInputs.{is_index, uncons}

-- what is read of a state Merkle tree account
pub record StateMerkleTree : Type 0 where
  pub next_index : ℕ
  pub sequence_number : ℕ
  pub network_fee : ℕ
  pub program_owner : ℕ

pub record RemainingAccount : Type 0 where
  pub key : ℕ
  pub state_merkle_tree : Result SystemError StateMerkleTree

-- `a + b` of numbers of `bound` values, which panics on overflow
abbrev pub add_below : ℕ → ℕ → ℕ → Result SystemError ℕ
add_below bound a b = if ltb (a + b) bound then ok (a + b) else panic

-- the sizes of `u8` and `u32`
abbrev pub byte_size : ℕ
byte_size = 256

abbrev pub half_word : ℕ
half_word = 4294967296

abbrev pub is_program : Option ℕ → ℕ → Bool
is_program none program_owner = false
is_program (some invoking_program) program_owner = invoking_program == program_owner

-- the next index, the network fee and the sequence number
unfoldable pub check_program_owner_state_merkle_tree :
    RemainingAccount → Option ℕ → Result SystemError (ℕ × (Option ℕ × ℕ))
check_program_owner_state_merkle_tree account invoking_program = do
  tree ← account.state_merkle_tree
  seq ← add tree.sequence_number 1
  next_index ← if ltb tree.next_index half_word then ok tree.next_index else panic
  let network_fee = if tree.network_fee == 0 then none else some tree.network_fee
  guard ((tree.program_owner == 0) || is_program invoking_program tree.program_owner)
      (system_program_error invalid_merkle_tree_owner)
  ok (next_index, (network_fee, seq))

-- The variables of the loop but for the slices that it fills; no index stands for -1.
pub record AppendState : Type 0 where
  pub current_index : Option ℕ
  pub num_leaves_in_tree : ℕ
  pub mt_next_index : ℕ
  pub instruction_data : List ℕ
  pub hashed_merkle_tree : List ℕ
  pub index_merkle_tree_account : ℕ
  pub merkle_tree_pubkeys : List ℕ
  pub compressed_account_addresses : List (Option (List ℕ))
  pub hashed_pubkeys : List (ℕ × List ℕ)
  pub sequence_numbers : List (ℕ × ℕ)
  pub accounts : List ℕ

abbrev pub is_above : ℕ → Option ℕ → Bool
is_above index none = true
is_above index (some current) = ltb current index

abbrev pub contains : List ℕ → ℕ → Bool
contains [] key = false
contains (k ∷ keys) key = (k == key) || contains keys key

-- `[u8; 32] == [u8; 32]`
abbrev pub bytes_eq : List ℕ → List ℕ → Bool
bytes_eq [] [] = true
bytes_eq [] (y ∷ ys) = false
bytes_eq (x ∷ xs) [] = false
bytes_eq (x ∷ xs) (y ∷ ys) = (x == y) && bytes_eq xs ys

-- `filter(|x| x.is_some())`, the values
abbrev pub filter_some : List (Option (List ℕ)) → List (List ℕ)
filter_some [] = []
filter_some (none ∷ addresses) = filter_some addresses
filter_some (some address ∷ addresses) = address ∷ filter_some addresses

-- `position` of an address
abbrev pub position : List (List ℕ) → List ℕ → Option ℕ
position [] address = none
position (x ∷ xs) address =
    let rest = position xs address in
    if bytes_eq x address then some 0 else elim rest [ none ↦ none | some n ↦ some (suc n) ]

-- `Vec::remove`, which panics out of bounds
unfoldable pub remove : List (Option (List ℕ)) → ℕ → Result SystemError (List (Option (List ℕ)))
remove [] i = panic
remove (x ∷ xs) zero = ok xs
remove (x ∷ xs) (suc i) = do rest ← remove xs i; ok (x ∷ rest)

-- Check 3 of an output account
unfoldable pub take_address :
    List (Option (List ℕ)) → Option (List ℕ) → Result SystemError (List (Option (List ℕ)))
take_address addresses none = ok addresses
take_address addresses (some address) = elim (position (filter_some addresses) address) [
  | none ↦ err (system_program_error invalid_address)
  | some position ↦ remove addresses position
]

-- only accounts of a program have data
unfoldable pub check_data_owner : Bool → Option ℕ → Result SystemError (Unit {0})
check_data_owner has_data invoking_program =
    guard (not (has_data && not (is_some invoking_program)))
      (system_program_error invoking_program_not_provided)

module _ (env : SystemEnv) (invoking_program : Option ℕ)
    (remaining_accounts : List RemainingAccount) where
  -- the hash of a tree's key, which does not become known
  unfoldable pub hash_tree : List (ℕ × List ℕ) → ℕ → Result SystemError (List ℕ)
  hash_tree hashed_pubkeys key = elim (find_hashed env hashed_pubkeys key) [
    | none ↦ unwrap (hash_pubkey env key)
    | some hashed ↦ ok hashed
  ]

  -- a tree that is new to the loop, with Check 1
  unfoldable pub add_tree : AppendState → ℕ → Result SystemError AppendState
  add_tree state index = do
    account ← unwrap (get_elem? remaining_accounts index)
    (next_index, fee_and_seq) ← check_program_owner_state_merkle_tree account invoking_program
    hashed ← hash_tree state.hashed_pubkeys account.key
    guard (not (contains state.merkle_tree_pubkeys account.key))
        (system_program_error output_merkle_tree_not_unique)
    index_merkle_tree_account ← add_below byte_size state.index_merkle_tree_account 1
    ok (record state {
      current_index = some index;
      num_leaves_in_tree = 0;
      mt_next_index = next_index;
      hashed_merkle_tree = hashed;
      index_merkle_tree_account = index_merkle_tree_account;
      merkle_tree_pubkeys = state.merkle_tree_pubkeys ++ (account.key ∷ []);
      sequence_numbers = state.sequence_numbers ++ ((account.key, fee_and_seq.1) ∷ []);
      accounts = state.accounts ++ (account.key ∷ []);
    })

  -- the same tree, a new one, or, in Check 2, one that is out of order
  unfoldable pub enter_output_tree : AppendState → ℕ → Result SystemError AppendState
  enter_output_tree state index =
      let added = add_tree state index in
      if is_index state.current_index index
      then ok state
      else if is_above index state.current_index
      then added
      else err (system_program_error output_merkle_tree_indices_not_in_order)

  -- one round of the loop: the index and the hash of the leaf
  unfoldable pub append_account :
      AppendState
      → OutputCompressedAccountWithPackedContext
      → Result SystemError (ℕ × (List ℕ × AppendState))
  append_account before account = do
    state ← enter_output_tree before account.merkle_tree_index
    addresses ← take_address state.compressed_account_addresses account.compressed_account.address
    leaf_index ← add_below half_word state.mt_next_index state.num_leaves_in_tree
    num_leaves_in_tree ← add_below half_word state.num_leaves_in_tree 1
    check_data_owner (is_some account.compressed_account.account_data) invoking_program
    (hashed_owner, hashed_pubkeys) ←
        find_or_hash env state.hashed_pubkeys account.compressed_account.owner
    hash ←
        hash_with_hashed_values env account.compressed_account hashed_owner state.hashed_merkle_tree
          leaf_index
    tree_account ← sub state.index_merkle_tree_account 1
    ok (
      leaf_index,
      (
        hash,
        record state {
          num_leaves_in_tree = num_leaves_in_tree;
          instruction_data = state.instruction_data ++ (tree_account ∷ hash);
          compressed_account_addresses = addresses;
          hashed_pubkeys = hashed_pubkeys;
        },
      ),
    )

  -- The loop, with the slots of the indices and of the hashes that are left, which the result has
  -- filled.
  unfoldable pub append_loop :
      AppendState
      → List OutputCompressedAccountWithPackedContext
      → List ℕ
      → List (List ℕ)
      → Result SystemError (List ℕ × (List (List ℕ) × AppendState))
  append_loop state [] indices hashes = ok (indices, (hashes, state))
  append_loop state (account ∷ accounts) indices hashes = do
    (leaf_index, hash_and_state) ← append_account state account
    (index_slot, index_slots) ← unwrap (uncons indices)
    (hash_slot, hash_slots) ← unwrap (uncons hashes)
    (rest_indices, rest) ← append_loop hash_and_state.1 accounts index_slots hash_slots
    ok (leaf_index ∷ rest_indices, (hash_and_state.0 ∷ rest.0, rest.1))

  unfoldable pub create_cpi_accounts_and_instruction_data :
      List OutputCompressedAccountWithPackedContext
      → List ℕ
      → List (List ℕ)
      → List (Option (List ℕ))
      → List (ℕ × List ℕ)
      → List (ℕ × ℕ)
      → List ℕ
      → Result SystemError (List ℕ × (List (List ℕ) × AppendState))
  create_cpi_accounts_and_instruction_data outputs indices hashes addresses hashed_pubkeys
        sequence_numbers accounts =
      do
        last ← unwrap (get_elem? outputs (length outputs - 1))
        append_loop
            (record {
              current_index = none;
              num_leaves_in_tree = 0;
              mt_next_index = 0;
              instruction_data =
                  199
                  ∷ (144
                      ∷ (10 ∷ (82 ∷ (247 ∷ (142 ∷ (143 ∷ (7 ∷ to_le_bytes 4 (length hashes))))))));
              hashed_merkle_tree = replicate 32 0;
              index_merkle_tree_account = 0;
              merkle_tree_pubkeys = [];
              compressed_account_addresses = addresses;
              hashed_pubkeys = hashed_pubkeys;
              sequence_numbers = sequence_numbers;
              accounts = accounts;
            })
            outputs indices hashes
