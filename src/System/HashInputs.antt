-- ===== src/System/HashInputs.antt =====
-- programs/system/src/invoke/verify_state_proof.rs: the leaves of the input accounts.
pub mod Leaves
use light_protocol.Prelude.{
  ℕ, suc, ◌+◌, Bool, true, false, List, [], ◌∷◌, ◌++◌, Option, none, some, Result, ok, err, panic,
  ◌>>=◌, ◌>>◌, unwrap, get_elem?, set, length, replicate, ltb, ◌==◌, if◌then◌else◌,
}
use light_protocol.System.Accounts.{PackedCompressedAccountWithMerkleContext, QueueIndex}
use light_protocol.System.CpiSigner.{SystemError}
use light_protocol.System.AccountHash.{
  SystemEnv, hash_pubkey, hash_with_hashed_values, find_or_hash,
}

-- The variables of the loop; no index stands for -1.
pub record HashState : Type 0 where
  pub owner_pubkey : ℕ
  pub hashed_owner : List ℕ
  pub current_hashed_mt : List ℕ
  pub current_mt_index : Option ℕ
  pub hashed_pubkeys : List (ℕ × List ℕ)

abbrev pub is_index : Option ℕ → ℕ → Bool
is_index none index = false
is_index (some current) index = current == index

-- `addresses[j] = Some(*address)`, if there is an address
unfoldable pub store_address :
    List (Option (List ℕ)) → ℕ → Option (List ℕ) → Result SystemError (List (Option (List ℕ)))
store_address addresses j none = ok addresses
store_address addresses j (some address) =
    if ltb j (length addresses) then ok (set addresses j (some address)) else panic

-- the first slot and those after it
abbrev pub uncons : {A : Type 0} → List A → Option (A × List A)
uncons [] = none
uncons (x ∷ xs) = some (x, xs)

-- `unimplemented!` where there is a queue index
abbrev pub no_queue_index : Option QueueIndex → Result SystemError (Unit {0})
no_queue_index none = ok tt
no_queue_index (some queue_index) = panic

module _ (env : SystemEnv) (remaining_accounts : List ℕ) where
  -- the hash of the tree of the account
  unfoldable pub enter_tree : HashState → ℕ → Result SystemError HashState
  enter_tree state index =
      let entered : Result SystemError HashState = (do
        key ← unwrap (get_elem? remaining_accounts index)
        (hashed, hashed_pubkeys) ← find_or_hash env state.hashed_pubkeys key
        ok (record state {
          current_hashed_mt = hashed;
          current_mt_index = some index;
          hashed_pubkeys = hashed_pubkeys;
        })) in
      if is_index state.current_mt_index index then ok state else entered

  -- the hash of the owner of the account
  unfoldable pub enter_owner : HashState → ℕ → Result SystemError HashState
  enter_owner state owner =
      let entered : Result SystemError HashState = (do
        (hashed, hashed_pubkeys) ← find_or_hash env state.hashed_pubkeys owner
        ok (record state {
          owner_pubkey = owner;
          hashed_owner = hashed;
          hashed_pubkeys = hashed_pubkeys;
        })) in
      if state.owner_pubkey == owner then ok state else entered

  -- The loop over the accounts, from index `j` on, with the slots of `leaves` from `j` on, which the
  -- result has filled.
  unfoldable pub hash_loop :
      ℕ
      → HashState
      → List PackedCompressedAccountWithMerkleContext
      → List (List ℕ)
      → List (Option (List ℕ))
      → Result SystemError (List (List ℕ) × (List (Option (List ℕ)) × List (ℕ × List ℕ)))
  hash_loop j state [] leaves addresses = ok (leaves, (addresses, state.hashed_pubkeys))
  hash_loop j state (account ∷ accounts) leaves addresses = do
    addresses' ← store_address addresses j account.compressed_account.address
    no_queue_index account.merkle_context.queue_index
    in_tree ← enter_tree state account.merkle_context.merkle_tree_pubkey_index
    of_owner ← enter_owner in_tree account.compressed_account.owner
    leaf ←
        hash_with_hashed_values env account.compressed_account of_owner.hashed_owner
          of_owner.current_hashed_mt account.merkle_context.leaf_index
    (slot, slots) ← unwrap (uncons leaves)
    (rest, known) ← hash_loop (suc j) of_owner accounts slots addresses'
    ok (leaf ∷ rest, known)

  unfoldable pub hash_input_compressed_accounts :
      List PackedCompressedAccountWithMerkleContext
      → List (List ℕ)
      → List (Option (List ℕ))
      → List (ℕ × List ℕ)
      → Result SystemError (List (List ℕ) × (List (Option (List ℕ)) × List (ℕ × List ℕ)))
  hash_input_compressed_accounts accounts leaves addresses hashed_pubkeys = do
    first ← unwrap (get_elem? accounts 0)
    hashed_owner ← unwrap (hash_pubkey env first.compressed_account.owner)
    hash_loop 0
        (record {
          owner_pubkey = first.compressed_account.owner;
          hashed_owner = hashed_owner;
          current_hashed_mt = replicate 32 0;
          current_mt_index = none;
          hashed_pubkeys = hashed_pubkeys ++ ((first.compressed_account.owner, hashed_owner) ∷ []);
        })
        accounts leaves addresses
