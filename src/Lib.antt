-- ===== src/Lib.antt =====
-- Light Protocol stores the state of Solana accounts as leaves of Merkle trees. This library models
-- its data structures and the core of its programs, and proves what they promise to each other.
--
-- The parts, and the files that model them (paths from the repository's root):
-- - merkle-tree/bounded-vec/src/lib.rs: BoundedVec/Plain (BoundedVec) and BoundedVec/Cyclic
--   (CyclicBoundedVec and its iterator), over the cells of an allocation (BoundedVec/Cells). Each
--   operation has the name of the Rust method. `Refine` compares them with lists.
-- - merkle-tree/hasher/src/lib.rs: the trait Hasher is the record of Hasher, and `IsLawful` says
--   what the trees rely on. All other parts take the hash function as a parameter.
-- - merkle-tree/concurrent/src: hash.rs is Concurrent/Path, changelog.rs Concurrent/Changelog,
--   errors.rs Concurrent/Error, and lib.rs Concurrent/Tree: construction and counters in Tree,
--   the canopy in Tree/Canopy, `update` in Tree/Update, and `append_batch` and its variants in
--   Tree/Append. The record ConcurrentMerkleTree has the fields of the struct. Concurrent/Leaves
--   is the abstract tree: a hash for each position, and the nodes, proofs and roots over it.
--   Tree/Init, Tree/Append/Batch and Tree/Update/History state that the tree implements it.
-- - merkle-tree/indexed/src/array.rs: Indexed, the linked list of values in an array. Indexed/Low
--   says which low element the search finds, and Indexed/Append what an append does.
-- - utils/src/bigint.rs: BigInt.
-- - merkle-tree/hash-set/src/lib.rs: HashSet, the queue of nullifiers and addresses that waits
--   for the trees. HashSet/Probes says which bucket the probing chooses, HashSet/Insert and
--   HashSet/Lookup what that means for `insert` and the lookups, HashSet/Total that `insert` does
--   not panic, and HashSet/Mark how long a marked value stays.
-- - utils/src/lib.rs: Utils/FieldHash, hashes that fit in the field, and fee.rs: Utils/Fee.
-- - programs/system/src: the data of the instructions are System/Accounts, and
--   invoke/sum_check.rs is System/SumCheck. invoke_cpi is System/CpiSigner (verify_signer.rs) and
--   System/CpiContext (process_cpi_context.rs, and processor.rs up to its call of `process`).
--   System/AccountHash is the hash of an account of sdk/compressed_account.rs, System/HashInputs
--   the leaves of the input accounts of invoke/verify_state_proof.rs, and System/Append those of
--   the output accounts, invoke/append_state.rs.
-- - programs/compressed-token/src: token_data.rs is Token/Data. process_transfer.rs is split
--   into the inputs that an instruction reads (Token/Inputs), the outputs that it creates and the
--   call of the system program (Token/Outputs), and the instruction itself with
--   spl_compression.rs (Token/Transfer). delegation.rs is Token/Delegation, burn.rs Token/Burn,
--   freeze.rs Token/Freeze and process_mint.rs Token/Mint. Token/Holds says which tokens accounts
--   hold, Token/Created what the outputs hold, and Token/Backed what a sound call of the system
--   program is: its token accounts balance against the token pool, and `sum_check` of the system
--   program passes on it.
-- - programs/registry/src: protocol_config/state.rs is Registry/Config, and the epoch accounts and
--   instructions (epoch/, lib.rs) are Registry/Epoch. Registry/Ranges, Registry/Phases, Registry/Slots
--   and Registry/Work hold the theorems.
--
-- How Rust is modelled. A function that changes `self` returns the new state; one that can fail
-- returns `Result` of Prelude/Outcome, which is `Ok`, `Err` or a panic. The release profile has
-- overflow checks, so the operations of Prelude/Words panic on overflow, and shifts from the width on; `usize` has 64
-- bits. Where a
-- Rust function returns an error, the state that it leaves behind is not part of the model, since
-- the runtime discards it with the transaction (`extend` is the exception). An access outside an
-- allocation, and a read of a cell that was never written, is a panic. In the trees a 32-byte hash
-- is an element of an abstract type with decidable equality; in the programs and in Utils it is
-- the list of its bytes. A public key is its number.
--
-- Bounds and fuel. The height of a tree is at most 32, the size of the table of empty roots less
-- one, and 2 ^ 32 leaves keep every index below 2 ^ 64. Loops over an iterator of a cyclic vector
-- run on fuel, two more than the capacity, and the theorems on them show that it is enough; all
-- other loops are structural.
--
-- Not modelled. The byte layout of accounts (zero_copy.rs, from_bytes, size_in_account), the
-- indexed tree over the array, account-compression and the rest of the system program (`process`,
-- new addresses, nullifiers, proofs, lamports) are left to further modules. The token
-- instructions begin after their data are read from the borsh form, and of the constraints on
-- accounts only those on the token account, on the freeze authority and on the mint authority are
-- modelled. The hash functions, big numbers' bytes, the runtime's hash and, for tokens, the borsh
-- form, the derivation of addresses (for the system program an argument of `cpi_signer_check`)
-- and the burning and minting of SPL tokens (TokenEnv of Token/Data, and arguments of
-- `process_burn` and `process_mint_to`) are code of other projects and are parameters. Clients,
-- the forester service, generated code, macros, tests and the prover are not part of the model.
-- The refinement of the tree is stated for trees without a canopy; the functions that keep the
-- canopy are modelled.
pub mod Prelude
pub mod BoundedVec
pub mod Hasher
pub mod Concurrent
pub mod Indexed
pub mod BigInt
pub mod HashSet
pub mod Utils
pub mod System
pub mod Token
pub mod Registry
