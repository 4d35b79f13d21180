-- ===== src/Hasher.antt =====
-- merkle-tree/hasher/src/lib.rs: the trait `Hasher`. Its three implementations call SHA-256,
-- Keccak and Poseidon of other crates, so the hash function is a parameter.
use light_protocol.Prelude.{ℕ, suc, ◌≤◌, ◌≡◌, List, [], ◌∷◌, some, Result, ok, get_elem?}

-- `Hash` is `[u8; 32]`. `zero_bytes` is the table of the roots of empty trees by height,
-- merkle-tree/hasher/src/zero_bytes, whose first entry is the zero hash.
pub record Hasher : Type 1 where
  pub Hash : Type 0
  pub HasherError : Type 0
  pub hash_discrete : Discrete Hash
  pub hashv : List Hash → Result HasherError Hash
  pub zero_bytes : List Hash
  pub zero_hash : Hash

-- `MAX_HEIGHT`
abbrev pub max_height : ℕ
max_height = 32

-- What the trees rely on: two hashes can always be hashed together (SHA-256 and Keccak never
-- fail, and Poseidon does not on field elements), and each entry of the table, of which there
-- are `MAX_HEIGHT + 1`, is the hash of two copies of the entry before it.
pub record IsLawful (hasher : Hasher) : Type 0 where
  pub combine : hasher.Hash → hasher.Hash → hasher.Hash
  pub hashv_pair : (a b : hasher.Hash) → hasher.hashv (a ∷ b ∷ []) ≡ ok (combine a b)
  pub zero_at : ℕ → hasher.Hash
  pub zero_first : zero_at 0 ≡ hasher.zero_hash
  pub zero_step : (i : ℕ) → combine (zero_at i) (zero_at i) ≡ zero_at (suc i)
  pub zero_table : (i : ℕ) → i ≤ max_height → get_elem? hasher.zero_bytes i ≡ some (zero_at i)
