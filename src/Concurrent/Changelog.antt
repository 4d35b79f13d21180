-- ===== src/Concurrent/Changelog.antt =====
-- merkle-tree/concurrent/src/changelog.rs: the path of a change, and how it patches the proof of
-- another leaf. `HEIGHT` is the parameter `height`.
pub mod Critbit
pub mod Patch
use Prim.Native.Nat.{bit_xor}
use light_protocol.Prelude.{
  ℕ, ◌+◌, ◌-◌, ◌*◌, ◌^◌, ◌%◌, ◌<◌, Bool, true, false, List, [], ◌∷◌, Option, none, some, Result, ok,
  err, panic, ◌>>=◌, ◌>>◌, unwrap, length, get_elem?, replicate, map_err, ltb, ◌==◌, if◌then◌else◌,
}
use light_protocol.Prelude.Words.{word, sub}
use light_protocol.Prelude.Bits.{leading_zeros}
use light_protocol.Hasher.{Hasher}
use light_protocol.BoundedVec.Plain.{BoundedVec, index, index_mut}
use light_protocol.Concurrent.Error.{ConcurrentMerkleTreeError, cannot_update_leaf}
use light_protocol.Concurrent.Path.{TreeResult}

-- `ChangelogPath` and `ChangelogEntry`
pub record ChangelogEntry (Hash : Type 0) : Type 0 where
  pub path : List (Option Hash)
  pub index : ℕ

module _ (h : Hasher) (height : ℕ) where
  open h use {Hash, HasherError}

  unfoldable pub default_with_index : ℕ → ChangelogEntry Hash
  default_with_index i = record { path = replicate height none; index = i }

  -- `common_path_len` counts in the 64-bit word that the difference of the two indices leaves
  -- when it is shifted to the top of the word.
  unfoldable pub intersection_index : ChangelogEntry Hash → ℕ → TreeResult h ℕ
  intersection_index entry leaf_index = do
    padding ← sub 64 height
    shifted ←
        (if ltb padding 64 then ok (bit_xor leaf_index entry.index * 2 ^ padding % word) else panic)
    top ← sub height 1
    sub top (leading_zeros 64 shifted)

  unfoldable pub update_proof :
      ChangelogEntry Hash → ℕ → BoundedVec Hash → TreeResult h (BoundedVec Hash)
  unfolding intersection_index
  update_proof entry leaf_index proof =
      if leaf_index == entry.index then err cannot_update_leaf else (do
        i ← intersection_index entry leaf_index
        path_node ← unwrap (get_elem? entry.path i)
        elim path_node [ none ↦ ok proof | some node ↦ index_mut proof i node ])
