-- ===== src/Prelude/Bytes.antt =====
-- Numbers as bytes, most or least significant first: `to_be_bytes` and `to_le_bytes`.
use Prim.Native.Nat.{ℕ, zero, suc, ◌/◌, ◌%◌}
use mathlib.Core.List.{List, [], ◌∷◌, ◌++◌}

-- `to_le_bytes` of a number of `width` bytes
unfoldable pub to_le_bytes : ℕ → ℕ → List ℕ
to_le_bytes zero n = []
to_le_bytes (suc width) n = (n % 256) ∷ to_le_bytes width (n / 256)

-- `to_be_bytes`; the bytes of a public key, which is its number
unfoldable pub to_be_bytes : ℕ → ℕ → List ℕ
to_be_bytes zero n = []
to_be_bytes (suc width) n = to_be_bytes width (n / 256) ++ ((n % 256) ∷ [])
