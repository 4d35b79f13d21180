-- ===== src/Concurrent/Tests/Digests.antt =====
-- A hash function that keeps its arguments: the free one.
use light_protocol.Prelude.{
  ℕ, zero, suc, ◌+◌, ◌<◌, ◌≡◌, refl, ap, ap₂, ◌∙◌, arith, List, [], ◌∷◌, some, Result, ok, err,
  get_elem?,
}
use native.Mathlib.Decide.{ℕ_discrete}
use light_protocol.Hasher.{Hasher, IsLawful}

pub data Digest : Type 0 where
  leaf : ℕ → Digest
  pair : Digest → Digest → Digest

unfoldable pub digest_discrete : Discrete Digest
digest_discrete (leaf m) (leaf n) = elim (ℕ_discrete m n) [
  | yes e ↦ yes (ap leaf e)
  | no ne ↦ no (λ e. ne (cc e))
]
digest_discrete (leaf m) (pair c d) = no (λ e. cc e)
digest_discrete (pair a b) (leaf n) = no (λ e. cc e)
digest_discrete (pair a b) (pair c d) =
    let right = digest_discrete b d in
    elim (digest_discrete a c) [
      | yes e ↦ elim right [ yes e' ↦ yes (ap₂ pair e e') | no ne ↦ no (λ p. ne (cc p)) ]
      | no ne ↦ no (λ p. ne (cc p))
    ]

-- only pairs are hashed
abbrev pub hash_pairs : List Digest → Result (Unit {0}) Digest
hash_pairs [] = err tt
hash_pairs (a ∷ []) = err tt
hash_pairs (a ∷ b ∷ []) = ok (pair a b)
hash_pairs (a ∷ b ∷ c ∷ rest) = err tt

abbrev pub empty_root : ℕ → Digest
empty_root zero = leaf 0
empty_root (suc n) = pair (empty_root n) (empty_root n)

abbrev pub empty_roots : ℕ → ℕ → List Digest
empty_roots zero i = []
empty_roots (suc n) i = empty_root i ∷ empty_roots n (suc i)

pub empty_roots_at : (n i k : ℕ) → k < n → get_elem? (empty_roots n i) k ≡ some (empty_root (i + k))
empty_roots_at zero i k lt = absurd (omega arith)
empty_roots_at (suc n) i zero lt = ap (λ j. some (empty_root j)) (omega arith)
empty_roots_at (suc n) i (suc k) lt =
    empty_roots_at n (suc i) k (omega arith) ∙ ap (λ j. some (empty_root j)) (omega arith)

abbrev pub free_hasher : Hasher
free_hasher = record {
  Hash = Digest;
  HasherError = Unit {0};
  hash_discrete = digest_discrete;
  hashv = hash_pairs;
  zero_bytes = empty_roots 33 0;
  zero_hash = leaf 0;
}

abbrev pub free_lawful : IsLawful free_hasher
free_lawful = record {
  combine = pair;
  hashv_pair = λ a b. refl;
  zero_at = empty_root;
  zero_first = refl;
  zero_step = λ i. refl;
  zero_table =
      λ i le. empty_roots_at 33 0 i (omega arith) ∙ ap (λ j. some (empty_root j)) (omega arith);
}
