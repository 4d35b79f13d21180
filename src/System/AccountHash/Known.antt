-- ===== src/System/AccountHash/Known.antt =====
-- programs/system/src: the hashes of public keys that the instruction keeps are the right ones.
use light_protocol.Prelude.{
  ℕ, ◌≡◌, refl, ◌∙◌, subst, List, [], ◌∷◌, ◌++◌, Option, none, some, Result, ok, ◌>>=◌, >>=-eq-ok,
  ok_injective, unwrap, unwrap-ok, ◌==◌, ==_iff, Bool-cases, inl, inr,
}
use light_protocol.System.CpiSigner.{SystemError}
use light_protocol.System.AccountHash.{SystemEnv, hash_pubkey, find_hashed, find_or_hash}

module _ (env : SystemEnv) where
  -- every known hash is that of its key
  abbrev pub Coherent : List (ℕ × List ℕ) → Type 0
  Coherent [] = Unit {0}
  Coherent ((key, hashed) ∷ known) = (hash_pubkey env key ≡ some hashed) × Coherent known

  pub find-Coherent :
      (known : List (ℕ × List ℕ)) (key : ℕ) (hashed : List ℕ)
      → Coherent known
      → find_hashed env known key ≡ some hashed
      → hash_pubkey env key ≡ some hashed
  find-Coherent [] key hashed c e = absurd (cc e)
  find-Coherent ((k, h) ∷ known) key hashed (here, c) e = elim (Bool-cases (k == key)) [
    | inl same ↦
        subst (λ n. hash_pubkey env n ≡ some hashed) ((==_iff k key).0 same) (here ∙ rw same at e)
    | inr other ↦ find-Coherent known key hashed c (rw other at e)
  ]

  pub Coherent-append :
      (known : List (ℕ × List ℕ)) (key : ℕ) (hashed : List ℕ)
      → Coherent known
      → hash_pubkey env key ≡ some hashed
      → Coherent (known ++ ((key, hashed) ∷ []))
  Coherent-append [] key hashed c new = (new, tt)
  Coherent-append (k ∷ known) key hashed (here, c) new =
      (here, Coherent-append known key hashed c new)

  -- the result is the hash of the key, and the known hashes stay right
  pub find_or_hash-Coherent :
      (known : List (ℕ × List ℕ)) (key : ℕ) (found : List ℕ × List (ℕ × List ℕ))
      → Coherent known
      → find_or_hash env known key ≡ ok found
      → (hash_pubkey env key ≡ some found.0) × Coherent found.1
  unfolding find_or_hash
  find_or_hash-Coherent known key found c e = by_find (find_hashed env known key) refl e
    where
      by_find :
          (o : Option (List ℕ))
          → find_hashed env known key ≡ o
          → ◌≡◌ {A = Result SystemError (List ℕ × List (ℕ × List ℕ))}
              (elim o [
                | none ↦ unwrap (hash_pubkey env key) >>= λ hashed.
                    ok (hashed, known ++ ((key, hashed) ∷ []))
                | some hashed ↦ ok (hashed, known)
              ])
              (ok found)
          → (hash_pubkey env key ≡ some found.0) × Coherent found.1
      by_find none p e =
          let (hashed, p1, q1) = >>=-eq-ok (unwrap (hash_pubkey env key)) _ e in
          let new = unwrap-ok (hash_pubkey env key) p1 in
          subst (λ f. (hash_pubkey env key ≡ some f.0) × Coherent f.1) (ok_injective q1)
            (new, Coherent-append known key hashed c new)
      by_find (some hashed) p e =
          subst (λ f. (hash_pubkey env key ≡ some f.0) × Coherent f.1) (ok_injective e)
            (find-Coherent known key hashed c p, c)
