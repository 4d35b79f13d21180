-- ===== src/System/Append/Keys.antt =====
-- programs/system/src/invoke/append_state.rs: the keys of the trees that the loop has entered.
use light_protocol.Prelude.{
  ℕ, suc, ◌≡◌, refl, ap, true, false, List, [], ◌∷◌, ◌++◌, ◌==◌, ==_iff, if◌then◌else◌, Bool-cases,
  inl, inr,
}
use light_protocol.System.Append.{contains}

-- how often the key of a tree occurs
abbrev pub times : ℕ → List ℕ → ℕ
times key [] = 0
times key (k ∷ seen) = let rest = times key seen in if k == key then suc rest else rest

-- the keys are all in the list of the keys of the trees
abbrev pub AllIn : List ℕ → List ℕ → Type 0
AllIn pubkeys [] = Unit {0}
AllIn pubkeys (key ∷ seen) = (contains pubkeys key ≡ true) × AllIn pubkeys seen

-- a key that is not in the list has not occurred
pub new-times :
    (pubkeys : List ℕ) (key : ℕ) (seen : List ℕ)
    → AllIn pubkeys seen
    → contains pubkeys key ≡ false
    → times key seen ≡ 0
new-times pubkeys key [] all new = refl
new-times pubkeys key (k ∷ seen) (here, all) new = elim (Bool-cases (k == key)) [
  | inl same ↦
      let eq : k ≡ key = (==_iff k key).0 same in absurd (cc (here, ap (contains pubkeys) eq, new))
  | inr other ↦ rw other (new-times pubkeys key seen all new)
]

contains-append :
    (pubkeys more : List ℕ) (key : ℕ)
    → contains pubkeys key ≡ true
    → contains (pubkeys ++ more) key ≡ true
contains-append [] more key e = absurd (cc e)
contains-append (k ∷ pubkeys) more key e = elim (Bool-cases (k == key)) [
  | inl same ↦ rw same refl
  | inr other ↦ rw other (contains-append pubkeys more key (rw other at e))
]

pub contains-last : (pubkeys : List ℕ) (key : ℕ) → contains (pubkeys ++ (key ∷ [])) key ≡ true
contains-last [] key = rw ((==_iff key key).1 refl) refl
contains-last (k ∷ pubkeys) key = elim (Bool-cases (k == key)) [
  | inl same ↦ rw same refl
  | inr other ↦ rw other (contains-last pubkeys key)
]

pub AllIn-append : (pubkeys more seen : List ℕ) → AllIn pubkeys seen → AllIn (pubkeys ++ more) seen
AllIn-append pubkeys more [] all = tt
AllIn-append pubkeys more (key ∷ seen) (here, all) =
    (contains-append pubkeys more key here, AllIn-append pubkeys more seen all)

pub times_self : (key : ℕ) (seen : List ℕ) → times key (key ∷ seen) ≡ suc (times key seen)
times_self key seen = rw ((==_iff key key).1 refl) refl
