-- ===== src/System/CpiSigner.antt =====
-- programs/system/src/invoke_cpi/verify_signer.rs: the checks on the accounts of an instruction that
-- another program invokes. A public key is its number; the derivation of program addresses is a
-- parameter, with its error by number.
use light_protocol.Prelude.{
  ℕ, ◌≡◌, refl, sym, ap, ◌∙◌, Bool, true, false, not, List, [], ◌∷◌, Option, none, some, Result, ok,
  ◌>>=◌, ◌>>◌, >>=-eq-ok, guard, guard-ok, map_err, map_err-eq-ok, ◌==◌, ==_iff, ◌&&◌,
}
use light_protocol.System.Accounts.{
  SystemProgramError, signer_check_failed, cpi_signer_check_failed, write_access_check_failed,
  data_field_undefined, PackedCompressedAccountWithMerkleContext,
  OutputCompressedAccountWithPackedContext,
}

-- The errors of anchor: the program's own, and those of other code by their number.
pub data SystemError : Type 0 where
  system_program_error : SystemProgramError → SystemError
  program_error : ℕ → SystemError

abbrev pub is_some : {A : Type 0} → Option A → Bool
is_some none = false
is_some (some a) = true

unfoldable pub cpi_signer_check :
    (List (List ℕ) → ℕ → Result ℕ ℕ) → List (List ℕ) → ℕ → ℕ → Result SystemError (Unit {0})
cpi_signer_check create_program_address signer_seeds invoking_program authority = do
  derived_signer ← map_err program_error (create_program_address signer_seeds invoking_program)
  guard (derived_signer == authority) (system_program_error cpi_signer_check_failed)

unfoldable pub input_compressed_accounts_signer_check :
    List PackedCompressedAccountWithMerkleContext → ℕ → Result SystemError (Unit {0})
input_compressed_accounts_signer_check [] invoking_program_id = ok tt
input_compressed_accounts_signer_check (account ∷ accounts) invoking_program_id = do
  guard (invoking_program_id == account.compressed_account.owner)
      (system_program_error signer_check_failed)
  input_compressed_accounts_signer_check accounts invoking_program_id

unfoldable pub output_compressed_accounts_write_access_check :
    List OutputCompressedAccountWithPackedContext → ℕ → Result SystemError (Unit {0})
output_compressed_accounts_write_access_check [] invoking_program_id = ok tt
output_compressed_accounts_write_access_check (account ∷ accounts) invoking_program_id = do
  guard
      (not (
        is_some account.compressed_account.account_data
        && not (account.compressed_account.owner == invoking_program_id)))
      (system_program_error write_access_check_failed)
  guard
      (not (
        not (is_some account.compressed_account.account_data)
        && (account.compressed_account.owner == invoking_program_id)))
      (system_program_error data_field_undefined)
  output_compressed_accounts_write_access_check accounts invoking_program_id

unfoldable pub cpi_signer_checks :
    (List (List ℕ) → ℕ → Result ℕ ℕ)
    → ℕ
    → ℕ
    → List (List ℕ)
    → List PackedCompressedAccountWithMerkleContext
    → List OutputCompressedAccountWithPackedContext
    → Result SystemError (Unit {0})
cpi_signer_checks create_program_address invoking_program authority signer_seeds inputs outputs = do
  cpi_signer_check create_program_address signer_seeds invoking_program authority
  input_compressed_accounts_signer_check inputs invoking_program
  output_compressed_accounts_write_access_check outputs invoking_program

-- what the checks promise: all inputs are the program's, and the outputs that have data are
-- exactly the program's
abbrev pub InputsOwnedBy : ℕ → List PackedCompressedAccountWithMerkleContext → Type 0
InputsOwnedBy program [] = Unit {0}
InputsOwnedBy program (account ∷ accounts) =
    (account.compressed_account.owner ≡ program) × InputsOwnedBy program accounts

abbrev pub OutputsOwnedBy : ℕ → List OutputCompressedAccountWithPackedContext → Type 0
OutputsOwnedBy program [] = Unit {0}
OutputsOwnedBy program (account ∷ accounts) =
    (is_some account.compressed_account.account_data
      ≡ (account.compressed_account.owner == program))
    × OutputsOwnedBy program accounts

inputs-OwnedBy :
    (accounts : List PackedCompressedAccountWithMerkleContext) (program : ℕ)
    → input_compressed_accounts_signer_check accounts program ≡ ok tt
    → InputsOwnedBy program accounts
unfolding input_compressed_accounts_signer_check
inputs-OwnedBy [] program e = tt
inputs-OwnedBy (account ∷ accounts) program e =
    let owner = account.compressed_account.owner in
    let (u, p, q) =
      >>=-eq-ok (guard (program == owner) (system_program_error signer_check_failed)) _ e in
    let same : program ≡ owner =
      (==_iff program owner).0
        (guard-ok (program == owner) (system_program_error signer_check_failed) p) in
    (sym same, inputs-OwnedBy accounts program q)

data_iff_owned :
    (has_data owned : Bool)
    → not (has_data && not owned) ≡ true
    → not (not has_data && owned) ≡ true
    → has_data ≡ owned
data_iff_owned true true p q = refl
data_iff_owned true false p q = sym p
data_iff_owned false true p q = q
data_iff_owned false false p q = refl

outputs-OwnedBy :
    (accounts : List OutputCompressedAccountWithPackedContext) (program : ℕ)
    → output_compressed_accounts_write_access_check accounts program ≡ ok tt
    → OutputsOwnedBy program accounts
unfolding output_compressed_accounts_write_access_check
outputs-OwnedBy [] program e = tt
outputs-OwnedBy (account ∷ accounts) program e =
    let has_data = is_some account.compressed_account.account_data in
    let owned = account.compressed_account.owner == program in
    let (u, p, q) =
      >>=-eq-ok
        (guard (not (has_data && not owned)) (system_program_error write_access_check_failed)) _
        e in
    let (v, p1, q1) =
      >>=-eq-ok (guard (not (not has_data && owned)) (system_program_error data_field_undefined)) _
        q in
    (
      data_iff_owned has_data owned
          (guard-ok (not (has_data && not owned)) (system_program_error write_access_check_failed)
            p)
          (guard-ok (not (not has_data && owned)) (system_program_error data_field_undefined) p1),
      outputs-OwnedBy accounts program q1,
    )

-- the authority was derived, and the accounts are as the checks want them
abbrev pub IsChecked :
    (List (List ℕ) → ℕ → Result ℕ ℕ)
    → ℕ
    → ℕ
    → List (List ℕ)
    → List PackedCompressedAccountWithMerkleContext
    → List OutputCompressedAccountWithPackedContext
    → Type 0
IsChecked create_program_address program authority signer_seeds inputs outputs =
    (create_program_address signer_seeds program ≡ ok authority)
    × InputsOwnedBy program inputs
    × OutputsOwnedBy program outputs

pub cpi_signer_checks-IsChecked :
    (create_program_address : List (List ℕ) → ℕ → Result ℕ ℕ) (program authority : ℕ)
    (signer_seeds : List (List ℕ)) (inputs : List PackedCompressedAccountWithMerkleContext)
    (outputs : List OutputCompressedAccountWithPackedContext)
    → cpi_signer_checks create_program_address program authority signer_seeds inputs outputs ≡ ok tt
    → IsChecked create_program_address program authority signer_seeds inputs outputs
unfolding cpi_signer_checks cpi_signer_check
cpi_signer_checks-IsChecked create_program_address program authority signer_seeds inputs outputs e =
    let (u, p, q) =
      >>=-eq-ok (cpi_signer_check create_program_address signer_seeds program authority) _ e in
    let (derived, p1, q1) =
      >>=-eq-ok (map_err program_error (create_program_address signer_seeds program)) _ p in
    let (v, p2, q2) = >>=-eq-ok (input_compressed_accounts_signer_check inputs program) _ q in
    let same : derived ≡ authority =
      (==_iff derived authority).0
        (guard-ok (derived == authority) (system_program_error cpi_signer_check_failed) q1) in
    (
      map_err-eq-ok program_error (create_program_address signer_seeds program) p1 ∙ ap ok same,
      inputs-OwnedBy inputs program p2,
      outputs-OwnedBy outputs program q2,
    )
