-- ===== src/System/CpiContext/Collect.antt =====
-- programs/system/src/invoke_cpi: what is executed after several programs have put their
-- instructions into the context account.
use light_protocol.Prelude.{
  ℕ, ◌≡◌, refl, sym, ap, ◌∙◌, subst, Bool, true, false, not, List, [], ◌∷◌, ◌++◌, map, append-nil,
  append_assoc, Option, none, some, Result, ok, >>=-eq-ok, ok_injective, guard, guard-ok, unwrap,
  map_err, map_err-eq-ok, get_elem?, length, ◌==◌, ==_iff, ◌&&◌, Bool-cases, ◌⊎◌, inl, inr,
}
use light_protocol.System.Accounts.{
  SystemResult, NewAddressParamsPacked, cpi_context_associated_merkle_tree_mismatch,
  cpi_context_empty, cpi_context_fee_payer_mismatch, CompressedCpiContext, InstructionDataInvokeCpi,
  PackedCompressedAccountWithMerkleContext, OutputCompressedAccountWithPackedContext,
}
use light_protocol.System.CpiSigner.{
  system_program_error, cpi_signer_checks, IsChecked, cpi_signer_checks-IsChecked,
}
use light_protocol.System.CpiContext.{
  CpiContextAccount, InvokeCpi, Invoked, is_empty, clean_input_data, combine, set_cpi_context,
  first_merkle_tree_index, execute_context, use_context, skip_context, process_cpi_context,
  data_to_process, process_invoke_cpi,
}

-- the parts of all instructions, one after the other
abbrev pub gather : {A : Type 0} → (InstructionDataInvokeCpi → List A) → List InvokeCpi → List A
gather part [] = []
gather part (call ∷ calls) = part call.inputs ++ gather part calls

abbrev pub stored : InvokeCpi → InstructionDataInvokeCpi
stored call = clean_input_data call.inputs

abbrev with_parts :
    InstructionDataInvokeCpi
    → List NewAddressParamsPacked
    → List PackedCompressedAccountWithMerkleContext
    → List OutputCompressedAccountWithPackedContext
    → InstructionDataInvokeCpi
with_parts inputs new_addresses accounts outputs = record inputs {
  new_address_params = new_addresses;
  input_compressed_accounts_with_merkle_context = accounts;
  output_compressed_accounts = outputs;
}

-- an instruction with the parts of others at the end of its own
abbrev pub joined : InstructionDataInvokeCpi → List InvokeCpi → InstructionDataInvokeCpi
joined inputs calls =
    with_parts inputs (inputs.new_address_params ++ gather (λ i. i.new_address_params) calls)
      (inputs.input_compressed_accounts_with_merkle_context
        ++ gather (λ i. i.input_compressed_accounts_with_merkle_context) calls)
      (inputs.output_compressed_accounts ++ gather (λ i. i.output_compressed_accounts) calls)

pub combine_lem :
    (inputs : InstructionDataInvokeCpi) (calls : List InvokeCpi)
    → combine inputs (map stored calls) ≡ joined inputs calls
unfolding combine clean_input_data
combine_lem inputs [] = λ j.
    with_parts inputs (sym (append-nil inputs.new_address_params) j)
      (sym (append-nil inputs.input_compressed_accounts_with_merkle_context) j)
      (sym (append-nil inputs.output_compressed_accounts) j)
combine_lem inputs (call ∷ calls) = combine_lem (combine inputs (stored call ∷ [])) calls ∙ (λ j.
    with_parts inputs
      (append_assoc inputs.new_address_params call.inputs.new_address_params
        (gather (λ i. i.new_address_params) calls) j)
      (append_assoc inputs.input_compressed_accounts_with_merkle_context
        call.inputs.input_compressed_accounts_with_merkle_context
        (gather (λ i. i.input_compressed_accounts_with_merkle_context) calls) j)
      (append_assoc inputs.output_compressed_accounts call.inputs.output_compressed_accounts
        (gather (λ i. i.output_compressed_accounts) calls) j))

-- whether an invocation is the first that sets the context
abbrev pub SetsFirst : Bool → InvokeCpi → Type 0
SetsFirst first call =
    (cpi_context : CompressedCpiContext) × (call.inputs.cpi_context ≡ some cpi_context)
    × (cpi_context.first_set_context ≡ first)

-- the account after what it has collected was executed
abbrev pub emptied : CpiContextAccount → CpiContextAccount
emptied account = record account { fee_payer = 0; context = [] }

-- an invocation collects, or executes what was collected by the same fee payer
abbrev pub Outcome :
    InstructionDataInvokeCpi
    → CpiContextAccount
    → ℕ
    → Option InstructionDataInvokeCpi × Option CpiContextAccount
    → Type 0
Outcome inputs account fee_payer (ready, after) =
    ((between : CpiContextAccount) × (set_cpi_context fee_payer account inputs ≡ ok between)
      × (ready ≡ none)
      × (after ≡ some between))
    ⊎ ((account.fee_payer ≡ fee_payer)
        × (ready ≡ some (combine inputs account.context))
        × (after ≡ some (emptied account)))

execute-Outcome :
    (fee_payer : ℕ) (account : CpiContextAccount) (cpi_context : CompressedCpiContext)
    (inputs : InstructionDataInvokeCpi)
    (result : Option InstructionDataInvokeCpi × Option CpiContextAccount)
    → execute_context fee_payer account cpi_context inputs ≡ ok result
    → Outcome inputs account fee_payer result
unfolding execute_context
execute-Outcome fee_payer account cpi_context inputs result e =
    let (u, p, q) = >>=-eq-ok (guard (not (is_empty account.context)) cpi_context_empty) _ e in
    let (v, p1, q1) =
      >>=-eq-ok
        (guard ((account.fee_payer == fee_payer) && not cpi_context.first_set_context)
          cpi_context_fee_payer_mismatch)
        _ q in
    subst (Outcome inputs account fee_payer) (ok_injective q1) (
      inr (
        (==_iff account.fee_payer fee_payer).0 (
            first_of (account.fee_payer == fee_payer) (not cpi_context.first_set_context) (
              guard-ok ((account.fee_payer == fee_payer) && not cpi_context.first_set_context)
                cpi_context_fee_payer_mismatch p1)),
        refl,
        refl,
      ))
  where
    first_of : (a b : Bool) → (a && b) ≡ true → a ≡ true
    first_of true b e = refl
    first_of false b e = e

use-Outcome :
    (cpi_context : CompressedCpiContext) (inputs : InstructionDataInvokeCpi)
    (account : CpiContextAccount) (fee_payer : ℕ) (remaining : List ℕ)
    (result : Option InstructionDataInvokeCpi × Option CpiContextAccount)
    → use_context cpi_context inputs (some account) fee_payer remaining ≡ ok result
    → Outcome inputs account fee_payer result
unfolding use_context execute_context
use-Outcome cpi_context inputs account fee_payer remaining result e =
    let (index, p, q) =
      >>=-eq-ok
        (first_merkle_tree_index inputs.input_compressed_accounts_with_merkle_context
          inputs.output_compressed_accounts)
        _ e in
    let (tree, p1, q1) = >>=-eq-ok (unwrap (get_elem? remaining index)) _ q in
    let (u, p2, q2) =
      >>=-eq-ok
        (guard (tree == account.associated_merkle_tree) cpi_context_associated_merkle_tree_mismatch)
        _ q1 in
    elim (Bool-cases cpi_context.set_context) [
      | inl sets ↦
          let (between, p3, q3) =
            >>=-eq-ok (set_cpi_context fee_payer account inputs) _ (rw sets at q2) in
          subst (Outcome inputs account fee_payer) (ok_injective q3) (inl (between, p3, refl, refl))
      | inr executes ↦
          execute-Outcome fee_payer account cpi_context inputs result (rw executes at q2)
    ]

process-Outcome :
    (inputs : InstructionDataInvokeCpi) (account : CpiContextAccount) (fee_payer : ℕ)
    (remaining : List ℕ) (result : Option InstructionDataInvokeCpi × Option CpiContextAccount)
    → process_cpi_context inputs (some account) fee_payer remaining ≡ ok result
    → Outcome inputs account fee_payer result
unfolding process_cpi_context skip_context
process-Outcome inputs account fee_payer remaining result e = by_context inputs.cpi_context e
  where
    by_context :
        (context : Option CompressedCpiContext)
        → ◌≡◌ {A = SystemResult (Option InstructionDataInvokeCpi × Option CpiContextAccount)}
            (elim context [
              | none ↦ skip_context inputs (some account)
              | some cpi_context ↦ use_context cpi_context inputs (some account) fee_payer remaining
            ])
            (ok result)
        → Outcome inputs account fee_payer result
    by_context none e = absurd (cc e)
    by_context (some cpi_context) e =
        use-Outcome cpi_context inputs account fee_payer remaining result e

module _ (create_program_address : List (List ℕ) → ℕ → Result ℕ ℕ) where
  -- the checks of an invocation, with its own program and authority
  abbrev pub IsCheckedCall : InvokeCpi → Type 0
  IsCheckedCall call =
      IsChecked create_program_address call.invoking_program call.authority call.inputs.signer_seeds
        call.inputs.input_compressed_accounts_with_merkle_context
        call.inputs.output_compressed_accounts

  -- Invocations that only collect, one after the other. None is marked as the first.
  pub data Collects : CpiContextAccount → List InvokeCpi → CpiContextAccount → Type 0 where
    none_left : (account : CpiContextAccount) → Collects account [] account
    collect :
        (call : InvokeCpi) (calls : List InvokeCpi) (account between after : CpiContextAccount)
        → process_invoke_cpi create_program_address call (some account)
          ≡ ok (record { to_process = none; cpi_context_account = some between })
        → SetsFirst false call
        → Collects between calls after
        → Collects account (call ∷ calls) after

  -- what an invocation that returns has checked and done
  abbrev pub Invokes : InvokeCpi → CpiContextAccount → Invoked → Type 0
  Invokes call account result =
      IsCheckedCall call
      × ((ready : Option InstructionDataInvokeCpi) × (after : Option CpiContextAccount) × Outcome
            call.inputs account call.fee_payer (ready, after)
          × (result.to_process ≡ data_to_process ready (length account.context))
          × (result.cpi_context_account ≡ after))

  pub invoke-Invokes :
      (call : InvokeCpi) (account : CpiContextAccount) (result : Invoked)
      → process_invoke_cpi create_program_address call (some account) ≡ ok result
      → Invokes call account result
  unfolding process_invoke_cpi
  invoke-Invokes call account result e =
      let (u, p, q) =
        >>=-eq-ok
          (cpi_signer_checks create_program_address call.invoking_program call.authority
            call.inputs.signer_seeds call.inputs.input_compressed_accounts_with_merkle_context
            call.inputs.output_compressed_accounts)
          _ e in
      let (done, p1, q1) =
        >>=-eq-ok
          (map_err system_program_error
            (process_cpi_context call.inputs (some account) call.fee_payer call.remaining_accounts))
          _ q in
      (
        cpi_signer_checks-IsChecked create_program_address call.invoking_program call.authority
            call.inputs.signer_seeds call.inputs.input_compressed_accounts_with_merkle_context
            call.inputs.output_compressed_accounts p,
        (
          done.0,
          done.1,
          process-Outcome call.inputs account call.fee_payer call.remaining_accounts done (
              map_err-eq-ok system_program_error
                (process_cpi_context call.inputs (some account) call.fee_payer
                  call.remaining_accounts)
                p1),
          ap (λ r. r.to_process) (sym (ok_injective q1)),
          ap (λ r. r.cpi_context_account) (sym (ok_injective q1)),
        ),
      )
