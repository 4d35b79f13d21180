-- ===== src/System/CpiContext/Together.antt =====
-- programs/system/src/invoke_cpi: several invocations that collect
-- their instructions, and the one that executes them.
use light_protocol.Prelude.{
  ℕ, ◌≡◌, refl, sym, ap, ap₂, length-map, ◌∙◌, subst, Bool, true, false, not, List, [], ◌∷◌, ◌++◌,
  map, append-nil, append_assoc, none, some, Result, ok, >>=-eq-ok, ok_injective, unwrap, unwrap-ok,
  length, ◌==◌, ==_iff, ◌&&◌, Bool-cases, inl, inr,
}
use light_protocol.System.Accounts.{InstructionDataInvoke}
use light_protocol.System.CpiContext.{
  CpiContextAccount, InvokeCpi, Invoked, is_empty, combine, set_cpi_context, invoke_data,
  data_to_process, process_invoke_cpi,
}
use mathlib.Core.Option.{some-injective}
use light_protocol.System.CpiContext.Collect.{
  stored, joined, combine_lem, emptied, SetsFirst, IsCheckedCall, Collects, none_left, collect,
  invoke-Invokes,
}

-- an invocation that is not the first adds its instruction to those of its fee payer
set-later :
    (fee_payer : ℕ) (account between : CpiContextAccount) (call : InvokeCpi)
    → SetsFirst false call
    → set_cpi_context fee_payer account call.inputs ≡ ok between
    → (fee_payer ≡ account.fee_payer)
      × (between ≡ record account { context = account.context ++ (stored call ∷ []) })
unfolding set_cpi_context
set-later fee_payer account between call (cpi_context, present, later) e =
    let (found, p, q) = >>=-eq-ok (unwrap call.inputs.cpi_context) _ e in
    let same : cpi_context ≡ found =
      some-injective cpi_context found (sym present ∙ unwrap-ok call.inputs.cpi_context p) in
    let not_first : found.first_set_context ≡ false =
      ap (λ c. c.first_set_context) (sym same) ∙ later in
    elim (Bool-cases ((fee_payer == account.fee_payer) && not (is_empty account.context))) [
      | inl pushes ↦ (
        (==_iff fee_payer account.fee_payer).0
            (first_of (fee_payer == account.fee_payer) (not (is_empty account.context)) pushes),
        sym (ok_injective (rw (not_first, pushes) at q)),
      )
      | inr refuses ↦ absurd (cc (rw (not_first, refuses) at q))
    ]
  where
    first_of : (a b : Bool) → (a && b) ≡ true → a ≡ true
    first_of true b e = refl
    first_of false b e = e

-- the first one starts anew
set-first :
    (fee_payer : ℕ) (account between : CpiContextAccount) (call : InvokeCpi)
    → SetsFirst true call
    → set_cpi_context fee_payer account call.inputs ≡ ok between
    → between ≡ record account { fee_payer = fee_payer; context = stored call ∷ [] }
unfolding set_cpi_context
set-first fee_payer account between call (cpi_context, present, first) e =
    let (found, p, q) = >>=-eq-ok (unwrap call.inputs.cpi_context) _ e in
    let same : cpi_context ≡ found =
      some-injective cpi_context found (sym present ∙ unwrap-ok call.inputs.cpi_context p) in
    let is_first : found.first_set_context ≡ true =
      ap (λ c. c.first_set_context) (sym same) ∙ first in
    sym (ok_injective (rw is_first at q))

module _ (create_program_address : List (List ℕ) → ℕ → Result ℕ ℕ) where
  -- every invocation passed its own checks, and all have one fee payer
  abbrev pub AllInvoked : ℕ → List InvokeCpi → Type 0
  AllInvoked fee_payer [] = Unit {0}
  AllInvoked fee_payer (call ∷ calls) =
      IsCheckedCall create_program_address call
      × (call.fee_payer ≡ fee_payer)
      × AllInvoked fee_payer calls

  -- an invocation that leaves nothing to execute has set the context
  collecting :
      (call : InvokeCpi) (account between : CpiContextAccount)
      → process_invoke_cpi create_program_address call (some account)
        ≡ ok (record { to_process = none; cpi_context_account = some between })
      → IsCheckedCall create_program_address call
        × (set_cpi_context call.fee_payer account call.inputs ≡ ok between)
  collecting call account between e =
      let (checked, (ready, after, outcome, nothing, left)) =
        invoke-Invokes create_program_address call account
          (record { to_process = none; cpi_context_account = some between }) e in
      (
        checked,
        elim outcome [
          | inl (made, set, ready_none, made_is) ↦
              set ∙ ap ok (some-injective made between (sym (left ∙ made_is)))
          | inr (payer, ready_some, left_is) ↦
              absurd
                (cc (nothing ∙ ap (λ r. data_to_process r (length account.context)) ready_some))
        ],
      )

  -- an invocation that leaves data executes its own instruction with the collected ones
  executing :
      (call : InvokeCpi) (account : CpiContextAccount) (result : Invoked)
      (executed : InstructionDataInvoke × ℕ)
      → process_invoke_cpi create_program_address call (some account) ≡ ok result
      → result.to_process ≡ some executed
      → IsCheckedCall create_program_address call
        × (account.fee_payer ≡ call.fee_payer)
        × (executed ≡ (invoke_data (combine call.inputs account.context), length account.context))
        × (result.cpi_context_account ≡ some (emptied account))
  executing call account result executed e leaves =
      let (checked, (ready, after, outcome, to_process, left)) =
        invoke-Invokes create_program_address call account result e in
      elim outcome [
        | inl (made, set, ready_none, made_is) ↦ absurd (
            cc (
              sym leaves
              ∙ to_process
              ∙ ap (λ r. data_to_process r (length account.context)) ready_none))
        | inr (payer, ready_some, left_is) ↦ (
          checked,
          payer,
          some-injective executed
              (invoke_data (combine call.inputs account.context), length account.context)
              (sym leaves
                ∙ to_process
                ∙ ap (λ r. data_to_process r (length account.context)) ready_some),
          left ∙ left_is,
        )
      ]

  -- an account with more instructions
  abbrev extended : CpiContextAccount → List InvokeCpi → CpiContextAccount
  extended account calls = record account { context = account.context ++ map stored calls }

  collects-Holds :
      (account after : CpiContextAccount) (calls : List InvokeCpi)
      → Collects create_program_address account calls after
      → (after ≡ extended account calls) × AllInvoked account.fee_payer calls
  collects-Holds account after calls (none_left a) =
      (ap (λ c. record account { context = c }) (sym (append-nil account.context)), tt)
  collects-Holds account after calls (collect call rest a between a' e later more) =
      let (checked, set) = collecting call account between e in
      let (payer, between_is) = set-later call.fee_payer account between call later set in
      let (after_is, invoked) = collects-Holds between after rest more in
      (
        after_is
            ∙ ap (λ b. extended b rest) between_is
            ∙ ap (λ c. record account { context = c })
                (append_assoc account.context (stored call ∷ []) (map stored rest)),
        (checked, payer, subst (λ b. AllInvoked b.fee_payer rest) between_is invoked),
      )

  -- Let one invocation of the system program set the context first, others add to it, and a
  -- last one leave data to process. What is processed is the instruction of the last one with
  -- the new addresses, inputs and outputs of all the others appended in the order of the
  -- invocations, and nothing else of theirs. Each of the invocations passed the signer checks
  -- with its own program and authority, all have the fee payer of the last one, and the
  -- context account is left empty.
  pub process_invoke_cpi-Together :
      (first last : InvokeCpi) (calls : List InvokeCpi) (before started after : CpiContextAccount)
      (result : Invoked) (executed : InstructionDataInvoke × ℕ)
      → SetsFirst true first
      → process_invoke_cpi create_program_address first (some before)
        ≡ ok (record { to_process = none; cpi_context_account = some started })
      → Collects create_program_address started calls after
      → process_invoke_cpi create_program_address last (some after) ≡ ok result
      → result.to_process ≡ some executed
      → (executed ≡ (invoke_data (joined last.inputs (first ∷ calls)), length (first ∷ calls)))
        × (result.cpi_context_account ≡ some (emptied before))
        × AllInvoked last.fee_payer (last ∷ (first ∷ calls))
  process_invoke_cpi-Together first last calls before started after result executed sets_first e
        collects f leaves =
      let (checked, set) = collecting first before started e in
      let started_is = set-first first.fee_payer before started first sets_first set in
      let (after_is, invoked) = collects-Holds started after calls collects in
      let (checked_last, payer, executed_is, left) =
        executing last after result executed f leaves in
      let end_is : after
          ≡ record before { fee_payer = first.fee_payer; context = map stored (first ∷ calls) } =
        after_is ∙ ap (λ b. extended b calls) started_is in
      let same_payer : first.fee_payer ≡ last.fee_payer =
        ap (λ a. a.fee_payer) (sym end_is) ∙ payer in
      (
        executed_is
            ∙ ap (λ a. (invoke_data (combine last.inputs a.context), length a.context)) end_is
            ∙ ap₂ (λ i n. (invoke_data i, n)) (combine_lem last.inputs (first ∷ calls))
                (length-map stored (first ∷ calls)),
        left ∙ ap (λ a. some (emptied a)) end_is,
        (
          checked_last,
          refl,
          (
            checked,
            same_payer,
            subst (λ n. AllInvoked n calls) (ap (λ a. a.fee_payer) started_is ∙ same_payer) invoked,
          ),
        ),
      )
