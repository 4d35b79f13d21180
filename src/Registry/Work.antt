-- ===== src/Registry/Work.antt =====
-- The work of a forester: who may work, and how the work is reported.
use light_protocol.Prelude.{
  ℕ, ◌+◌, ◌%◌, ◌≤◌, ◌<◌, ◌≡◌, ◌↔◌, refl, sym, ap, ap₂, ◌∙◌, true, not, Option, none, some, ok, err,
  ok_or, >>=-eq-ok, guard, ◌==◌, ==_iff, lt→ltb,
}
use light_protocol.Prelude.Words.{word, add, add-ok, rem, rem-ok}
use light_protocol.Registry.Config.{
  RegistryResult, is_active_phase, is_report_work_phase, invalid_forester, forester_not_eligible,
  registration_not_finalized, invalid_epoch, forester_already_reported_work,
}
use light_protocol.Registry.Phases.{guard-ok}
use light_protocol.Registry.Epoch.{
  EpochPda, ForesterEpochPda, get_current_light_slot, is_eligible, get_eligible_forester_index,
  check_eligibility, check_forester, report_work,
}
use light_protocol.Registry.Slots.{
  InActivePhase, InLightSlot, is_active_phase-InActivePhase, get_current_light_slot-InLightSlot,
  is_eligible-range, InActivePhase-is_active_phase, InLightSlot-get_current_light_slot,
  range-is_eligible, equal,
}

-- If `report_work` is accepted, the forester's work is added to the epoch's, and a second
-- report of the same account in that slot is refused with `ForesterAlreadyReportedWork`.
pub report_work-report_work :
    (f f' : ForesterEpochPda) (e e' : EpochPda) (slot : ℕ)
    → report_work f e slot ≡ ok (f', e')
    → (e'.total_work ≡ e.total_work + f.work_counter)
      × (report_work f' e' slot ≡ err forester_already_reported_work)
unfolding report_work
report_work-report_work f f' e e' slot p =
    let (u1, p1, q1) = >>=-eq-ok (is_report_work_phase e.protocol_config slot e.epoch) _ p in
    let (u2, p2, q2) = >>=-eq-ok (guard (e.epoch == f.epoch) invalid_epoch) _ q1 in
    let (u3, p3, q3) =
      >>=-eq-ok (guard (not f.has_reported_work) forester_already_reported_work) _ q2 in
    let (total, p4, q4) = >>=-eq-ok (add e.total_work f.work_counter) _ q3 in
    let (sum, fits) = add-ok e.total_work f.work_counter p4 in
    let same_f : record f { has_reported_work = true } ≡ f' = cc q4 in
    let same_e : record e { total_work = total } ≡ e' = cc q4 in
    let same_epoch : (e.epoch == f.epoch) ≡ true = guard-ok _ _ p2 in
    (
      sym (ap total_of same_e) ∙ sym sum,
      ap₂ (λ g d. report_work g d slot) (sym same_f) (sym same_e) ∙ rw (p1, same_epoch) refl,
    )
  where
    total_of : EpochPda → ℕ
    total_of d = d.total_work

module _ (hash_value : ℕ → ℕ → ℕ → ℕ) where
  -- A forester may work on a queue in a slot: the slot is in the active phase of its epoch, and
  -- the hash for the queue and the slot's light slot, modulo the epoch's weight, is in the range of
  -- the forester's weight.
  pub record Eligible (f : ForesterEpochPda) (slot queue : ℕ) : Type 0 where
    pub active : InActivePhase f.protocol_config f.epoch slot
    pub light_slot : ℕ
    pub at_slot :
        InLightSlot f.epoch_active_phase_start_slot f.protocol_config.slot_length light_slot slot
    pub total : ℕ
    pub finalized : f.total_epoch_weight ≡ some total
    pub some_weight : 0 < total
    pub from_index : f.forester_index ≤ hash_value queue f.epoch light_slot % total
    pub in_weight : hash_value queue f.epoch light_slot % total < f.forester_index + f.weight

  check_eligibility-Eligible :
      (f : ForesterEpochPda) (slot queue : ℕ)
      → check_eligibility hash_value f slot queue ≡ ok tt
      → Eligible f slot queue
  unfolding check_eligibility get_eligible_forester_index
  check_eligibility-Eligible f slot queue p =
      let (u1, p1, q1) = >>=-eq-ok (is_active_phase f.protocol_config slot f.epoch) _ p in
      let (light, p2, q2) = >>=-eq-ok (get_current_light_slot f slot) _ q1 in
      let (total, p3, q3) =
        >>=-eq-ok (ok_or f.total_epoch_weight registration_not_finalized) _ q2 in
      let (index, p4, q4) = >>=-eq-ok (rem (hash_value queue f.epoch light) total) _ q3 in
      let (yes_or_no, p5, q5) =
        >>=-eq-ok (is_eligible f index) (λ t. guard t forester_not_eligible) q4 in
      let (pos, remainder) = rem-ok (hash_value queue f.epoch light) total p4 in
      let (low, high) =
        is_eligible-range f (hash_value queue f.epoch light % total)
          (ap (is_eligible f) remainder ∙ p5 ∙ ap ok (guard-ok yes_or_no _ q5)) in
      record {
        active = is_active_phase-InActivePhase f.protocol_config slot f.epoch p1;
        light_slot = light;
        at_slot = get_current_light_slot-InLightSlot f slot light p2;
        total = total;
        finalized = some_of f.total_epoch_weight p3;
        some_weight = pos;
        from_index = low;
        in_weight = high;
      }
    where
      some_of :
          (o : Option ℕ) {n : ℕ}
          → ◌≡◌ {A = RegistryResult ℕ} (ok_or o registration_not_finalized) (ok n)
          → o ≡ some n
      some_of none e = absurd (cc e)
      some_of (some m) e = cc e

  Eligible-check_eligibility :
      (f : ForesterEpochPda) (slot queue : ℕ)
      → f.protocol_config.genesis_slot + f.protocol_config.registration_phase_length < word
      → f.forester_index + f.weight < word
      → Eligible f slot queue
      → check_eligibility hash_value f slot queue ≡ ok tt
  unfolding check_eligibility get_eligible_forester_index
  Eligible-check_eligibility f slot queue fits range_fits e = simp (
    InActivePhase-is_active_phase f.protocol_config slot f.epoch fits e.active,
    InLightSlot-get_current_light_slot f slot e.light_slot e.at_slot,
    e.finalized,
    lt→ltb 0 e.total e.some_weight,
    range-is_eligible f (hash_value queue f.epoch e.light_slot % e.total) range_fits e.from_index
        e.in_weight,
  )

  check_forester_complete :
      (f : ForesterEpochPda) (authority queue slot : ℕ)
      → f.protocol_config.genesis_slot + f.protocol_config.registration_phase_length < word
      → f.forester_index + f.weight < word
      → f.work_counter + 1 < word
      → f.authority ≡ authority
      → Eligible f slot queue
      → check_forester hash_value f authority queue slot
        ≡ ok (record f { work_counter = f.work_counter + 1 })
  unfolding check_forester
  check_forester_complete f authority queue slot fits range_fits more mine e =
      rw
        (
          (==_iff f.authority authority).1 mine,
          Eligible-check_eligibility f slot queue fits range_fits e,
          lt→ltb (f.work_counter + 1) word more,
        )
        refl

  check_forester_sound :
      (f f' : ForesterEpochPda) (authority queue slot : ℕ)
      → check_forester hash_value f authority queue slot ≡ ok f'
      → (f.authority ≡ authority)
        × Eligible f slot queue
        × (f' ≡ record f { work_counter = f.work_counter + 1 })
  unfolding check_forester
  check_forester_sound f f' authority queue slot p =
      let (u1, p1, q1) = >>=-eq-ok (guard (f.authority == authority) invalid_forester) _ p in
      let (u2, p2, q2) = >>=-eq-ok (check_eligibility hash_value f slot queue) _ q1 in
      let (n, p3, q3) = >>=-eq-ok (add f.work_counter 1) _ q2 in
      let (sum, fits) = add-ok f.work_counter 1 p3 in
      let same : record f { work_counter = n } ≡ f' = cc q3 in
      (
        equal f.authority authority (guard-ok _ _ p1),
        check_eligibility-Eligible f slot queue p2,
        sym same ∙ ap (λ k. record f { work_counter = k }) (sym sum),
      )

  -- Where the sums of the genesis slot and the registration phase, of the forester's index
  -- and weight, and of the work counter and one do not overflow, `check_forester` returns a
  -- new account exactly if the account's authority is the given one, the slot is one of the
  -- active phase of the account's epoch, which starts at the genesis slot, the registration
  -- phase and as many active phases as the epoch says, the epoch weight is set and not 0, and
  -- the hash for the queue and the light slot, modulo that weight, is at least the forester's
  -- index and below that index and the forester's weight, and the new account only counts one
  -- more unit of work. The light slot is the number of whole slot lengths from the account's
  -- start of the active phase to the slot.
  pub check_forester-Eligible :
      (f f' : ForesterEpochPda) (authority queue slot : ℕ)
      → f.protocol_config.genesis_slot + f.protocol_config.registration_phase_length < word
      → f.forester_index + f.weight < word
      → f.work_counter + 1 < word
      → (check_forester hash_value f authority queue slot ≡ ok f') ↔ (
          (f.authority ≡ authority)
          × Eligible f slot queue
          × (f' ≡ record f { work_counter = f.work_counter + 1 }))
  check_forester-Eligible f f' authority queue slot fits range_fits more = (
    check_forester_sound f f' authority queue slot,
    λ (mine, e, same).
        check_forester_complete f authority queue slot fits range_fits more mine e
        ∙ ap ok (sym same),
  )
