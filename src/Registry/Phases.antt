-- ===== src/Registry/Phases.antt =====
-- The phases of an epoch follow one another.
use light_protocol.Prelude.{
  ℕ, ◌+◌, ◌-◌, ◌*◌, ◌/◌, ◌%◌, ◌≤◌, ◌<◌, ◌≡◌, refl, sym, ap, ◌∙◌, arith, Bool, true, false, not, ok,
  err, ok_or, >>=-eq-ok, guard, leb, ◌==◌, lt→ltb, le→leb,
}
use light_protocol.Prelude.Words.{
  add, mul, checked_sub, word, add-ok, mul-ok, div-ok, rem-ok, checked_sub-ok,
}
use native.Mathlib.Nat.{mul-add-div_right, div-eq_of_lt, div-add-mod, mul_comm}
use light_protocol.Registry.Config.{
  ProtocolConfig, RegistryError, RegistryResult, get_latest_register_epoch,
  get_latest_register_epoch_progress, get_current_active_epoch, is_registration_phase,
  is_active_phase, is_report_work_phase, is_post_epoch, arithmetic_underflow,
  get_latested_register_epoch_failed, not_in_registration_period, not_in_active_phase,
}

pub guard-ok :
    (t : Bool) (e : RegistryError)
    → ◌≡◌ {A = RegistryResult (Unit {0})} (guard t e) (ok tt)
    → t ≡ true
guard-ok true e p = refl
guard-ok false e p = absurd (cc p)

-- The epoch that is active in a slot: where the slot stands in the sequence of active phases.
pub get_current_active_epoch_lem :
    (c : ProtocolConfig) (slot epoch r : ℕ)
    → slot ≡ c.genesis_slot + c.registration_phase_length + (epoch * c.active_phase_length + r)
    → r < c.active_phase_length
    → c.genesis_slot + c.registration_phase_length < word
    → get_current_active_epoch c slot ≡ ok epoch
unfolding get_current_active_epoch
get_current_active_epoch_lem c slot epoch r at lt fits =
    let start = c.genesis_slot + c.registration_phase_length in
    let pos : 0 < c.active_phase_length = omega arith in
    let rest : slot - start ≡ epoch * c.active_phase_length + r = omega arith in
    let quotient : (slot - start) / c.active_phase_length ≡ epoch = omega (
      arith,
      ap (λ k. k / c.active_phase_length) rest,
      mul-add-div_right {m = c.active_phase_length} pos epoch r,
      div-eq_of_lt {n = r} {m = c.active_phase_length} lt,
    ) in
    rw (lt→ltb start word fits, le→leb start slot (omega arith), lt→ltb 0 c.active_phase_length pos)
      (ap ok quotient)

latest_parts :
    (c : ProtocolConfig) (slot epoch : ℕ)
    → get_latest_register_epoch c slot ≡ ok epoch
    → (c.genesis_slot ≤ slot) × ((slot - c.genesis_slot) / c.active_phase_length ≡ epoch)
unfolding get_latest_register_epoch
latest_parts c slot epoch e =
    let (n, p, q) =
      >>=-eq-ok (ok_or (checked_sub slot c.genesis_slot) get_latested_register_epoch_failed) _ e in
    let (late, from) = checked_sub-ok slot c.genesis_slot get_latested_register_epoch_failed p in
    let (pos, quotient) = div-ok n c.active_phase_length q in
    (late, ap (λ k. k / c.active_phase_length) from ∙ quotient)

progress_parts :
    (c : ProtocolConfig) (slot progress : ℕ)
    → get_latest_register_epoch_progress c slot ≡ ok progress
    → (slot - c.genesis_slot) % c.active_phase_length ≡ progress
unfolding get_latest_register_epoch_progress
progress_parts c slot progress e =
    let (n, p, q) = >>=-eq-ok (ok_or (checked_sub slot c.genesis_slot) arithmetic_underflow) _ e in
    let (late, from) = checked_sub-ok slot c.genesis_slot arithmetic_underflow p in
    let (pos, remainder) = rem-ok n c.active_phase_length q in
    ap (λ k. k % c.active_phase_length) from ∙ remainder

before : (a b : ℕ) → not (leb b a) ≡ true → a < b
before a b e = ground arith

pub active_at :
    (c : ProtocolConfig) (slot epoch : ℕ)
    → get_current_active_epoch c slot ≡ ok epoch
    → is_active_phase c slot epoch ≡ ok tt
unfolding is_active_phase
active_at c slot epoch p = let same : (epoch == epoch) ≡ true = ground arith in rw (p, same) refl

-- If a slot is in the registration phase of an epoch, it lies before the start slot that
-- `is_registration_phase` returns, and the start slot and every slot less than the length of an
-- active phase after it are in the active phase of that epoch.
pub is_active_phase-is_registration_phase :
    (c : ProtocolConfig) (slot start epoch r : ℕ)
    → is_registration_phase c slot ≡ ok start
    → get_latest_register_epoch c slot ≡ ok epoch
    → r < c.active_phase_length
    → (is_active_phase c (start + r) epoch ≡ ok tt) × (slot < start)
unfolding is_registration_phase
is_active_phase-is_registration_phase c slot start epoch r p q lt =
    let (e1, p1, q1) = >>=-eq-ok (get_latest_register_epoch c slot) _ p in
    let (progress, p2, q2) = >>=-eq-ok (get_latest_register_epoch_progress c slot) _ q1 in
    let (u, p3, q3) =
      >>=-eq-ok (guard (not (leb c.registration_phase_length progress)) not_in_registration_period)
        _ q2 in
    let (s1, p4, q4) = >>=-eq-ok (mul e1 c.active_phase_length) _ q3 in
    let (s2, p5, q5) = >>=-eq-ok (add s1 c.genesis_slot) _ q4 in
    let same : e1 ≡ epoch = cc (p1, q) in
    let (late, quotient) = latest_parts c slot epoch q in
    let remainder = progress_parts c slot progress p2 in
    let early : progress < c.registration_phase_length =
      before progress c.registration_phase_length (guard-ok _ _ p3) in
    let (sum2, fits2) = add-ok s1 c.genesis_slot p5 in
    let (sum3, fits3) = add-ok s2 c.registration_phase_length q5 in
    let product : s1 ≡ epoch * c.active_phase_length =
      sym (mul-ok e1 c.active_phase_length p4) ∙ ap (λ k. k * c.active_phase_length) same in
    let split = div-add-mod (slot - c.genesis_slot) c.active_phase_length in
    let turned : c.active_phase_length * ((slot - c.genesis_slot) / c.active_phase_length)
        ≡ epoch * c.active_phase_length =
      ap (λ k. c.active_phase_length * k) quotient ∙ mul_comm c.active_phase_length epoch in
    let active : get_current_active_epoch c (start + r) ≡ ok epoch =
      get_current_active_epoch_lem c (start + r) epoch r (omega arith) lt (omega arith) in
    (active_at c (start + r) epoch active, omega (arith, split, turned, remainder))

active_parts :
    (c : ProtocolConfig) (slot epoch : ℕ)
    → is_active_phase c slot epoch ≡ ok tt
    → get_current_active_epoch c slot ≡ ok epoch
unfolding is_active_phase
active_parts c slot epoch e =
    let (current, p, q) = >>=-eq-ok (get_current_active_epoch c slot) _ e in
    let same : current ≡ epoch = equal current epoch (guard-ok _ _ q) in p ∙ ap ok same
  where
    equal : (m n : ℕ) → (m == n) ≡ true → m ≡ n
    equal m n e = ground arith

-- In a slot in which work of an epoch is reported, the epoch is in its post phase, the epoch
-- after it is in its active phase, and the epoch itself is not.
pub is_report_work_phase-is_post_epoch :
    (c : ProtocolConfig) (slot epoch : ℕ)
    → is_report_work_phase c slot epoch ≡ ok tt
    → (is_post_epoch c slot epoch ≡ ok tt)
      × (is_active_phase c slot (epoch + 1) ≡ ok tt)
      × (is_active_phase c slot epoch ≡ err not_in_active_phase)
unfolding is_report_work_phase is_post_epoch
is_report_work_phase-is_post_epoch c slot epoch e =
    let (next, p, q) = >>=-eq-ok (add epoch 1) _ e in
    let (u, p1, q1) = >>=-eq-ok (is_active_phase c slot next) _ q in
    let (same, fits) = add-ok epoch 1 p in
    let active : is_active_phase c slot (epoch + 1) ≡ ok tt =
      ap (is_active_phase c slot) same ∙ p1 in
    let current = active_parts c slot (epoch + 1) active in
    let past : not (leb (epoch + 1) epoch) ≡ true = ground arith in
    let other : (epoch + 1 == epoch) ≡ false = ground arith in
    (rw (current, past) refl, active, rw (current, other) refl)
