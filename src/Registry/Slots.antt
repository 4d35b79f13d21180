-- ===== src/Registry/Slots.antt =====
-- The slots of phases and light slots, and the range of a forester, as bounds.
use light_protocol.Prelude.{
  ℕ, ◌+◌, ◌-◌, ◌*◌, ◌/◌, ◌%◌, ◌≤◌, ◌<◌, ◌≡◌, refl, sym, ap, ◌∙◌, arith, true, ok, ok_or, >>=-eq-ok,
  ◌==◌, leb, ltb, lt→ltb, le→leb, ok_injective, Bool-cases, inl, inr,
}
use light_protocol.Prelude.Words.{word, add, add-ok, div-ok, checked_sub, checked_sub-ok}
use native.Mathlib.Nat.{div-add-mod, mul_comm, mod-lt, mul-add-div_right, div-eq_of_lt}
use light_protocol.Registry.Config.{
  ProtocolConfig, get_current_active_epoch, is_active_phase, epoch_ended,
  get_latest_active_epoch_failed,
}
use light_protocol.Registry.Phases.{guard-ok, active_at, get_current_active_epoch_lem}
use light_protocol.Registry.Epoch.{ForesterEpochPda, get_current_light_slot, is_eligible}

pub equal : (m n : ℕ) → (m == n) ≡ true → m ≡ n
equal m n e = ground arith

-- where a number stands among the multiples of another
div-bounds : (a b q : ℕ) → 0 < b → a / b ≡ q → (q * b ≤ a) × (a < (q + 1) * b)
div-bounds a b q pos e =
    let split : b * (a / b) + a % b ≡ a = div-add-mod a b in
    let below : a % b < b = mod-lt a pos in
    let same : b * (a / b) ≡ q * b = ap (λ k. b * k) e ∙ mul_comm b q in
    (omega (arith, split, same), grind (arith, split, same, below))

div-between : (a b q : ℕ) → q * b ≤ a → a < (q + 1) * b → (0 < b) × (a / b ≡ q)
div-between a b q low high =
    let pos : 0 < b = grind (arith, low, high) in
    let rest : q * b + (a - q * b) ≡ a = omega (arith, low) in
    let small : a - q * b < b = grind (arith, low, high) in
    (
      pos,
      ap (λ k. k / b) (sym rest)
          ∙ omega (
            arith,
            mul-add-div_right {m = b} pos q (a - q * b),
            div-eq_of_lt {n = a - q * b} {m = b} small,
          ),
    )

-- the slots of the active phase of an epoch
abbrev pub InActivePhase : ProtocolConfig → ℕ → ℕ → Type 0
InActivePhase c epoch slot =
    (c.genesis_slot + c.registration_phase_length + epoch * c.active_phase_length ≤ slot)
    × (slot < c.genesis_slot + c.registration_phase_length + (epoch + 1) * c.active_phase_length)

-- the slots of a light slot of a phase that starts at `start`
abbrev pub InLightSlot : ℕ → ℕ → ℕ → ℕ → Type 0
InLightSlot start slot_length light_slot slot =
    (start + light_slot * slot_length ≤ slot) × (slot < start + (light_slot + 1) * slot_length)

pub is_active_phase-InActivePhase :
    (c : ProtocolConfig) (slot epoch : ℕ)
    → is_active_phase c slot epoch ≡ ok tt
    → InActivePhase c epoch slot
unfolding is_active_phase get_current_active_epoch
is_active_phase-InActivePhase c slot epoch p =
    let (current, p1, q1) = >>=-eq-ok (get_current_active_epoch c slot) _ p in
    let (start, p2, q2) = >>=-eq-ok (add c.genesis_slot c.registration_phase_length) _ p1 in
    let (since, p3, q3) =
      >>=-eq-ok (ok_or (checked_sub slot start) get_latest_active_epoch_failed) _ q2 in
    let (sum, small) = add-ok c.genesis_slot c.registration_phase_length p2 in
    let (late, from) = checked_sub-ok slot start get_latest_active_epoch_failed p3 in
    let (pos, quotient) = div-ok since c.active_phase_length q3 in
    let same : current ≡ epoch = equal current epoch (guard-ok _ _ q1) in
    let (low, high) = div-bounds since c.active_phase_length epoch pos (quotient ∙ same) in
    (omega (arith, sum, late, from, low), omega (arith, sum, late, from, high))

pub get_current_light_slot-InLightSlot :
    (f : ForesterEpochPda) (slot light_slot : ℕ)
    → get_current_light_slot f slot ≡ ok light_slot
    → InLightSlot f.epoch_active_phase_start_slot f.protocol_config.slot_length light_slot slot
unfolding get_current_light_slot
get_current_light_slot-InLightSlot f slot light_slot p =
    let start = f.epoch_active_phase_start_slot in
    let (progress, p1, q1) = >>=-eq-ok (ok_or (checked_sub slot start) epoch_ended) _ p in
    let (late, from) = checked_sub-ok slot start epoch_ended p1 in
    let (pos, quotient) = div-ok progress f.protocol_config.slot_length q1 in
    let (low, high) = div-bounds progress f.protocol_config.slot_length light_slot pos quotient in
    (omega (arith, late, from, low), omega (arith, late, from, high))

pub is_eligible-range :
    (f : ForesterEpochPda) (index : ℕ)
    → is_eligible f index ≡ ok true
    → (f.forester_index ≤ index) × (index < f.forester_index + f.weight)
unfolding is_eligible
is_eligible-range f index p = elim (Bool-cases (leb f.forester_index index)) [
  | inl above ↦
      let (end, p1, q1) = >>=-eq-ok (add f.forester_index f.weight) _ (rw above at p) in
      let (sum, small) = add-ok f.forester_index f.weight p1 in
      let below : ltb index end ≡ true = ok_injective q1 in (ground arith, ground arith)
  | inr under ↦ absurd (cc (rw under at p))
]

pub InActivePhase-is_active_phase :
    (c : ProtocolConfig) (slot epoch : ℕ)
    → c.genesis_slot + c.registration_phase_length < word
    → InActivePhase c epoch slot
    → is_active_phase c slot epoch ≡ ok tt
InActivePhase-is_active_phase c slot epoch fits (low, high) =
    let start = c.genesis_slot + c.registration_phase_length + epoch * c.active_phase_length in
    active_at c slot epoch (
      get_current_active_epoch_lem c slot epoch (slot - start) (omega (arith, low))
        (grind (arith, low, high)) fits)

pub InLightSlot-get_current_light_slot :
    (f : ForesterEpochPda) (slot light_slot : ℕ)
    → InLightSlot f.epoch_active_phase_start_slot f.protocol_config.slot_length light_slot slot
    → get_current_light_slot f slot ≡ ok light_slot
unfolding get_current_light_slot
InLightSlot-get_current_light_slot f slot light_slot (low, high) =
    let start = f.epoch_active_phase_start_slot in
    let length = f.protocol_config.slot_length in
    let (pos, quotient) =
      div-between (slot - start) length light_slot (omega (arith, low))
        (omega (arith, low, high)) in
    rw (le→leb start slot (omega (arith, low)), lt→ltb 0 length pos, quotient) refl

pub range-is_eligible :
    (f : ForesterEpochPda) (index : ℕ)
    → f.forester_index + f.weight < word
    → f.forester_index ≤ index
    → index < f.forester_index + f.weight
    → is_eligible f index ≡ ok true
unfolding is_eligible
range-is_eligible f index fits low high =
    rw
      (
        le→leb f.forester_index index low,
        lt→ltb (f.forester_index + f.weight) word fits,
        lt→ltb index (f.forester_index + f.weight) high,
      )
      refl
