-- ===== src/Registry/Epoch.antt =====
-- programs/registry/src/epoch and the epoch instructions of programs/registry/src/lib.rs. A public
-- key is its 256-bit number. The current slot, which the runtime's clock gives, is an argument.
use light_protocol.Prelude.{
  ℕ, Bool, true, false, List, Option, none, some, ok, ◌>>=◌, ◌>>◌, guard, not, ok_or, leb, ltb,
  ◌==◌, if◌then◌else◌,
}
use light_protocol.Prelude.Words.{checked_sub, add, div, rem}
use light_protocol.Registry.Config.{
  ProtocolConfig, RegistryResult, get_latest_register_epoch, get_current_active_epoch,
  is_registration_phase, is_active_phase, is_report_work_phase, invalid_forester, epoch_ended,
  forester_not_eligible, weight_insuffient, forester_already_registered, invalid_epoch_account,
  invalid_epoch, forester_already_reported_work, finalize_counter_exceeded,
  registration_not_finalized,
}

pub record EpochPda : Type 0 where
  pub epoch : ℕ
  pub protocol_config : ProtocolConfig
  pub total_work : ℕ
  pub registered_weight : ℕ

pub record ForesterConfig : Type 0 where
  pub fee : ℕ

pub record ForesterPda : Type 0 where
  pub authority : ℕ
  pub config : ForesterConfig
  pub active_weight : ℕ
  pub pending_weight : ℕ
  pub current_epoch : ℕ
  pub last_compressed_forester_epoch_pda_hash : List ℕ
  pub last_registered_epoch : ℕ

pub record ForesterEpochPda : Type 0 where
  pub authority : ℕ
  pub config : ForesterConfig
  pub epoch : ℕ
  pub weight : ℕ
  pub work_counter : ℕ
  pub has_reported_work : Bool
  pub forester_index : ℕ
  pub epoch_active_phase_start_slot : ℕ
  pub total_epoch_weight : Option ℕ
  pub protocol_config : ProtocolConfig
  pub finalize_counter : ℕ

unfoldable pub get_current_light_slot : ForesterEpochPda → ℕ → RegistryResult ℕ
get_current_light_slot f current_solana_slot = do
  progress ← ok_or (checked_sub current_solana_slot f.epoch_active_phase_start_slot) epoch_ended
  div progress f.protocol_config.slot_length

-- The sum of the range's end is only computed when the first test holds.
unfoldable pub is_eligible : ForesterEpochPda → ℕ → RegistryResult Bool
is_eligible f forester_range_start =
    if leb f.forester_index forester_range_start
    then (do end ← add f.forester_index f.weight; ok (ltb forester_range_start end))
    else ok false

-- The first 8 bytes of the runtime's hash of a queue's key, an epoch and a light slot, as a number.
module _ (hash_value : ℕ → ℕ → ℕ → ℕ) where
  unfoldable pub get_eligible_forester_index : ℕ → ℕ → ℕ → ℕ → RegistryResult ℕ
  get_eligible_forester_index current_light_slot pubkey total_epoch_weight epoch =
      rem (hash_value pubkey epoch current_light_slot) total_epoch_weight

  unfoldable pub check_eligibility : ForesterEpochPda → ℕ → ℕ → RegistryResult (Unit {0})
  check_eligibility f current_slot pubkey = do
    is_active_phase f.protocol_config current_slot f.epoch
    current_light_slot ← get_current_light_slot f current_slot
    total_epoch_weight ← ok_or f.total_epoch_weight registration_not_finalized
    forester_slot ← get_eligible_forester_index current_light_slot pubkey total_epoch_weight f.epoch
    eligible ← is_eligible f forester_slot
    guard eligible forester_not_eligible

  unfoldable pub check_forester : ForesterEpochPda → ℕ → ℕ → ℕ → RegistryResult ForesterEpochPda
  check_forester f authority queue_pubkey current_solana_slot = do
    guard (f.authority == authority) invalid_forester
    check_eligibility f current_solana_slot queue_pubkey
    work_counter ← add f.work_counter 1
    ok (record f { work_counter = work_counter })

unfoldable pub set_total_registered_weight_instruction :
    ForesterEpochPda → EpochPda → ForesterEpochPda
set_total_registered_weight_instruction f e = record f {
  total_epoch_weight = some e.registered_weight;
}

-- It writes all three accounts.
unfoldable pub process_register_for_epoch :
    ℕ → ForesterPda → EpochPda → ℕ → RegistryResult (ForesterPda × ForesterEpochPda × EpochPda)
process_register_for_epoch authority forester epoch_pda current_slot = do
  guard (leb epoch_pda.protocol_config.min_weight forester.active_weight) weight_insuffient
  current_epoch_start_slot ← is_registration_phase epoch_pda.protocol_config current_slot
  registered_weight ← add epoch_pda.registered_weight forester.active_weight
  ok (
    record forester { last_registered_epoch = epoch_pda.epoch },
    record {
      authority = authority;
      config = forester.config;
      epoch = epoch_pda.epoch;
      weight = forester.active_weight;
      work_counter = 0;
      has_reported_work = false;
      forester_index = epoch_pda.registered_weight;
      epoch_active_phase_start_slot = current_epoch_start_slot;
      total_epoch_weight = none;
      protocol_config = epoch_pda.protocol_config;
      finalize_counter = 0;
    },
    record epoch_pda { registered_weight = registered_weight },
  )

-- The instruction `register_forester_epoch`, with the config of the protocol's account.
unfoldable pub register_forester_epoch :
    ProtocolConfig
    → ℕ
    → ForesterPda
    → EpochPda
    → ℕ
    → ℕ
    → RegistryResult (ForesterPda × ForesterEpochPda × EpochPda)
register_forester_epoch config authority forester epoch_pda epoch current_solana_slot = do
  let epoch_pda' : EpochPda =
      if epoch_pda.registered_weight == 0
      then record { epoch = epoch; protocol_config = config; total_work = 0; registered_weight = 0 }
      else epoch_pda
  current_epoch ← get_latest_register_epoch epoch_pda'.protocol_config current_solana_slot
  guard (current_epoch == epoch) invalid_epoch
  process_register_for_epoch authority forester epoch_pda' current_solana_slot

unfoldable pub finalize_registration :
    ForesterEpochPda → EpochPda → ℕ → RegistryResult ForesterEpochPda
finalize_registration f e current_solana_slot = do
  current_active_epoch ← get_current_active_epoch e.protocol_config current_solana_slot
  guard (current_active_epoch == e.epoch) invalid_epoch
  finalize_counter ← add f.finalize_counter 1
  guard (leb finalize_counter f.protocol_config.finalize_counter_limit) finalize_counter_exceeded
  ok (record f {
    total_epoch_weight = some e.registered_weight;
    finalize_counter = finalize_counter;
  })

-- the function of epoch/report_work.rs
unfoldable pub report_work_instruction :
    ForesterEpochPda → EpochPda → ℕ → RegistryResult (ForesterEpochPda × EpochPda)
report_work_instruction f e current_slot = do
  is_report_work_phase e.protocol_config current_slot e.epoch
  guard (f.epoch == e.epoch) invalid_epoch_account
  guard (not f.has_reported_work) forester_already_registered
  total_work ← add e.total_work f.work_counter
  ok (record f { has_reported_work = true }, record e { total_work = total_work })

-- the instruction of lib.rs
unfoldable pub report_work :
    ForesterEpochPda → EpochPda → ℕ → RegistryResult (ForesterEpochPda × EpochPda)
report_work f e current_solana_slot = do
  is_report_work_phase e.protocol_config current_solana_slot e.epoch
  guard (e.epoch == f.epoch) invalid_epoch
  guard (not f.has_reported_work) forester_already_reported_work
  total_work ← add e.total_work f.work_counter
  ok (record f { has_reported_work = true }, record e { total_work = total_work })
