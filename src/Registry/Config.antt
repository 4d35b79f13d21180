-- ===== src/Registry/Config.antt =====
-- programs/registry/src/protocol_config/state.rs: the phases of an epoch. Numbers are `u64`.
use light_protocol.Prelude.{ℕ, ◌-◌, Result, ◌>>=◌, ◌>>◌, guard, not, ok_or, unwrap, leb, ◌==◌}
use light_protocol.Prelude.Words.{checked_sub, add, mul, div, rem}

pub data RegistryError : Type 0 where
  invalid_forester : RegistryError
  not_in_report_work_phase : RegistryError
  stake_account_already_synced : RegistryError
  epoch_ended : RegistryError
  forester_not_eligible : RegistryError
  not_in_registration_period : RegistryError
  weight_insuffient : RegistryError
  forester_already_registered : RegistryError
  invalid_epoch_account : RegistryError
  invalid_epoch : RegistryError
  epoch_still_in_progress : RegistryError
  not_in_active_phase : RegistryError
  forester_already_reported_work : RegistryError
  invalid_network_fee : RegistryError
  finalize_counter_exceeded : RegistryError
  cpi_context_account_missing : RegistryError
  arithmetic_underflow : RegistryError
  registration_not_finalized : RegistryError
  cpi_context_account_invalid_data_len : RegistryError
  invalid_config_update : RegistryError
  invalid_signer : RegistryError
  get_latested_register_epoch_failed : RegistryError
  get_latest_active_epoch_failed : RegistryError
  forester_undefined : RegistryError
  forester_defined : RegistryError

abbrev pub RegistryResult {κ} : Type κ → Type κ
RegistryResult = Result RegistryError

-- The fields that the modelled functions read; the placeholders are left out.
pub record ProtocolConfig : Type 0 where
  pub genesis_slot : ℕ
  pub min_weight : ℕ
  pub slot_length : ℕ
  pub registration_phase_length : ℕ
  pub active_phase_length : ℕ
  pub report_work_phase_length : ℕ
  pub network_fee : ℕ
  pub cpi_context_size : ℕ
  pub finalize_counter_limit : ℕ

unfoldable pub get_latest_register_epoch : ProtocolConfig → ℕ → RegistryResult ℕ
get_latest_register_epoch c slot = do
  slot' ← ok_or (checked_sub slot c.genesis_slot) get_latested_register_epoch_failed
  div slot' c.active_phase_length

-- `saturating_sub` is the subtraction of ℕ
unfoldable pub get_current_epoch : ProtocolConfig → ℕ → RegistryResult ℕ
get_current_epoch c slot = div (slot - c.genesis_slot) c.active_phase_length

unfoldable pub get_current_active_epoch : ProtocolConfig → ℕ → RegistryResult ℕ
get_current_active_epoch c slot = do
  start ← add c.genesis_slot c.registration_phase_length
  slot' ← ok_or (checked_sub slot start) get_latest_active_epoch_failed
  div slot' c.active_phase_length

unfoldable pub get_latest_register_epoch_progress : ProtocolConfig → ℕ → RegistryResult ℕ
get_latest_register_epoch_progress c slot = do
  slot' ← ok_or (checked_sub slot c.genesis_slot) arithmetic_underflow
  rem slot' c.active_phase_length

unfoldable pub get_current_active_epoch_progress : ProtocolConfig → ℕ → RegistryResult ℕ
get_current_active_epoch_progress c slot = do
  start ← add c.genesis_slot c.registration_phase_length
  slot' ← unwrap (checked_sub slot start)
  rem slot' c.active_phase_length

unfoldable pub is_registration_phase : ProtocolConfig → ℕ → RegistryResult ℕ
unfolding get_latest_register_epoch get_latest_register_epoch_progress
is_registration_phase c slot = do
  latest_register_epoch ← get_latest_register_epoch c slot
  latest_register_epoch_progress ← get_latest_register_epoch_progress c slot
  guard (not (leb c.registration_phase_length latest_register_epoch_progress))
      not_in_registration_period
  start ← mul latest_register_epoch c.active_phase_length
  start' ← add start c.genesis_slot
  add start' c.registration_phase_length

unfoldable pub is_active_phase : ProtocolConfig → ℕ → ℕ → RegistryResult (Unit {0})
unfolding get_current_active_epoch
is_active_phase c slot epoch = do
  current ← get_current_active_epoch c slot
  guard (current == epoch) not_in_active_phase

unfoldable pub is_report_work_phase : ProtocolConfig → ℕ → ℕ → RegistryResult (Unit {0})
unfolding is_active_phase get_current_active_epoch_progress
is_report_work_phase c slot epoch = do
  next ← add epoch 1
  is_active_phase c slot next
  current_epoch_progress ← get_current_active_epoch_progress c slot
  guard (not (leb c.report_work_phase_length current_epoch_progress)) not_in_report_work_phase

unfoldable pub is_post_epoch : ProtocolConfig → ℕ → ℕ → RegistryResult (Unit {0})
unfolding get_current_active_epoch
is_post_epoch c slot epoch = do
  current ← get_current_active_epoch c slot
  guard (not (leb current epoch)) invalid_epoch
