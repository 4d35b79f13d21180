-- ===== src/Registry/Tests.antt =====
-- The theorems on the registry at an epoch with two foresters.
use light_protocol.Prelude.{
  ℕ, ◌+◌, ◌*◌, ◌<◌, ◌≡◌, ◌≢◌, ◌↔◌, refl, arith, true, false, List, [], ◌∷◌, some, none, ok, err,
  get_elem?,
}
use light_protocol.Registry.Config.{
  ProtocolConfig, get_latest_register_epoch, is_registration_phase, is_active_phase,
  is_report_work_phase, forester_already_reported_work,
}
use light_protocol.Registry.Epoch.{
  EpochPda, ForesterPda, ForesterEpochPda, get_current_light_slot, is_eligible,
  get_eligible_forester_index, check_eligibility, check_forester, process_register_for_epoch,
  report_work,
}
use light_protocol.Registry.Phases.{is_active_phase-is_registration_phase}
use light_protocol.Registry.Ranges.{Registered, nobody, one_more, Registered-eligible}
use light_protocol.Registry.Work.{Eligible, check_forester-Eligible, report_work-report_work}

abbrev config : ProtocolConfig
config = record {
  genesis_slot = 0;
  min_weight = 1;
  slot_length = 10;
  registration_phase_length = 100;
  active_phase_length = 1000;
  report_work_phase_length = 100;
  network_fee = 5000;
  cpi_context_size = 20488;
  finalize_counter_limit = 100;
}

abbrev forester : ℕ → ℕ → ForesterPda
forester authority weight = record {
  authority = authority;
  config = record { fee = 0 };
  active_weight = weight;
  pending_weight = 0;
  current_epoch = 0;
  last_compressed_forester_epoch_pda_hash = [];
  last_registered_epoch = 0;
}

abbrev epoch_with : ℕ → EpochPda
epoch_with weight = record {
  epoch = 0;
  protocol_config = config;
  total_work = 0;
  registered_weight = weight;
}

abbrev forester_epoch : ℕ → ℕ → ℕ → ForesterEpochPda
forester_epoch authority index weight = record {
  authority = authority;
  config = record { fee = 0 };
  epoch = 0;
  weight = weight;
  work_counter = 0;
  has_reported_work = false;
  forester_index = index;
  epoch_active_phase_start_slot = 100;
  total_epoch_weight = none;
  protocol_config = config;
  finalize_counter = 0;
}

first_registers :
    process_register_for_epoch 7 (forester 7 3) (epoch_with 0) 50
    ≡ ok (forester 7 3, forester_epoch 7 0 3, epoch_with 3)
unfolding process_register_for_epoch is_registration_phase
first_registers = refl

second_registers :
    process_register_for_epoch 8 (forester 8 5) (epoch_with 3) 60
    ≡ ok (forester 8 5, forester_epoch 8 3 5, epoch_with 8)
unfolding process_register_for_epoch is_registration_phase
second_registers = refl

abbrev both : List ForesterEpochPda
both = forester_epoch 7 0 3 ∷ forester_epoch 8 3 5 ∷ []

both-Registered : Registered (epoch_with 0) both (epoch_with 8)
both-Registered =
    one_more 7 50 (forester 7 3) (forester 7 3) (forester_epoch 7 0 3) (forester_epoch 8 3 5 ∷ [])
      (epoch_with 0) (epoch_with 3) (epoch_with 8) first_registers
      (one_more 8 60 (forester 8 5) (forester 8 5) (forester_epoch 8 3 5) [] (epoch_with 3)
        (epoch_with 8) (epoch_with 8) second_registers (nobody (epoch_with 8)))

Registered-eligible_example :
    (i : ℕ) × (f : ForesterEpochPda) × (get_elem? both i ≡ some f)
    × (is_eligible f 4 ≡ ok true)
    × ((j : ℕ) (g : ForesterEpochPda)
        → i ≢ j
        → get_elem? both j ≡ some g
        → is_eligible g 4 ≡ ok false)
Registered-eligible_example =
    Registered-eligible (epoch_with 0) (epoch_with 8) both 4 both-Registered (omega arith)
      (omega arith)

registration : is_registration_phase config 1050 ≡ ok 1100
unfolding is_registration_phase
registration = refl

registers_for : get_latest_register_epoch config 1050 ≡ ok 1
unfolding get_latest_register_epoch
registers_for = refl

is_active_phase-is_registration_phase_example :
    (is_active_phase config 1105 1 ≡ ok tt) × (1050 < 1100)
is_active_phase-is_registration_phase_example =
    is_active_phase-is_registration_phase config 1050 1100 1 5 registration registers_for
      (omega arith)

reporting : is_report_work_phase config 1150 0 ≡ ok tt
unfolding is_report_work_phase
reporting = refl

-- a hash that depends on the light slot only
abbrev slot_hash : ℕ → ℕ → ℕ → ℕ
slot_hash pubkey epoch light_slot = light_slot * 7 + 3

abbrev finalized : ForesterEpochPda
finalized = record (forester_epoch 8 3 5) { total_epoch_weight = some 8 }

-- slot 145 is in light slot 4, where the hash leaves 7 modulo 8
worked : check_forester slot_hash finalized 8 42 145 ≡ ok (record finalized { work_counter = 1 })
unfolding check_forester check_eligibility is_active_phase get_current_light_slot
    get_eligible_forester_index is_eligible
worked = refl

check_forester-Eligible_example :
    (check_forester slot_hash finalized 8 42 145 ≡ ok (record finalized { work_counter = 1 })) ↔ (
      (finalized.authority ≡ 8)
      × Eligible slot_hash finalized 145 42
      × (record finalized { work_counter = 1 } ≡ record finalized { work_counter = 1 }))
check_forester-Eligible_example =
    check_forester-Eligible slot_hash finalized (record finalized { work_counter = 1 }) 8 42 145
      (omega arith) (omega arith) (omega arith)

works_at_145 : Eligible slot_hash finalized 145 42
works_at_145 = let (mine, eligible, same) = check_forester-Eligible_example.0 worked in eligible

abbrev worker : ForesterEpochPda
worker = record finalized { work_counter = 4 }

reported :
    report_work worker (epoch_with 8) 1150
    ≡ ok (record worker { has_reported_work = true }, record (epoch_with 8) { total_work = 4 })
unfolding report_work is_report_work_phase
reported = refl

report_work-report_work_example :
    (4 ≡ 0 + 4)
    × (report_work
          (record worker { has_reported_work = true })
          (record (epoch_with 8) { total_work = 4 })
          1150
        ≡ err forester_already_reported_work)
report_work-report_work_example =
    report_work-report_work worker (record worker { has_reported_work = true }) (epoch_with 8)
      (record (epoch_with 8) { total_work = 4 }) 1150 reported
