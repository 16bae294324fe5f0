-- ===== src/Tests/CoordinatorTests.antt =====
-- The theorems on the coordinator at concrete inputs, with a digest of 32 bytes that is always the same.
use iov_vehicle_tbox_tsp.Prelude.{
  ℕ, ◌≡◌, refl, List, [], ◌∷◌, true, false, Text, codes, text_eq, ◌-ℤ◌, pos, arith,
}
use iov_vehicle_tbox_tsp.Protocol.Identity.{MqttSessionContext}
use iov_vehicle_tbox_tsp.KeyStore.Record.{V2cKeyProvisioningRecord, empty_record}
use iov_vehicle_tbox_tsp.Coordinator.Classification.{SecImportEvidence, not_found}
use iov_vehicle_tbox_tsp.Coordinator.Evidence.{
  SecCapability, StabilizationConfig, count_key, contrary_local_evidence, same_attempt,
  cas_generation_matches, forget_window, reset_not_found_stabilization, bind_stabilization,
  restart_not_found_stabilization_for, restart_on_epoch, reset_on_attempt, count_observation,
  observe_not_found, same_flag, next_epoch, update_sec_capability_epoch, take_contract_epoch,
  stabilization_window_ms, is_stabilized, restored_stabilization, restored_evidence,
}
use iov_vehicle_tbox_tsp.Coordinator.Evidence.Restart.{
  Observation, observe_all, epoch_after_restart, restored_never_stabilized,
}
use iov_vehicle_tbox_tsp.Coordinator.Evidence.Streak.{
  Event, observed, capability_answer, take_event, after_events,
}
use iov_vehicle_tbox_tsp.Coordinator.Evidence.Counted.{IsProvenBy, stabilized_needs_streak}
use iov_vehicle_tbox_tsp.Coordinator.Readiness.{
  CloudReadiness, CapabilityReadiness, KeyprovReadiness, capability_keyprov,
}
use iov_vehicle_tbox_tsp.Coordinator.Session.{SessionState, no_identity}
use iov_vehicle_tbox_tsp.Coordinator.Session.Bound.{
  IsBound, cloud_event, capability_event, gate_check, take_session_events, events-IsBound,
}

abbrev eight : List ℕ → List ℕ
eight s = 1 ∷ 2 ∷ 3 ∷ 4 ∷ 5 ∷ 6 ∷ 7 ∷ 8 ∷ s

abbrev one_digest : Text → List ℕ
one_digest s = eight (eight (eight (eight [])))

abbrev fresh_import : V2cKeyProvisioningRecord
fresh_import = record empty_record { request_id = codes "kp-1"; store_generation = 3 }

abbrev strong : SecImportEvidence
strong = record {
  kind = not_found;
  sec_import_result_contract_version = 2;
  request_id_digest = one_digest [];
  observed_store_generation = 3;
  import_invocation_recorded = true;
  pending_callback = false;
  raw_import_state = pos 5;
  no_residue_proven = true;
}

abbrev answer : SecCapability
answer = record { capability_contract_version = 2; business_key_import_result_not_found_v1 = true }

abbrev two_within_ten : StabilizationConfig
two_within_ten = record {
  not_found_stabilization_count = 2;
  not_found_stabilization_window_ms = 10;
  sec_import_timeout_ms = 0;
  sec_callback_grace_ms = 0;
}

abbrev two_observed : List Event
two_observed =
    observed strong (pos 20) (pos 1020)
    ∷ observed strong (pos 5) (pos 1005)
    ∷ capability_answer true answer
    ∷ []

stabilized_needs_streak_example :
    IsProvenBy one_digest two_within_ten
      (restored_evidence one_digest fresh_import)
      two_observed
      (pos 20)
unfolding restored_evidence restored_stabilization is_stabilized after_events take_event
    observe_not_found same_attempt cas_generation_matches restart_on_epoch
    restart_not_found_stabilization_for reset_on_attempt reset_not_found_stabilization
    count_observation forget_window bind_stabilization update_sec_capability_epoch next_epoch
    same_flag stabilization_window_ms contrary_local_evidence count_key text_eq ◌-ℤ◌
stabilized_needs_streak_example =
    stabilized_needs_streak one_digest two_within_ten (restored_evidence one_digest fresh_import)
      two_observed (pos 20) refl (omega arith) refl

abbrev counted_import : V2cKeyProvisioningRecord
counted_import = record fresh_import {
  recovery = record fresh_import.recovery { sec_not_found_count = 1; sec_capability_epoch = 1 };
}

abbrev later : List Observation
later =
    record { evidence = strong; monotonic_ms = pos 5; wall_ms = pos 1005 }
    ∷ record { evidence = strong; monotonic_ms = pos 900000; wall_ms = pos 901005 }
    ∷ []

restored_never_stabilized_example :
    is_stabilized two_within_ten (pos 900000) (
      observe_all one_digest later (
        take_contract_epoch 0
          (update_sec_capability_epoch true answer (restored_evidence one_digest counted_import))))
    ≡ false
unfolding epoch_after_restart
restored_never_stabilized_example =
    restored_never_stabilized one_digest counted_import answer 0 two_within_ten (pos 900000) later
      (λ e. cc) (omega arith) refl (omega arith)

abbrev session : MqttSessionContext
session = record {
  daemon_epoch = codes "e-1";
  connection_generation = 4;
  cert_session_generation = 2;
}

abbrev cloud : CloudReadiness
cloud = record {
  cloud_ready = true;
  connection_generation = 4;
  cert_session_generation = 2;
  credential_id = [];
  credential_version = 1;
  device_identity_digest = codes "aa";
  certificate_ref = codes "bb";
  reason_code = [];
  contract_version = 3;
  contract_supported = true;
  ecu_uid = codes "ECU-1";
  session = session;
  publish_contract_version = 1;
  event_sequence = 7;
}

abbrev capable : CapabilityReadiness
capable = record {
  capability = capability_keyprov;
  enabled = true;
  contract_supported = true;
  snapshot_accepted = true;
  uplink_ready = true;
  downlink_suback_ready = true;
  ready = true;
  owner_generation = 1;
  connection_generation = 4;
  cert_session_generation = 2;
  reason_code = [];
}

abbrev all_conditions : KeyprovReadiness
all_conditions = record {
  par_proto_cr008_release_matched = true;
  descriptor_set_hash_matched = true;
  package_service_protocol_registry_matched = true;
  deterministic_proto_runtime_ready = true;
  cross_language_golden_ready = true;
  sec_envelope_v1_import_ready = true;
  sec_atomic_dual_purpose_commit_ready = true;
  sec_import_proof_sign_ecdsa_p256_v1_ready = true;
  sec_secure_journal_replay_ready = true;
}

abbrev started : SessionState
started = record {
  readiness = all_conditions;
  cloud = record cloud { cloud_ready = false };
  capability = record capable { ready = false };
  identity = no_identity;
  identity_valid = false;
  publish_session_supported = false;
  last_cloud_sequence = 0;
  cloud_ready_events = 0;
  capability_event_seen = false;
  pending_items = [];
  response_binding = [];
  last_response_message_id = [];
  deadline_ms = pos 0;
}

events-IsBound_example : IsBound (
    take_session_events
      (cloud_event cloud
        ∷ capability_event capable
        ∷ gate_check true false all_conditions
        ∷ cloud_event (record cloud { event_sequence = 8 })
        ∷ [])
      started)
events-IsBound_example =
    events-IsBound
      (cloud_event cloud
        ∷ capability_event capable
        ∷ gate_check true false all_conditions
        ∷ cloud_event (record cloud { event_sequence = 8 })
        ∷ [])
      started (λ e. cc)
