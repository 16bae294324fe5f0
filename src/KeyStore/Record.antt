-- ===== src/KeyStore/Record.antt =====
-- `V2cKeyProvisioningRecord` of include/v2c_key_provisioning_store.h. The fields that a schema version
-- added together are records of their own; every field keeps its name.
use iov_vehicle_tbox_tsp.Prelude.{ℕ, List, [], Bool, false, Text, codes, ℤ, pos, negsuc}
use iov_vehicle_tbox_tsp.Attempt.Snapshot.{KeyprovAttemptSnapshot}
use iov_vehicle_tbox_tsp.Lifecycle.Ledger.{KeyprovBudgetLedger, empty_ledger}

abbrev pub v2c_store_schema_version : ℕ
v2c_store_schema_version = 5

-- `SecImportEvidenceKind::ContractUnknown`.
abbrev pub contract_unknown_kind : ℤ
contract_unknown_kind = pos 5

-- `ImportInvocationResolution`.
abbrev pub resolution_unresolved : ℤ
resolution_unresolved = pos 0

abbrev pub resolution_no_side_effect_proven : ℤ
resolution_no_side_effect_proven = pos 1

abbrev pub recovery_phase_reconcile_evidence : Text
recovery_phase_reconcile_evidence = codes "RECONCILE_EVIDENCE"

-- Added by schema 3.
pub record ImportEvidence : Type 0 where
  pub sec_import_result_contract_version : ℕ
  pub sec_import_evidence_kind : ℤ
  pub sec_evidence_observed_store_generation : ℕ
  pub sec_evidence_observed_at_ms : ℤ
  pub import_invocation : Bool

-- Added by schema 4.
pub record ImportRecovery : Type 0 where
  pub import_invocation_resolution : ℤ
  pub sec_not_found_count : ℕ
  pub sec_not_found_first_observed_ms : ℤ
  pub sec_not_found_last_observed_ms : ℤ
  pub sec_capability_epoch : ℕ
  pub sec_contract_version : ℕ
  pub recovery_phase : Text
  pub successor_request_id : Text
  pub successor_request_id_digest : Text

-- SEC's lifecycle contract, with the budget added by schema 5.
pub record SecContract : Type 0 where
  pub sec_result_contract_version : ℕ
  pub sec_query_semantics_version : ℕ
  pub sec_supports_lease_admission : Bool
  pub sec_kl1_profile_version : ℕ

pub record V2cKeyProvisioningRecord : Type 0 where
  pub valid : Bool
  pub schema_version : ℕ
  pub fingerprint_version : ℕ
  pub attempt_fingerprint : Text
  pub request_id : Text
  pub idempotency_digest : Text
  pub state : Text
  pub submission : Text
  pub snapshot : KeyprovAttemptSnapshot
  pub attempt_count : ℕ
  pub deadline_ms : ℤ
  pub last_error : Text
  pub updated_at_ms : ℤ
  pub cloud_session_generation : ℕ
  pub supersedes_request_id : Text
  pub superseded_by_request_id : Text
  pub blocked_reason : Text
  pub store_generation : ℕ
  pub terminalized_request_ids : List Text
  pub evidence : ImportEvidence
  pub recovery : ImportRecovery
  pub lifecycle_profile : Text
  pub budget : KeyprovBudgetLedger
  pub lease_expires_at_ms : ℤ
  pub contract : SecContract
  pub legacy_snapshot_unknown : Bool
  pub purposes : List Text
  pub business_key_versions : List (Text × ℕ)

abbrev pub empty_attempt_snapshot : KeyprovAttemptSnapshot
empty_attempt_snapshot = record {
  business_domain = [];
  purposes = [];
  current_versions = [];
  device_identity_digest = [];
  recipient_certificate_digest = [];
  certificate_ref_digest = [];
  wrapping_suites = [];
  envelope_formats = [];
  protocol_lock_digest = [];
}

-- The default member initialisers.
abbrev pub empty_record : V2cKeyProvisioningRecord
empty_record = record {
  valid = false;
  schema_version = 0;
  fingerprint_version = 0;
  attempt_fingerprint = [];
  request_id = [];
  idempotency_digest = [];
  state = [];
  submission = [];
  snapshot = empty_attempt_snapshot;
  attempt_count = 0;
  deadline_ms = pos 0;
  last_error = [];
  updated_at_ms = pos 0;
  cloud_session_generation = 0;
  supersedes_request_id = [];
  superseded_by_request_id = [];
  blocked_reason = [];
  store_generation = 0;
  terminalized_request_ids = [];
  evidence = record {
    sec_import_result_contract_version = 0;
    sec_import_evidence_kind = contract_unknown_kind;
    sec_evidence_observed_store_generation = 0;
    sec_evidence_observed_at_ms = pos 0;
    import_invocation = false;
  };
  recovery = record {
    import_invocation_resolution = resolution_unresolved;
    sec_not_found_count = 0;
    sec_not_found_first_observed_ms = negsuc 0;
    sec_not_found_last_observed_ms = negsuc 0;
    sec_capability_epoch = 0;
    sec_contract_version = 0;
    recovery_phase = [];
    successor_request_id = [];
    successor_request_id_digest = [];
  };
  lifecycle_profile = [];
  budget = empty_ledger;
  lease_expires_at_ms = pos 0;
  contract = record {
    sec_result_contract_version = 0;
    sec_query_semantics_version = 0;
    sec_supports_lease_admission = false;
    sec_kl1_profile_version = 0;
  };
  legacy_snapshot_unknown = false;
  purposes = [];
  business_key_versions = [];
}
