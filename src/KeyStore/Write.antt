-- ===== src/KeyStore/Write.antt =====
-- `snapshot_to_json` and `record_to_json`. An object is the list of its assignments, in the order of the
-- source; every key is assigned once.
use iov_vehicle_tbox_tsp.Prelude.{ℕ, List, [], ◌∷◌, map, Text, codes, ℤ, pos}
use iov_vehicle_tbox_tsp.Attempt.Snapshot.{KeyprovAttemptSnapshot}
use iov_vehicle_tbox_tsp.Lifecycle.Ledger.{KeyprovBudgetLedger}
use iov_vehicle_tbox_tsp.KeyStore.Record.{
  ImportEvidence, ImportRecovery, SecContract, V2cKeyProvisioningRecord,
}
use iov_vehicle_tbox_tsp.KeyStore.Hex.{hex_encode}
use iov_vehicle_tbox_tsp.KeyStore.Json.{JsonLibrary}

module _ (lib : JsonLibrary) where
  unfoldable pub of_enums : List ℕ → lib.Json
  of_enums values = lib.of_array (map (λ n. lib.of_number (pos n)) values)

  unfoldable pub of_version : ℕ × ℕ → lib.Json
  of_version kv = lib.of_array (lib.of_number (pos kv.0) ∷ lib.of_number (pos kv.1) ∷ [])

  unfoldable pub snapshot_fields : KeyprovAttemptSnapshot → List (Text × lib.Json)
  snapshot_fields s =
      (codes "business_domain", lib.of_text s.business_domain)
      ∷ (codes "purposes", of_enums s.purposes)
      ∷ (codes "current_versions", lib.of_array (map of_version s.current_versions))
      ∷ (codes "device_identity_digest", lib.of_text (hex_encode s.device_identity_digest))
      ∷ (
        codes "recipient_certificate_digest",
        lib.of_text (hex_encode s.recipient_certificate_digest),
      )
      ∷ (codes "certificate_ref_digest", lib.of_text (hex_encode s.certificate_ref_digest))
      ∷ (codes "wrapping_suites", of_enums s.wrapping_suites)
      ∷ (codes "envelope_formats", of_enums s.envelope_formats)
      ∷ (codes "protocol_lock_digest", lib.of_text (hex_encode s.protocol_lock_digest))
      ∷ []

  unfoldable pub snapshot_to_json : KeyprovAttemptSnapshot → lib.Json
  snapshot_to_json s = lib.of_object (snapshot_fields s)

  unfoldable pub contract_fields : SecContract → List (Text × lib.Json)
  contract_fields c =
      (codes "sec_result_contract_version", lib.of_number (pos c.sec_result_contract_version))
      ∷ (codes "sec_query_semantics_version", lib.of_number (pos c.sec_query_semantics_version))
      ∷ (codes "sec_supports_lease_admission", lib.of_flag c.sec_supports_lease_admission)
      ∷ (codes "sec_kl1_profile_version", lib.of_number (pos c.sec_kl1_profile_version))
      ∷ []

  unfoldable pub budget_fields :
      KeyprovBudgetLedger → ℤ → List (Text × lib.Json) → List (Text × lib.Json)
  budget_fields l lease_expires_at_ms rest =
      (codes "request_send_count", lib.of_number (pos l.request_send_count))
      ∷ (codes "first_request_at_ms", lib.of_number l.first_request_at_ms)
      ∷ (codes "request_deadline_at_ms", lib.of_number l.request_deadline_at_ms)
      ∷ (codes "status_send_count", lib.of_number (pos l.status_send_count))
      ∷ (codes "first_readonly_at_ms", lib.of_number l.first_readonly_at_ms)
      ∷ (codes "readonly_deadline_at_ms", lib.of_number l.readonly_deadline_at_ms)
      ∷ (codes "sec_query_count", lib.of_number (pos l.sec_query_count))
      ∷ (codes "ack_send_count", lib.of_number (pos l.ack_send_count))
      ∷ (codes "ack_safe_deadline_at_ms", lib.of_number l.ack_safe_deadline_at_ms)
      ∷ (codes "lease_expires_at_ms", lib.of_number lease_expires_at_ms)
      ∷ (codes "expiry_freshen_count", lib.of_number (pos l.expiry_freshen_count))
      ∷ (codes "budget_exhausted_reason", lib.of_text l.budget_exhausted_reason)
      ∷ (codes "chain_id", lib.of_text l.chain_id)
      ∷ (codes "chain_started_at_ms", lib.of_number l.chain_started_at_ms)
      ∷ (codes "chain_deadline_at_ms", lib.of_number l.chain_deadline_at_ms)
      ∷ (codes "chain_request_id_count", lib.of_number (pos l.chain_request_id_count))
      ∷ (codes "migration_token", lib.of_text l.migration_token)
      ∷ (codes "migration_consumed", lib.of_flag l.migration_consumed)
      ∷ rest

  unfoldable pub recovery_fields : ImportRecovery → List (Text × lib.Json) → List (Text × lib.Json)
  recovery_fields i rest =
      (codes "import_invocation_resolution", lib.of_number i.import_invocation_resolution)
      ∷ (codes "sec_not_found_count", lib.of_number (pos i.sec_not_found_count))
      ∷ (codes "sec_not_found_first_observed_ms", lib.of_number i.sec_not_found_first_observed_ms)
      ∷ (codes "sec_not_found_last_observed_ms", lib.of_number i.sec_not_found_last_observed_ms)
      ∷ (codes "sec_capability_epoch", lib.of_number (pos i.sec_capability_epoch))
      ∷ (codes "sec_contract_version", lib.of_number (pos i.sec_contract_version))
      ∷ (codes "recovery_phase", lib.of_text i.recovery_phase)
      ∷ (codes "successor_request_id", lib.of_text i.successor_request_id)
      ∷ (codes "successor_request_id_digest", lib.of_text i.successor_request_id_digest)
      ∷ rest

  unfoldable pub evidence_fields : ImportEvidence → List (Text × lib.Json) → List (Text × lib.Json)
  evidence_fields e rest =
      (
        codes "sec_import_result_contract_version",
        lib.of_number (pos e.sec_import_result_contract_version),
      )
      ∷ (codes "sec_import_evidence_kind", lib.of_number e.sec_import_evidence_kind)
      ∷ (
        codes "sec_evidence_observed_store_generation",
        lib.of_number (pos e.sec_evidence_observed_store_generation),
      )
      ∷ (codes "sec_evidence_observed_at_ms", lib.of_number e.sec_evidence_observed_at_ms)
      ∷ (codes "import_invocation", lib.of_flag e.import_invocation)
      ∷ rest

  unfoldable pub attempt_fields :
      V2cKeyProvisioningRecord → List (Text × lib.Json) → List (Text × lib.Json)
  attempt_fields r rest =
      (codes "schema_version", lib.of_number (pos r.schema_version))
      ∷ (codes "fingerprint_version", lib.of_number (pos r.fingerprint_version))
      ∷ (codes "attempt_fingerprint", lib.of_text r.attempt_fingerprint)
      ∷ (codes "request_id", lib.of_text r.request_id)
      ∷ (codes "idempotency_digest", lib.of_text r.idempotency_digest)
      ∷ (codes "state", lib.of_text r.state)
      ∷ (codes "submission", lib.of_text r.submission)
      ∷ (codes "snapshot", snapshot_to_json r.snapshot)
      ∷ (codes "attempt_count", lib.of_number (pos r.attempt_count))
      ∷ (codes "deadline_ms", lib.of_number r.deadline_ms)
      ∷ (codes "last_error", lib.of_text r.last_error)
      ∷ (codes "updated_at_ms", lib.of_number r.updated_at_ms)
      ∷ (codes "cloud_session_generation", lib.of_number (pos r.cloud_session_generation))
      ∷ (codes "supersedes_request_id", lib.of_text r.supersedes_request_id)
      ∷ (codes "superseded_by_request_id", lib.of_text r.superseded_by_request_id)
      ∷ (codes "blocked_reason", lib.of_text r.blocked_reason)
      ∷ (codes "store_generation", lib.of_number (pos r.store_generation))
      ∷ (
        codes "terminalized_request_ids",
        lib.of_array (map lib.of_text r.terminalized_request_ids),
      )
      ∷ rest

  unfoldable pub record_fields : V2cKeyProvisioningRecord → List (Text × lib.Json)
  record_fields r = attempt_fields r (
      evidence_fields r.evidence (
        recovery_fields r.recovery (
          (codes "lifecycle_profile", lib.of_text r.lifecycle_profile)
          ∷ budget_fields r.budget r.lease_expires_at_ms (contract_fields r.contract))))

  unfoldable pub record_to_json : V2cKeyProvisioningRecord → lib.Json
  record_to_json r = lib.of_object (record_fields r)
