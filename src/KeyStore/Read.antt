-- ===== src/KeyStore/Read.antt =====
-- The reading half of `load`: the fields with their conservative defaults. `none` is an exception of the
-- JSON library.
use iov_vehicle_tbox_tsp.Prelude.{
  ℕ, List, [], ◌∷◌, ◌++◌, Bool, true, false, not, ◌&&◌, Option, none, some, ◌>>=◌, Text, codes, ℤ,
  pos, negsuc, leb_ℤ, if◌then◌else◌,
}
use iov_vehicle_tbox_tsp.Attempt.Snapshot.{KeyprovAttemptSnapshot}
use iov_vehicle_tbox_tsp.Lifecycle.Ledger.{KeyprovBudgetLedger, empty_ledger}
use iov_vehicle_tbox_tsp.KeyStore.Record.{
  contract_unknown_kind, resolution_unresolved, resolution_no_side_effect_proven, ImportEvidence,
  ImportRecovery, SecContract, V2cKeyProvisioningRecord, empty_record, empty_attempt_snapshot,
}
use iov_vehicle_tbox_tsp.KeyStore.Hex.{hex_decode}
use iov_vehicle_tbox_tsp.KeyStore.Json.{JsonLibrary, value_or, each}

abbrev pub is_between : ℤ → ℤ → ℤ → Bool
is_between low z high = leb_ℤ low z && leb_ℤ z high

unfoldable pub known_kind : ℤ → ℤ
known_kind kind = if is_between (pos 0) kind (pos 5) then kind else contract_unknown_kind

abbrev pub is_present {ℓ} : {A : Type ℓ} → Option A → Bool
is_present none = false
is_present (some a) = true

-- A stored resolution stands; without one, only an invocation that is stored as false proves that
-- there was no side effect.
unfoldable pub resolution_of : ℤ → Bool → Bool → ℤ
resolution_of stored present invocation =
    if is_between (pos 0) stored (pos 2)
    then stored
    else if present && not invocation
    then resolution_no_side_effect_proven
    else resolution_unresolved

module _ (lib : JsonLibrary) where
  -- One entry of `current_versions`: an array that has not two items is skipped.
  unfoldable pub read_version : List lib.Json → Option (List (ℕ × ℕ))
  read_version (purpose ∷ version ∷ []) = do
    p ← lib.to_enum purpose
    v ← lib.to_u64 version
    some ((p, v) ∷ [])
  read_version _ = some []

  unfoldable pub read_versions : List lib.Json → Option (List (ℕ × ℕ))
  read_versions [] = some []
  read_versions (j ∷ js) = do
    parts ← lib.to_array j
    first ← read_version parts
    rest ← read_versions js
    some (first ++ rest)

  abbrev pub enums_at : Option lib.Json → Option (List ℕ)
  enums_at field = value_or lib.to_array [] field >>= each lib.to_enum

  unfoldable pub snapshot_from_json : lib.Json → Option KeyprovAttemptSnapshot
  snapshot_from_json j = do
    let get = lib.lookup j
    business_domain ← value_or lib.to_text [] (get (codes "business_domain"))
    purposes ← enums_at (get (codes "purposes"))
    pairs ← value_or lib.to_array [] (get (codes "current_versions"))
    current_versions ← read_versions pairs
    device ← value_or lib.to_text [] (get (codes "device_identity_digest"))
    recipient ← value_or lib.to_text [] (get (codes "recipient_certificate_digest"))
    certificate ← value_or lib.to_text [] (get (codes "certificate_ref_digest"))
    wrapping_suites ← enums_at (get (codes "wrapping_suites"))
    envelope_formats ← enums_at (get (codes "envelope_formats"))
    lock ← value_or lib.to_text [] (get (codes "protocol_lock_digest"))
    some (record {
      business_domain = business_domain;
      purposes = purposes;
      current_versions = current_versions;
      device_identity_digest = hex_decode device;
      recipient_certificate_digest = hex_decode recipient;
      certificate_ref_digest = hex_decode certificate;
      wrapping_suites = wrapping_suites;
      envelope_formats = envelope_formats;
      protocol_lock_digest = hex_decode lock;
    })

  -- A snapshot that is missing or not an object stays empty.
  unfoldable pub read_snapshot : Option lib.Json → Option KeyprovAttemptSnapshot
  read_snapshot none = some empty_attempt_snapshot
  read_snapshot (some j) =
      if lib.is_object j then snapshot_from_json j else some empty_attempt_snapshot

  -- A missing `import_invocation` reads as true: SEC may have been called.
  unfoldable pub read_invocation : Option lib.Json → Option Bool
  read_invocation none = some true
  read_invocation (some j) = lib.to_flag j

  unfoldable pub read_evidence : (Text → Option lib.Json) → Option ImportEvidence
  read_evidence get = do
    sec_import_result_contract_version ←
        value_or lib.to_u32 0 (get (codes "sec_import_result_contract_version"))
    kind ← value_or lib.to_i32 contract_unknown_kind (get (codes "sec_import_evidence_kind"))
    sec_evidence_observed_store_generation ←
        value_or lib.to_u64 0 (get (codes "sec_evidence_observed_store_generation"))
    sec_evidence_observed_at_ms ←
        value_or lib.to_i64 (pos 0) (get (codes "sec_evidence_observed_at_ms"))
    import_invocation ← read_invocation (get (codes "import_invocation"))
    some (record {
      sec_import_result_contract_version = sec_import_result_contract_version;
      sec_import_evidence_kind = known_kind kind;
      sec_evidence_observed_store_generation = sec_evidence_observed_store_generation;
      sec_evidence_observed_at_ms = sec_evidence_observed_at_ms;
      import_invocation = import_invocation;
    })

  unfoldable pub read_recovery : (Text → Option lib.Json) → Bool → Option ImportRecovery
  read_recovery get import_invocation = do
    stored ← value_or lib.to_i32 (negsuc 0) (get (codes "import_invocation_resolution"))
    sec_not_found_count ← value_or lib.to_u32 0 (get (codes "sec_not_found_count"))
    sec_not_found_first_observed_ms ←
        value_or lib.to_i64 (negsuc 0) (get (codes "sec_not_found_first_observed_ms"))
    sec_not_found_last_observed_ms ←
        value_or lib.to_i64 (negsuc 0) (get (codes "sec_not_found_last_observed_ms"))
    sec_capability_epoch ← value_or lib.to_u64 0 (get (codes "sec_capability_epoch"))
    sec_contract_version ← value_or lib.to_u32 0 (get (codes "sec_contract_version"))
    recovery_phase ← value_or lib.to_text [] (get (codes "recovery_phase"))
    successor_request_id ← value_or lib.to_text [] (get (codes "successor_request_id"))
    successor_request_id_digest ←
        value_or lib.to_text [] (get (codes "successor_request_id_digest"))
    some (record {
      import_invocation_resolution =
          resolution_of stored (is_present (get (codes "import_invocation"))) import_invocation;
      sec_not_found_count = sec_not_found_count;
      sec_not_found_first_observed_ms = sec_not_found_first_observed_ms;
      sec_not_found_last_observed_ms = sec_not_found_last_observed_ms;
      sec_capability_epoch = sec_capability_epoch;
      sec_contract_version = sec_contract_version;
      recovery_phase = recovery_phase;
      successor_request_id = successor_request_id;
      successor_request_id_digest = successor_request_id_digest;
    })

  unfoldable pub read_budget : (Text → Option lib.Json) → Option KeyprovBudgetLedger
  read_budget get = do
    request_send_count ← value_or lib.to_u32 0 (get (codes "request_send_count"))
    first_request_at_ms ← value_or lib.to_i64 (pos 0) (get (codes "first_request_at_ms"))
    request_deadline_at_ms ← value_or lib.to_i64 (pos 0) (get (codes "request_deadline_at_ms"))
    status_send_count ← value_or lib.to_u32 0 (get (codes "status_send_count"))
    first_readonly_at_ms ← value_or lib.to_i64 (pos 0) (get (codes "first_readonly_at_ms"))
    readonly_deadline_at_ms ← value_or lib.to_i64 (pos 0) (get (codes "readonly_deadline_at_ms"))
    sec_query_count ← value_or lib.to_u32 0 (get (codes "sec_query_count"))
    ack_send_count ← value_or lib.to_u32 0 (get (codes "ack_send_count"))
    ack_safe_deadline_at_ms ← value_or lib.to_i64 (pos 0) (get (codes "ack_safe_deadline_at_ms"))
    expiry_freshen_count ← value_or lib.to_u32 0 (get (codes "expiry_freshen_count"))
    budget_exhausted_reason ← value_or lib.to_text [] (get (codes "budget_exhausted_reason"))
    chain_id ← value_or lib.to_text [] (get (codes "chain_id"))
    chain_started_at_ms ← value_or lib.to_i64 (pos 0) (get (codes "chain_started_at_ms"))
    chain_deadline_at_ms ← value_or lib.to_i64 (pos 0) (get (codes "chain_deadline_at_ms"))
    chain_request_id_count ← value_or lib.to_u32 0 (get (codes "chain_request_id_count"))
    migration_token ← value_or lib.to_text [] (get (codes "migration_token"))
    migration_consumed ← value_or lib.to_flag false (get (codes "migration_consumed"))
    some (record {
      request_send_count = request_send_count;
      first_request_at_ms = first_request_at_ms;
      request_deadline_at_ms = request_deadline_at_ms;
      status_send_count = status_send_count;
      first_readonly_at_ms = first_readonly_at_ms;
      readonly_deadline_at_ms = readonly_deadline_at_ms;
      sec_query_count = sec_query_count;
      ack_send_count = ack_send_count;
      ack_safe_deadline_at_ms = ack_safe_deadline_at_ms;
      expiry_freshen_count = expiry_freshen_count;
      budget_exhausted_reason = budget_exhausted_reason;
      chain_id = chain_id;
      chain_started_at_ms = chain_started_at_ms;
      chain_deadline_at_ms = chain_deadline_at_ms;
      chain_request_id_count = chain_request_id_count;
      migration_token = migration_token;
      migration_consumed = migration_consumed;
    })

  unfoldable pub read_contract : (Text → Option lib.Json) → Option SecContract
  read_contract get = do
    sec_result_contract_version ← value_or lib.to_u32 0 (get (codes "sec_result_contract_version"))
    sec_query_semantics_version ← value_or lib.to_u32 0 (get (codes "sec_query_semantics_version"))
    sec_supports_lease_admission ←
        value_or lib.to_flag false (get (codes "sec_supports_lease_admission"))
    sec_kl1_profile_version ← value_or lib.to_u32 0 (get (codes "sec_kl1_profile_version"))
    some (record {
      sec_result_contract_version = sec_result_contract_version;
      sec_query_semantics_version = sec_query_semantics_version;
      sec_supports_lease_admission = sec_supports_lease_admission;
      sec_kl1_profile_version = sec_kl1_profile_version;
    })

  -- The fields of the first schema, with the defaults of the others.
  unfoldable pub read_attempt : (Text → Option lib.Json) → Option V2cKeyProvisioningRecord
  read_attempt get = do
    schema_version ← value_or lib.to_u32 0 (get (codes "schema_version"))
    fingerprint_version ← value_or lib.to_u32 0 (get (codes "fingerprint_version"))
    attempt_fingerprint ← value_or lib.to_text [] (get (codes "attempt_fingerprint"))
    request_id ← value_or lib.to_text [] (get (codes "request_id"))
    idempotency_digest ← value_or lib.to_text [] (get (codes "idempotency_digest"))
    state ← value_or lib.to_text [] (get (codes "state"))
    submission ← value_or lib.to_text [] (get (codes "submission"))
    snapshot ← read_snapshot (get (codes "snapshot"))
    attempt_count ← value_or lib.to_u32 0 (get (codes "attempt_count"))
    deadline_ms ← value_or lib.to_i64 (pos 0) (get (codes "deadline_ms"))
    last_error ← value_or lib.to_text [] (get (codes "last_error"))
    updated_at_ms ← value_or lib.to_i64 (pos 0) (get (codes "updated_at_ms"))
    cloud_session_generation ← value_or lib.to_u64 0 (get (codes "cloud_session_generation"))
    supersedes_request_id ← value_or lib.to_text [] (get (codes "supersedes_request_id"))
    superseded_by_request_id ← value_or lib.to_text [] (get (codes "superseded_by_request_id"))
    blocked_reason ← value_or lib.to_text [] (get (codes "blocked_reason"))
    store_generation ← value_or lib.to_u64 0 (get (codes "store_generation"))
    ids ← value_or lib.to_array [] (get (codes "terminalized_request_ids"))
    terminalized_request_ids ← each lib.to_text ids
    some (record {
      valid = true;
      schema_version = schema_version;
      fingerprint_version = fingerprint_version;
      attempt_fingerprint = attempt_fingerprint;
      request_id = request_id;
      idempotency_digest = idempotency_digest;
      state = state;
      submission = submission;
      snapshot = snapshot;
      attempt_count = attempt_count;
      deadline_ms = deadline_ms;
      last_error = last_error;
      updated_at_ms = updated_at_ms;
      cloud_session_generation = cloud_session_generation;
      supersedes_request_id = supersedes_request_id;
      superseded_by_request_id = superseded_by_request_id;
      blocked_reason = blocked_reason;
      store_generation = store_generation;
      terminalized_request_ids = terminalized_request_ids;
      evidence = empty_record.evidence;
      recovery = empty_record.recovery;
      lifecycle_profile = [];
      budget = empty_ledger;
      lease_expires_at_ms = pos 0;
      contract = empty_record.contract;
      legacy_snapshot_unknown = false;
      purposes = [];
      business_key_versions = [];
    })

  -- All fields, as stored, before the migrations.
  unfoldable pub read_record : lib.Json → Option V2cKeyProvisioningRecord
  read_record j = do
    let get = lib.lookup j
    r ← read_attempt get
    evidence ← read_evidence get
    recovery ← read_recovery get evidence.import_invocation
    lifecycle_profile ← value_or lib.to_text [] (get (codes "lifecycle_profile"))
    budget ← read_budget get
    lease_expires_at_ms ← value_or lib.to_i64 (pos 0) (get (codes "lease_expires_at_ms"))
    contract ← read_contract get
    some (record r {
      evidence = evidence;
      recovery = recovery;
      lifecycle_profile = lifecycle_profile;
      budget = budget;
      lease_expires_at_ms = lease_expires_at_ms;
      contract = contract;
    })
