-- ===== src/KeyStore/Load/RoundTrip.antt =====
-- What is saved is loaded again.
use iov_vehicle_tbox_tsp.Prelude.{
  ℕ, ◌<◌, ◌≤◌, ◌^◌, ◌≡◌, ◌≢◌, refl, ap, sym, ◌∙◌, is_empty, not, List, [], ◌∷◌, map, Bool, true,
  false, none, some, Option-cases, ◌⊎◌, inl, inr, Text, codes, text_eq, pos, All, arith,
}
use iov_vehicle_tbox_tsp.Attempt.Snapshot.{KeyprovAttemptSnapshot}
use iov_vehicle_tbox_tsp.Lifecycle.Ledger.{KeyprovBudgetLedger, empty_ledger}
use iov_vehicle_tbox_tsp.KeyStore.Record.{
  ImportEvidence, ImportRecovery, SecContract, V2cKeyProvisioningRecord, empty_record,
}
use iov_vehicle_tbox_tsp.KeyStore.Hex.{hex_encode, hex_decode-hex_encode}
use iov_vehicle_tbox_tsp.KeyStore.Json.{
  JsonLibrary, IsFaithful, IsI64, find_field, each-map, each, value_or,
}
use iov_vehicle_tbox_tsp.KeyStore.Write.{
  of_enums, of_version, snapshot_fields, snapshot_to_json, contract_fields, budget_fields,
  recovery_fields, evidence_fields, attempt_fields, record_fields, record_to_json,
}
use iov_vehicle_tbox_tsp.KeyStore.Read.{
  known_kind, resolution_of, read_version, read_versions, snapshot_from_json, read_snapshot,
  read_invocation, read_evidence, read_recovery, read_budget, read_contract, read_attempt,
  read_record,
}
use iov_vehicle_tbox_tsp.KeyStore.Load.{
  purpose_name, Store, load, save, save_text, load_text, interpret, migrate_record,
  migrate_recovery, finish_record, is_unknown_snapshot,
}

-- The fields stand within the widths of their types.
pub record IsContractInRange (c : SecContract) : Type 0 where
  pub sec_result_contract_version : c.sec_result_contract_version < 2 ^ 32
  pub sec_query_semantics_version : c.sec_query_semantics_version < 2 ^ 32
  pub sec_kl1_profile_version : c.sec_kl1_profile_version < 2 ^ 32

pub record IsBudgetInRange (l : KeyprovBudgetLedger) : Type 0 where
  pub request_send_count : l.request_send_count < 2 ^ 32
  pub first_request_at_ms : IsI64 l.first_request_at_ms
  pub request_deadline_at_ms : IsI64 l.request_deadline_at_ms
  pub status_send_count : l.status_send_count < 2 ^ 32
  pub first_readonly_at_ms : IsI64 l.first_readonly_at_ms
  pub readonly_deadline_at_ms : IsI64 l.readonly_deadline_at_ms
  pub sec_query_count : l.sec_query_count < 2 ^ 32
  pub ack_send_count : l.ack_send_count < 2 ^ 32
  pub ack_safe_deadline_at_ms : IsI64 l.ack_safe_deadline_at_ms
  pub expiry_freshen_count : l.expiry_freshen_count < 2 ^ 32
  pub chain_started_at_ms : IsI64 l.chain_started_at_ms
  pub chain_deadline_at_ms : IsI64 l.chain_deadline_at_ms
  pub chain_request_id_count : l.chain_request_id_count < 2 ^ 32

pub record IsEvidenceInRange (e : ImportEvidence) : Type 0 where
  pub sec_import_result_contract_version : e.sec_import_result_contract_version < 2 ^ 32
  pub sec_evidence_observed_store_generation : e.sec_evidence_observed_store_generation < 2 ^ 64
  pub sec_evidence_observed_at_ms : IsI64 e.sec_evidence_observed_at_ms

pub record IsRecoveryInRange (i : ImportRecovery) : Type 0 where
  pub sec_not_found_count : i.sec_not_found_count < 2 ^ 32
  pub sec_not_found_first_observed_ms : IsI64 i.sec_not_found_first_observed_ms
  pub sec_not_found_last_observed_ms : IsI64 i.sec_not_found_last_observed_ms
  pub sec_capability_epoch : i.sec_capability_epoch < 2 ^ 64
  pub sec_contract_version : i.sec_contract_version < 2 ^ 32

pub record IsAttemptInRange (r : V2cKeyProvisioningRecord) : Type 0 where
  pub schema_version : r.schema_version < 2 ^ 32
  pub fingerprint_version : r.fingerprint_version < 2 ^ 32
  pub attempt_count : r.attempt_count < 2 ^ 32
  pub deadline_ms : IsI64 r.deadline_ms
  pub updated_at_ms : IsI64 r.updated_at_ms
  pub cloud_session_generation : r.cloud_session_generation < 2 ^ 64
  pub store_generation : r.store_generation < 2 ^ 64

abbrev pub IsBytes : List ℕ → Type 0
IsBytes = All (λ b. b < 256)

abbrev pub IsEnums : List ℕ → Type 0
IsEnums = All (λ n. n < 2 ^ 31)

pub record IsSnapshotInRange (s : KeyprovAttemptSnapshot) : Type 0 where
  pub purposes : IsEnums s.purposes
  pub current_versions : All (λ (kv : ℕ × ℕ). (kv.0 < 2 ^ 31) × (kv.1 < 2 ^ 64)) s.current_versions
  pub device : IsBytes s.device_identity_digest
  pub recipient : IsBytes s.recipient_certificate_digest
  pub certificate : IsBytes s.certificate_ref_digest
  pub suites : IsEnums s.wrapping_suites
  pub formats : IsEnums s.envelope_formats
  pub lock : IsBytes s.protocol_lock_digest

is_empty_lem : (s : Text) → s ≢ [] → is_empty s ≡ false
is_empty_lem [] h = absurd (h refl)
is_empty_lem (c ∷ s) h = refl

known_kind_small : (n : ℕ) → n ≤ 5 → known_kind (pos n) ≡ pos n
unfolding known_kind
known_kind_small n h = ground arith

resolution_of_small :
    (n : ℕ) (invocation : Bool) → n ≤ 2 → resolution_of (pos n) true invocation ≡ pos n
unfolding resolution_of
resolution_of_small n invocation h = ground arith

-- A record that the current version writes: of the current schema, valid, with a known fingerprint,
-- in range, and with the mirrors of its snapshot.
pub record IsStorable (r : V2cKeyProvisioningRecord) : Type 0 where
  pub schema : r.schema_version ≡ 5
  pub fingerprint_version : r.fingerprint_version ≡ 1
  pub fingerprint : r.attempt_fingerprint ≢ []
  pub request_id : r.request_id ≢ []
  pub valid : r.valid ≡ true
  pub known : r.legacy_snapshot_unknown ≡ false
  pub purposes : r.purposes ≡ map purpose_name r.snapshot.purposes
  pub versions :
      r.business_key_versions
      ≡ map (λ (kv : ℕ × ℕ). (purpose_name kv.0, kv.1)) r.snapshot.current_versions
  pub kind : ℕ
  pub kind_is : r.evidence.sec_import_evidence_kind ≡ pos kind
  pub kind_known : kind ≤ 5
  pub resolution : ℕ
  pub resolution_is : r.recovery.import_invocation_resolution ≡ pos resolution
  pub resolution_known : resolution ≤ 2
  pub attempt : IsAttemptInRange r
  pub snapshot : IsSnapshotInRange r.snapshot
  pub evidence : IsEvidenceInRange r.evidence
  pub recovery : IsRecoveryInRange r.recovery
  pub budget : IsBudgetInRange r.budget
  pub lease : IsI64 r.lease_expires_at_ms
  pub contract : IsContractInRange r.contract

abbrev bare : V2cKeyProvisioningRecord → V2cKeyProvisioningRecord
bare r = record r {
  valid = true;
  legacy_snapshot_unknown = false;
  purposes = [];
  business_key_versions = [];
}

migrate_recovery_current :
    (schema : ℕ) (i : ImportRecovery) → 5 ≤ schema → migrate_recovery schema i ≡ i
unfolding migrate_recovery
migrate_recovery_current schema i h = ground arith

migrate_record_current :
    (r : V2cKeyProvisioningRecord) → 5 ≤ r.schema_version → migrate_record r ≡ r
unfolding migrate_record
migrate_record_current r h = ground arith

is_unknown_snapshot_lem :
    (r : V2cKeyProvisioningRecord) → IsStorable r → is_unknown_snapshot (bare r) ≡ false
unfolding is_unknown_snapshot
is_unknown_snapshot_lem r h =
    ground
      (arith, h.schema, h.fingerprint_version, is_empty_lem r.attempt_fingerprint h.fingerprint)

finish_back : (r : V2cKeyProvisioningRecord) → IsStorable r → finish_record (bare r) ≡ r
unfolding finish_record
finish_back r h = λ i. record r {
  legacy_snapshot_unknown = (is_unknown_snapshot_lem r h ∙ sym h.known) i;
  purposes = sym h.purposes i;
  business_key_versions = sym h.versions i;
  valid = (ap not (is_empty_lem r.request_id h.request_id) ∙ sym h.valid) i;
}

module _ (lib : JsonLibrary) (law : IsFaithful lib) where
  lookup_back :
      (fields : List (Text × lib.Json))
      → lib.lookup (lib.of_object fields) ≡ (λ key. find_field key fields)
  lookup_back fields = λ i key. law.object_lookup fields key i

  contract_back :
      (r : V2cKeyProvisioningRecord)
      → IsContractInRange r.contract
      → read_contract lib (λ key. find_field key (record_fields lib r)) ≡ some r.contract
  unfolding read_contract record_fields contract_fields budget_fields recovery_fields
      evidence_fields attempt_fields text_eq
  contract_back r h = simp (
    law.u32 r.contract.sec_result_contract_version h.sec_result_contract_version,
    law.u32 r.contract.sec_query_semantics_version h.sec_query_semantics_version,
    law.flag r.contract.sec_supports_lease_admission,
    law.u32 r.contract.sec_kl1_profile_version h.sec_kl1_profile_version,
  )

  budget_back :
      (r : V2cKeyProvisioningRecord)
      → IsBudgetInRange r.budget
      → read_budget lib (λ key. find_field key (record_fields lib r)) ≡ some r.budget
  unfolding read_budget record_fields contract_fields budget_fields recovery_fields evidence_fields
      attempt_fields text_eq
  budget_back r h = simp (
    law.u32 r.budget.request_send_count h.request_send_count,
    law.i64 r.budget.first_request_at_ms h.first_request_at_ms,
    law.i64 r.budget.request_deadline_at_ms h.request_deadline_at_ms,
    law.u32 r.budget.status_send_count h.status_send_count,
    law.i64 r.budget.first_readonly_at_ms h.first_readonly_at_ms,
    law.i64 r.budget.readonly_deadline_at_ms h.readonly_deadline_at_ms,
    law.u32 r.budget.sec_query_count h.sec_query_count,
    law.u32 r.budget.ack_send_count h.ack_send_count,
    law.i64 r.budget.ack_safe_deadline_at_ms h.ack_safe_deadline_at_ms,
    law.u32 r.budget.expiry_freshen_count h.expiry_freshen_count,
    law.text r.budget.budget_exhausted_reason,
    law.text r.budget.chain_id,
    law.i64 r.budget.chain_started_at_ms h.chain_started_at_ms,
    law.i64 r.budget.chain_deadline_at_ms h.chain_deadline_at_ms,
    law.u32 r.budget.chain_request_id_count h.chain_request_id_count,
    law.text r.budget.migration_token,
    law.flag r.budget.migration_consumed,
  )

  evidence_back :
      (r : V2cKeyProvisioningRecord) (kind : ℕ)
      → IsEvidenceInRange r.evidence
      → r.evidence.sec_import_evidence_kind ≡ pos kind
      → kind ≤ 5
      → read_evidence lib (λ key. find_field key (record_fields lib r)) ≡ some r.evidence
  unfolding read_evidence read_invocation record_fields contract_fields budget_fields
      recovery_fields evidence_fields attempt_fields text_eq
  evidence_back r kind h k small =
      simp
        (
          k,
          known_kind_small kind small,
          law.i32 kind (omega arith),
          law.u32 r.evidence.sec_import_result_contract_version
              h.sec_import_result_contract_version,
          law.u64 r.evidence.sec_evidence_observed_store_generation
              h.sec_evidence_observed_store_generation,
          law.i64 r.evidence.sec_evidence_observed_at_ms h.sec_evidence_observed_at_ms,
          law.flag r.evidence.import_invocation,
        )
        (ap (λ z. some (record (r.evidence) { sec_import_evidence_kind = z })) (sym k))

  recovery_back :
      (r : V2cKeyProvisioningRecord) (resolution : ℕ)
      → IsRecoveryInRange r.recovery
      → r.recovery.import_invocation_resolution ≡ pos resolution
      → resolution ≤ 2
      → read_recovery lib (λ key. find_field key (record_fields lib r)) r.evidence.import_invocation
        ≡ some r.recovery
  unfolding read_recovery record_fields contract_fields budget_fields recovery_fields
      evidence_fields attempt_fields text_eq
  recovery_back r resolution h k small =
      simp
        (
          k,
          resolution_of_small resolution r.evidence.import_invocation small,
          law.i32 resolution (omega arith),
          law.u32 r.recovery.sec_not_found_count h.sec_not_found_count,
          law.i64 r.recovery.sec_not_found_first_observed_ms h.sec_not_found_first_observed_ms,
          law.i64 r.recovery.sec_not_found_last_observed_ms h.sec_not_found_last_observed_ms,
          law.u64 r.recovery.sec_capability_epoch h.sec_capability_epoch,
          law.u32 r.recovery.sec_contract_version h.sec_contract_version,
          law.text r.recovery.recovery_phase,
          law.text r.recovery.successor_request_id,
          law.text r.recovery.successor_request_id_digest,
        )
        (ap (λ z. some (record (r.recovery) { import_invocation_resolution = z })) (sym k))

  enums_back :
      (xs : List ℕ)
      → All (λ n. n < 2 ^ 31) xs
      → each lib.to_enum (map (λ n. lib.of_number (pos n)) xs) ≡ some xs
  enums_back xs h =
      each-map (λ n. n < 2 ^ 31) (λ n. lib.of_number (pos n)) lib.to_enum law.enum xs h

  versions_back :
      (xs : List (ℕ × ℕ))
      → All (λ (kv : ℕ × ℕ). (kv.0 < 2 ^ 31) × (kv.1 < 2 ^ 64)) xs
      → read_versions lib (map (of_version lib) xs) ≡ some xs
  unfolding read_versions of_version read_version
  versions_back [] h = refl
  versions_back ((p, v) ∷ xs) h =
      rw
        (
          law.array (lib.of_number (pos p) ∷ lib.of_number (pos v) ∷ []),
          law.enum p h.0.0,
          law.u64 v h.0.1,
          versions_back xs h.1,
        )
        refl

  texts_back : (xs : List Text) → each lib.to_text (map lib.of_text xs) ≡ some xs
  texts_back [] = refl
  texts_back (x ∷ xs) = rw (law.text x, texts_back xs) refl

  snapshot_back :
      (s : KeyprovAttemptSnapshot)
      → IsSnapshotInRange s
      → read_snapshot lib (some (snapshot_to_json lib s)) ≡ some s
  unfolding read_snapshot snapshot_from_json snapshot_to_json snapshot_fields of_enums text_eq
  snapshot_back s h = simp (
    law.object (snapshot_fields lib s),
    law.object_lookup (snapshot_fields lib s),
    law.text s.business_domain,
    law.array (map (λ n. lib.of_number (pos n)) s.purposes),
    enums_back s.purposes h.purposes,
    law.array (map (of_version lib) s.current_versions),
    versions_back s.current_versions h.current_versions,
    law.array (map (λ n. lib.of_number (pos n)) s.wrapping_suites),
    enums_back s.wrapping_suites h.suites,
    law.array (map (λ n. lib.of_number (pos n)) s.envelope_formats),
    enums_back s.envelope_formats h.formats,
    law.text (hex_encode s.device_identity_digest),
    hex_decode-hex_encode s.device_identity_digest h.device,
    law.text (hex_encode s.recipient_certificate_digest),
    hex_decode-hex_encode s.recipient_certificate_digest h.recipient,
    law.text (hex_encode s.certificate_ref_digest),
    hex_decode-hex_encode s.certificate_ref_digest h.certificate,
    law.text (hex_encode s.protocol_lock_digest),
    hex_decode-hex_encode s.protocol_lock_digest h.lock,
  )

  attempt_back :
      (r : V2cKeyProvisioningRecord)
      → IsAttemptInRange r
      → IsSnapshotInRange r.snapshot
      → read_attempt lib (λ key. find_field key (record_fields lib r))
        ≡ some (record r {
          valid = true;
          evidence = empty_record.evidence;
          recovery = empty_record.recovery;
          lifecycle_profile = [];
          budget = empty_ledger;
          lease_expires_at_ms = pos 0;
          contract = empty_record.contract;
          legacy_snapshot_unknown = false;
          purposes = [];
          business_key_versions = [];
        })
  unfolding read_attempt record_fields contract_fields budget_fields recovery_fields evidence_fields
      attempt_fields text_eq
  attempt_back r h k = simp (
    snapshot_back r.snapshot k,
    law.array (map lib.of_text r.terminalized_request_ids),
    texts_back r.terminalized_request_ids,
    law.u32 r.schema_version h.schema_version,
    law.u32 r.fingerprint_version h.fingerprint_version,
    law.text r.attempt_fingerprint,
    law.text r.request_id,
    law.text r.idempotency_digest,
    law.text r.state,
    law.text r.submission,
    law.u32 r.attempt_count h.attempt_count,
    law.i64 r.deadline_ms h.deadline_ms,
    law.text r.last_error,
    law.i64 r.updated_at_ms h.updated_at_ms,
    law.u64 r.cloud_session_generation h.cloud_session_generation,
    law.text r.supersedes_request_id,
    law.text r.superseded_by_request_id,
    law.text r.blocked_reason,
    law.u64 r.store_generation h.store_generation,
  )

  profile_back :
      (r : V2cKeyProvisioningRecord)
      → value_or lib.to_text [] (find_field (codes "lifecycle_profile") (record_fields lib r))
        ≡ some r.lifecycle_profile
  unfolding record_fields contract_fields budget_fields recovery_fields evidence_fields
      attempt_fields text_eq
  profile_back r = law.text r.lifecycle_profile

  lease_back :
      (r : V2cKeyProvisioningRecord)
      → IsI64 r.lease_expires_at_ms
      → value_or lib.to_i64 (pos 0) (find_field (codes "lease_expires_at_ms") (record_fields lib r))
        ≡ some r.lease_expires_at_ms
  unfolding record_fields contract_fields budget_fields recovery_fields evidence_fields
      attempt_fields text_eq
  lease_back r h = law.i64 r.lease_expires_at_ms h

  read_record_back :
      (r : V2cKeyProvisioningRecord)
      → IsStorable r
      → read_record lib (record_to_json lib r)
        ≡ some (record r {
          valid = true;
          legacy_snapshot_unknown = false;
          purposes = [];
          business_key_versions = [];
        })
  unfolding read_record record_to_json
  read_record_back r h =
      rw
        (
          lookup_back (record_fields lib r),
          attempt_back r h.attempt h.snapshot,
          evidence_back r h.kind h.evidence h.kind_is h.kind_known,
          recovery_back r h.resolution h.recovery h.resolution_is h.resolution_known,
          budget_back r h.budget,
          contract_back r h.contract,
          profile_back r,
          lease_back r h.lease,
        )
        refl

  interpret_back : (r : V2cKeyProvisioningRecord) → IsStorable r → interpret (bare r) ≡ r
  unfolding interpret finish_record
  interpret_back r h =
      ap finish_record (
        migrate_record_current _ (omega (arith, h.schema))
        ∙ ap (λ i. record (bare r) { recovery = i })
            (migrate_recovery_current r.schema_version r.recovery (omega (arith, h.schema))))
      ∙ finish_back r h

  load_text_of :
      (text : Text)
      → text ≢ []
      → (r : V2cKeyProvisioningRecord) → lib.parse text ≡ some (record_to_json lib r)
      → IsStorable r
      → load_text lib text ≡ r
  unfolding load_text
  load_text_of [] e r p h = absurd (e refl)
  load_text_of (c ∷ s) e r p h = rw (p, read_record_back r h) (interpret_back r h)

  load_saved :
      (s : Store) (r : V2cKeyProvisioningRecord) (text : Text)
      → s.ready ≡ true
      → IsStorable r
      → lib.dump (record_to_json lib r) ≡ some text
      → load lib (record s { state = some text }) ≡ r
  unfolding load
  load_saved s r text ready h dumped = rw ready (
      load_text_of text (λ e. law.dumped (record_to_json lib r) (dumped ∙ ap some e)) r
        (law.text_back (record_to_json lib r) text dumped) h)

  -- A record that the current version writes is read back exactly, or is not written: with whatever
  -- faithful JSON library and whatever the store held before, saving to a store that is ready passes on
  -- the exception that the library throws on the record's text and stores nothing, where it throws one
  -- (a text that is not UTF-8), and else gives a store from which loading gives the record, with its
  -- budget, its evidence, its recovery and the mirrors of its snapshot. This is for a record of the
  -- current schema with a known fingerprint, a request id, and fields within the widths of their types.
  pub load-save_record :
      (s : Store) (r : V2cKeyProvisioningRecord)
      → s.ready ≡ true
      → IsStorable r
      → ((lib.dump (record_to_json lib r) ≡ none) × (save lib s r ≡ none))
        ⊎ ((after : Store) × (save lib s r ≡ some after) × (load lib after ≡ r))
  unfolding save save_text
  load-save_record s r ready h = elim (Option-cases (lib.dump (record_to_json lib r))) [
    | inl threw ↦ inl (threw, rw (ready, threw) refl)
    | inr (text, dumped) ↦ inr (
      record s { state = some text },
      rw (ready, dumped) refl,
      load_saved s r text ready h dumped,
    )
  ]
