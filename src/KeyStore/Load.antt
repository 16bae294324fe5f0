-- ===== src/KeyStore/Load.antt =====
-- `load`, `save`, `clear` and `is_ready` over the framework's key-value store, and the migrations of
-- records that older versions wrote.

pub mod RoundTrip
pub mod Migration
use iov_vehicle_tbox_tsp.Prelude.{
  ℕ, ◌-◌, ◌^◌, List, [], ◌∷◌, ◌++◌, map, Bool, true, false, not, ◌&&◌, ◌||◌, Option, none, some,
  ◌>>=◌, Text, codes, text_eq, ltb, ◌==◌, is_empty, u32, ℤ, pos, negsuc, ◌+ℤ◌, eqb_ℤ, if◌then◌else◌,
}
use iov_vehicle_tbox_tsp.Attempt.Snapshot.{KeyprovAttemptSnapshot}
use iov_vehicle_tbox_tsp.Lifecycle.Ledger.{KeyprovBudgetLedger}
use iov_vehicle_tbox_tsp.Protocol.Names.{keyprov_purpose_to_string}
use iov_vehicle_tbox_tsp.Subscription.Store.{stoull}
use iov_vehicle_tbox_tsp.KeyStore.Record.{
  v2c_store_schema_version, recovery_phase_reconcile_evidence, resolution_unresolved,
  ImportRecovery, V2cKeyProvisioningRecord, empty_record,
}
use iov_vehicle_tbox_tsp.KeyStore.Json.{JsonLibrary}
use iov_vehicle_tbox_tsp.KeyStore.Write.{record_to_json}
use iov_vehicle_tbox_tsp.KeyStore.Read.{read_record}

abbrev pub attempt_fingerprint_version_current : ℕ
attempt_fingerprint_version_current = 1

-- The fields of schema 4 are not trusted in a record of an older schema.
unfoldable pub migrate_recovery : ℕ → ImportRecovery → ImportRecovery
migrate_recovery schema i =
    if ltb schema 4
    then record i {
      sec_not_found_count = 0;
      sec_not_found_first_observed_ms = negsuc 0;
      sec_not_found_last_observed_ms = negsuc 0;
      sec_capability_epoch = 0;
      sec_contract_version = 0;
      recovery_phase = recovery_phase_reconcile_evidence;
      successor_request_id = [];
      successor_request_id_digest = [];
    }
    else i

-- The budget of a record without schema 5: requests count as used up, one read-only window is granted.
unfoldable pub migrate_budget : Text → ℤ → KeyprovBudgetLedger → KeyprovBudgetLedger
migrate_budget request_id updated_at_ms l = record l {
  request_send_count = if l.request_send_count == 0 then 8 else l.request_send_count;
  first_request_at_ms = pos 0;
  request_deadline_at_ms = pos 0;
  first_readonly_at_ms =
      if eqb_ℤ l.first_readonly_at_ms (pos 0) then updated_at_ms else l.first_readonly_at_ms;
  readonly_deadline_at_ms =
      if eqb_ℤ l.first_readonly_at_ms (pos 0)
      then updated_at_ms +ℤ pos 300000
      else l.readonly_deadline_at_ms;
  migration_token =
      if is_empty l.migration_token then codes "mig-" ++ request_id else l.migration_token;
  migration_consumed = false;
}

unfoldable pub migrate_record : V2cKeyProvisioningRecord → V2cKeyProvisioningRecord
migrate_record r =
    if ltb r.schema_version 5
    then record r {
      schema_version = v2c_store_schema_version;
      lifecycle_profile = codes "keyprov-lifecycle-kl1-v1";
      budget = migrate_budget r.request_id r.updated_at_ms r.budget;
    }
    else r

-- Versions that are not known, and records without a fingerprint, are not interpreted.
unfoldable pub is_unknown_snapshot : V2cKeyProvisioningRecord → Bool
is_unknown_snapshot r =
    (ltb v2c_store_schema_version r.schema_version
      || ltb attempt_fingerprint_version_current r.fingerprint_version)
    || (r.fingerprint_version == 0 || is_empty r.attempt_fingerprint)

abbrev pub purpose_name : ℕ → Text
purpose_name p = keyprov_purpose_to_string (pos p)

-- The last steps: the guard of the versions, the mirrors of the snapshot, and validity.
unfoldable pub finish_record : V2cKeyProvisioningRecord → V2cKeyProvisioningRecord
finish_record r = record r {
  legacy_snapshot_unknown = is_unknown_snapshot r;
  purposes = map purpose_name r.snapshot.purposes;
  business_key_versions =
      map (λ (kv : ℕ × ℕ). (purpose_name kv.0, kv.1)) r.snapshot.current_versions;
  valid = not (is_empty r.request_id);
}

unfoldable pub interpret : V2cKeyProvisioningRecord → V2cKeyProvisioningRecord
interpret r =
    finish_record
      (migrate_record (record r { recovery = migrate_recovery r.schema_version r.recovery }))

-- The store: the text of the aggregate record, and the texts of the first version's keys.
pub record Store : Type 0 where
  pub ready : Bool
  pub state : Option Text
  pub legacy : Text → Option Text

-- `loadOr`.
abbrev pub load_or : Text → Option Text → Text
load_or default none = default
load_or default (some text) = text

-- `split` at a separator; an empty text has no parts.
unfoldable pub split_after : ℕ → Text → Text → List Text
split_after sep cur [] = cur ∷ []
split_after sep cur (c ∷ s) =
    let done = cur ∷ split_after sep [] s in
    let longer = split_after sep (cur ++ (c ∷ [])) s in if c == sep then done else longer

unfoldable pub split : Text → ℕ → List Text
split [] sep = []
split (c ∷ s) sep = split_after sep [] (c ∷ s)

-- What stands before and after the first separator.
unfoldable pub cut : ℕ → Text → Option (Text × Text)
cut sep [] = none
cut sep (c ∷ s) =
    let rest = cut sep s in
    if c == sep
    then some ([], s)
    else elim rest [ none ↦ none | some (before, after) ↦ some (c ∷ before, after) ]

abbrev pub or_zero : Option ℕ → ℕ
or_zero none = 0
or_zero (some n) = n

-- `purpose=version` parts; a part without `=` is skipped and a version that is no number reads as 0.
unfoldable pub read_pairs : List Text → List (Text × ℕ)
read_pairs [] = []
read_pairs (part ∷ parts) = elim (cut b'=' part) [
  | none ↦ read_pairs parts
  | some (name, version) ↦ (name, or_zero (stoull version)) ∷ read_pairs parts
]

-- `std::stoll` on a decimal text with an optional minus sign: `none` is its exception.
unfoldable pub stoll : Text → Option ℤ
stoll [] = none
stoll (c ∷ s) =
    if c == b'-'
    then elim (stoull s) [
      | none ↦ none
      | some n ↦
          if n == 0 then some (pos 0) else if ltb (2 ^ 63) n then none else some (negsuc (n - 1))
    ]
    else elim (stoull (c ∷ s)) [
      | none ↦ none
      | some n ↦ if ltb n (2 ^ 63) then some (pos n) else none
    ]

-- The record of the first version: its facts are kept, its snapshot is unknown.
unfoldable pub load_legacy : (Text → Option Text) → Option V2cKeyProvisioningRecord
load_legacy get = do
  let key = λ (name : Text) (default : Text). load_or default (get (codes "keyprov.v2c." ++ name))
  let request_id = key (codes "request_id") []
  let valid = text_eq (key (codes "present") (codes "0")) (codes "1") && not (is_empty request_id)
  attempt ← stoull (key (codes "attempt_count") (codes "0"))
  deadline ← stoll (key (codes "deadline_ms") (codes "0"))
  updated ← stoll (key (codes "updated_at_ms") (codes "0"))
  cloud ← stoull (key (codes "cloud_session_generation") (codes "0"))
  some (record empty_record {
    valid = valid;
    request_id = request_id;
    idempotency_digest = key (codes "idempotency_digest") [];
    state = key (codes "state") [];
    purposes = split (key (codes "purposes") []) b',';
    business_key_versions = read_pairs (split (key (codes "business_key_versions") []) b',');
    attempt_count = u32 attempt;
    deadline_ms = deadline;
    last_error = key (codes "last_error") [];
    updated_at_ms = updated;
    cloud_session_generation = cloud;
    legacy_snapshot_unknown = valid;
  })

-- What an exception leaves.
abbrev pub or_empty_record : Option V2cKeyProvisioningRecord → V2cKeyProvisioningRecord
or_empty_record none = empty_record
or_empty_record (some r) = r

module _ (lib : JsonLibrary) where
  unfoldable pub load_text : Text → V2cKeyProvisioningRecord
  load_text [] = empty_record
  load_text (c ∷ s) =
      or_empty_record (do j ← lib.parse (c ∷ s); r ← read_record lib j; some (interpret r))

  unfoldable pub load : Store → V2cKeyProvisioningRecord
  load s =
      if s.ready
      then elim s.state [
        | some text ↦ load_text text
        | none ↦ elim (s.legacy (codes "keyprov.v2c.present")) [
          | none ↦ empty_record
          | some _ ↦ or_empty_record (load_legacy s.legacy)
        ]
      ]
      else empty_record

  -- `none` is an exception of `dump`, which `save` passes on before it writes.
  unfoldable pub save_text : Store → Option Text → Option Store
  save_text s none = none
  save_text s (some text) = some (record s { state = some text })

  unfoldable pub save : Store → V2cKeyProvisioningRecord → Option Store
  save s r = if s.ready then save_text s (lib.dump (record_to_json lib r)) else some s

unfoldable pub clear : Store → Store
clear s = if s.ready then record s { state = none; legacy = λ key. none } else s

unfoldable pub is_ready : Store → Bool
is_ready s = s.ready
