-- ===== src/Tests/KeyStoreTests.antt =====
-- The theorems on the stored record at concrete inputs.
use iov_vehicle_tbox_tsp.Prelude.{
  ◌≡◌, ◌⊎◌, refl, [], ◌∷◌, true, none, some, Text, codes, pos, arith,
}
use iov_vehicle_tbox_tsp.Attempt.Snapshot.{KeyprovAttemptSnapshot}
use iov_vehicle_tbox_tsp.Protocol.Names.{keyprov_purpose_to_string}
use iov_vehicle_tbox_tsp.KeyStore.Record.{
  V2cKeyProvisioningRecord, empty_record, empty_attempt_snapshot,
}
use iov_vehicle_tbox_tsp.KeyStore.Write.{record_to_json}
use iov_vehicle_tbox_tsp.KeyStore.Load.{Store, load, save, load_text}
use iov_vehicle_tbox_tsp.KeyStore.Load.RoundTrip.{IsStorable, load-save_record}
use iov_vehicle_tbox_tsp.KeyStore.Load.Migration.{IsConservative, load_text-IsConservative}
use iov_vehicle_tbox_tsp.Tests.JsonData.{json, json-IsFaithful, join_parts}

abbrev uplink : KeyprovAttemptSnapshot
uplink = record empty_attempt_snapshot {
  business_domain = codes "V2C_COMM";
  purposes = 1 ∷ [];
  current_versions = (1, 7) ∷ [];
  device_identity_digest = 17 ∷ 255 ∷ [];
}

abbrev waiting : V2cKeyProvisioningRecord
waiting = record empty_record {
  valid = true;
  schema_version = 5;
  fingerprint_version = 1;
  attempt_fingerprint = codes "ab";
  request_id = codes "kp-1";
  state = codes "WAIT_RESPONSE";
  snapshot = uplink;
  attempt_count = 2;
  updated_at_ms = pos 1000;
  purposes = codes "UPLINK_AEAD" ∷ [];
  business_key_versions = (codes "UPLINK_AEAD", 7) ∷ [];
}

abbrev empty_store : Store
empty_store = record { ready = true; state = none; legacy = λ key. none }

waiting-IsStorable : IsStorable waiting
unfolding keyprov_purpose_to_string
waiting-IsStorable = record {
  schema = refl;
  fingerprint_version = refl;
  fingerprint = λ e. cc;
  request_id = λ e. cc;
  valid = refl;
  known = refl;
  purposes = refl;
  versions = refl;
  kind = 5;
  kind_is = refl;
  kind_known = omega arith;
  resolution = 0;
  resolution_is = refl;
  resolution_known = omega arith;
  attempt = ground arith;
  snapshot = ground arith;
  evidence = ground arith;
  recovery = ground arith;
  budget = ground arith;
  lease = ground arith;
  contract = ground arith;
}

load-save_record_example :
    ((json.dump (record_to_json json waiting) ≡ none) × (save json empty_store waiting ≡ none))
    ⊎ ((after : Store) × (save json empty_store waiting ≡ some after) × (load json after ≡ waiting))
load-save_record_example =
    load-save_record json json-IsFaithful empty_store waiting refl waiting-IsStorable

-- A document that holds a request id and nothing else.
abbrev old_document : Text
old_document = 0 ∷ join_parts (codes "request_id" ∷ codes "kp-1" ∷ [])

load_text-IsConservative_example :
    (load_text json old_document ≡ empty_record)
    ⊎ ((j : Text) × (json.parse old_document ≡ some j)
        × IsConservative json j (load_text json old_document))
load_text-IsConservative_example = load_text-IsConservative json old_document
