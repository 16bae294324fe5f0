-- ===== src/Tests/AttemptTests.antt =====
-- The attempt theorems at concrete inputs; the identity stands for SHA-256.
use iov_vehicle_tbox_tsp.Prelude.{
  ℕ, ◌≡◌, ◌≢◌, ◌⊎◌, refl, inl, true, false, List, [], ◌∷◌, ok, arith, codes, text_eq, pos,
}
use iov_vehicle_tbox_tsp.Attempt.Canonical.{
  be_bytes, append_u32, append_u64, append_bytes, append_str, insert, sort, unique, unique_after,
  sort_dedup_int, insert_version, sort_versions, merge_versions, dedup_versions,
  sort_dedup_versions,
}
use iov_vehicle_tbox_tsp.Attempt.Canonical.Sets.{contains, sort_dedup_canonical}
use iov_vehicle_tbox_tsp.Attempt.Snapshot.{KeyprovAttemptSnapshot}
use iov_vehicle_tbox_tsp.Attempt.Fingerprint.{
  fingerprint_input, keyprov_compute_attempt_fingerprint_v1,
}
use iov_vehicle_tbox_tsp.Attempt.Fingerprint.Injectivity.{
  IsInRange, SameContent, fingerprint-SameContent,
}
use iov_vehicle_tbox_tsp.Attempt.Fingerprint.Canonicity.{SameSets, fingerprint_of_sets}
use iov_vehicle_tbox_tsp.Attempt.Errors.{KeyProvProtocolError, keyprov_normalize_protocol_error}
use iov_vehicle_tbox_tsp.Lifecycle.Decide.{KeyprovLifecycleInput, releasable_unspecified}
use iov_vehicle_tbox_tsp.Tests.Data.{fresh_response}
use iov_vehicle_tbox_tsp.Attempt.Errors.Release.{releasable_iff}

abbrev digest : List ℕ
digest =
    1 ∷ 2 ∷ 3 ∷ 4 ∷ 5 ∷ 6 ∷ 7 ∷ 8 ∷ 9 ∷ 10 ∷ 11 ∷ 12 ∷ 13 ∷ 14 ∷ 15 ∷ 16 ∷ 17 ∷ 18 ∷ 19 ∷ 20 ∷ 21
    ∷ 22 ∷ 23 ∷ 24 ∷ 25 ∷ 26 ∷ 27 ∷ 28 ∷ 29 ∷ 30 ∷ 31 ∷ 32 ∷ []

abbrev uplink_first : KeyprovAttemptSnapshot
uplink_first = record {
  business_domain = codes "V2C_COMM";
  purposes = 1 ∷ 2 ∷ [];
  current_versions = (1, 7) ∷ (2, 5) ∷ [];
  device_identity_digest = digest;
  recipient_certificate_digest = digest;
  certificate_ref_digest = digest;
  wrapping_suites = 2 ∷ [];
  envelope_formats = 1 ∷ [];
  protocol_lock_digest = digest;
}

abbrev downlink_first : KeyprovAttemptSnapshot
downlink_first = record uplink_first { purposes = 2 ∷ 1 ∷ 2 ∷ [] }

abbrev identity : List ℕ → List ℕ
identity bytes = bytes

accepts :
    keyprov_compute_attempt_fingerprint_v1 identity uplink_first
    ≡ ok (fingerprint_input uplink_first)
unfolding keyprov_compute_attempt_fingerprint_v1 text_eq
accepts = refl

accepts_other :
    keyprov_compute_attempt_fingerprint_v1 identity downlink_first
    ≡ ok (fingerprint_input downlink_first)
unfolding keyprov_compute_attempt_fingerprint_v1 text_eq
accepts_other = refl

same_sets : SameSets uplink_first downlink_first
unfolding contains
same_sets = record {
  domain = refl;
  purposes = λ a. ground arith;
  versions = refl;
  identity = refl;
  certificate = refl;
  suites = λ a. refl;
  formats = λ a. refl;
  lock = refl;
}

fingerprint_of_sets_example : fingerprint_input uplink_first ≡ fingerprint_input downlink_first
fingerprint_of_sets_example =
    fingerprint_of_sets identity uplink_first downlink_first same_sets accepts accepts_other

range_first : IsInRange uplink_first
range_first = record {
  purposes = omega arith;
  versions = omega arith;
  suites = omega arith;
  formats = omega arith;
  purposes_count = omega arith;
  versions_count = omega arith;
  suites_count = omega arith;
  formats_count = omega arith;
}

range_other : IsInRange downlink_first
range_other = record {
  purposes = omega arith;
  versions = omega arith;
  suites = omega arith;
  formats = omega arith;
  purposes_count = omega arith;
  versions_count = omega arith;
  suites_count = omega arith;
  formats_count = omega arith;
}

fingerprint-SameContent_example :
    SameContent uplink_first downlink_first
    ⊎ (fingerprint_input uplink_first ≢ fingerprint_input downlink_first)
      × (fingerprint_input uplink_first ≡ fingerprint_input downlink_first)
unfolding fingerprint_input
fingerprint-SameContent_example =
    fingerprint-SameContent identity uplink_first downlink_first (fingerprint_input downlink_first)
      range_first range_other
      (unfold keyprov_compute_attempt_fingerprint_v1 text_eq append_str append_bytes append_u64
          append_u32 be_bytes sort_dedup_int sort insert unique unique_after sort_dedup_versions
          sort_versions insert_version dedup_versions merge_versions in
        refl)
      accepts_other

sort_dedup_canonical_example : sort_dedup_int (2 ∷ 1 ∷ 2 ∷ []) ≡ sort_dedup_int (1 ∷ 2 ∷ [])
unfolding contains
sort_dedup_canonical_example =
    sort_dedup_canonical (2 ∷ 1 ∷ 2 ∷ []) (1 ∷ 2 ∷ []) (λ a. ground arith)

abbrev not_found : KeyProvProtocolError
not_found = record {
  code = codes "KEYPROV_PROVISIONING_NOT_FOUND";
  retryable = false;
  action = codes "DO_NOT_RETRY";
  message = [];
}

abbrev conflict : KeyProvProtocolError
conflict = record not_found { code = codes "806095" }

-- The cloud answers UNSPECIFIED with the error that the wire carried.
abbrev answered : KeyProvProtocolError → KeyprovLifecycleInput
answered wire = record fresh_response {
  cloud_status = pos 0;
  cloud_error = keyprov_normalize_protocol_error wire;
}

releasable_iff_example : releasable_unspecified (answered not_found) ≡ true
releasable_iff_example =
    (releasable_iff (answered not_found) not_found refl).1
      (refl, record { code = inl refl; final = refl; action = refl })
