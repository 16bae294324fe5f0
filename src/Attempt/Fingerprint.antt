-- ===== src/Attempt/Fingerprint.antt =====
-- `keyprov_compute_attempt_fingerprint_v1` of src/keyprov_attempt.cpp. SHA-256 is the framework's: a
-- parameter.
pub mod Encoding
pub mod Canonicity
pub mod Injectivity
use iov_vehicle_tbox_tsp.Prelude.{
  ℕ, List, [], ◌∷◌, ◌++◌, Bool, not, ◌||◌, Text, codes, text_eq, ltb, ◌==◌, is_empty, length, u32,
  Result, ok, err, if◌then◌else◌,
}
use iov_vehicle_tbox_tsp.Attempt.Canonical.{
  append_u32, append_u64, append_str, sort_dedup_int, sort_dedup_versions,
}
use iov_vehicle_tbox_tsp.Attempt.Snapshot.{KeyprovAttemptSnapshot}

abbrev pub fingerprint_tag_v1 : Text
fingerprint_tag_v1 = codes "TSP-KEYPROV-ATTEMPT-V1"

abbrev pub keyprov_business_domain_v2c : Text
keyprov_business_domain_v2c = codes "V2C_COMM"

abbrev pub keyprov_max_items : ℕ
keyprov_max_items = 8

-- The loops `for (v : set) append_u32(b, v)`.
unfoldable pub append_ints : List ℕ → List ℕ → List ℕ
append_ints b [] = b
append_ints b (x ∷ xs) = append_ints (append_u32 b (u32 x)) xs

unfoldable pub append_versions : List ℕ → List (ℕ × ℕ) → List ℕ
append_versions b [] = b
append_versions b ((purpose, version) ∷ xs) =
    append_versions (append_u64 (append_u32 b (u32 purpose)) version) xs

-- A counted set: its size, then its members.
unfoldable pub append_set : List ℕ → List ℕ → List ℕ
append_set b xs = append_ints (append_u32 b (u32 (length xs))) xs

unfoldable pub append_version_set : List ℕ → List (ℕ × ℕ) → List ℕ
append_version_set b xs = append_versions (append_u32 b (u32 (length xs))) xs

-- The bytes that are hashed.
unfoldable pub fingerprint_input : KeyprovAttemptSnapshot → List ℕ
fingerprint_input s =
    let b = append_str fingerprint_tag_v1 s.business_domain in
    let b = append_set b (sort_dedup_int s.purposes) in
    let b = append_version_set b (sort_dedup_versions s.current_versions) in
    let b = b ++ s.device_identity_digest in
    let b = b ++ s.recipient_certificate_digest in
    let b = append_set b (sort_dedup_int s.wrapping_suites) in
    let b = append_set b (sort_dedup_int s.envelope_formats) in b ++ s.protocol_lock_digest

unfoldable pub keyprov_compute_attempt_fingerprint_v1 :
    (sha256 : List ℕ → List ℕ) → KeyprovAttemptSnapshot → Result (List ℕ)
keyprov_compute_attempt_fingerprint_v1 sha256 s =
    if is_empty s.business_domain || not (text_eq s.business_domain keyprov_business_domain_v2c)
    then err (codes "snapshot_domain_invalid")
    else if is_empty s.purposes || ltb keyprov_max_items (length s.purposes)
    then err (codes "snapshot_purposes_invalid")
    else if not (length s.device_identity_digest == 32)
        || (not (length s.recipient_certificate_digest == 32)
            || not (length s.protocol_lock_digest == 32))
    then err (codes "snapshot_digest_invalid")
    else ok (sha256 (fingerprint_input s))
