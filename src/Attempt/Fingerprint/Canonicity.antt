-- ===== src/Attempt/Fingerprint/Canonicity.antt =====
-- The fingerprint does not see the order of a set's members, nor repetitions.
use iov_vehicle_tbox_tsp.Prelude.{ℕ, List, ◌≡◌, ap, ok, arith}
use iov_vehicle_tbox_tsp.Attempt.Canonical.Sets.{contains, sort_dedup_canonical}
use iov_vehicle_tbox_tsp.Attempt.Snapshot.{KeyprovAttemptSnapshot}
use iov_vehicle_tbox_tsp.Attempt.Fingerprint.{
  fingerprint_input, keyprov_compute_attempt_fingerprint_v1,
}

-- Snapshots that differ at most in the order and repetition of purposes, suites and formats.
pub record SameSets (s t : KeyprovAttemptSnapshot) : Type 0 where
  pub domain : s.business_domain ≡ t.business_domain
  pub purposes : (a : ℕ) → contains s.purposes a ≡ contains t.purposes a
  pub versions : s.current_versions ≡ t.current_versions
  pub identity : s.device_identity_digest ≡ t.device_identity_digest
  pub certificate : s.recipient_certificate_digest ≡ t.recipient_certificate_digest
  pub suites : (a : ℕ) → contains s.wrapping_suites a ≡ contains t.wrapping_suites a
  pub formats : (a : ℕ) → contains s.envelope_formats a ≡ contains t.envelope_formats a
  pub lock : s.protocol_lock_digest ≡ t.protocol_lock_digest

input_of_sets :
    (s t : KeyprovAttemptSnapshot) → SameSets s t → fingerprint_input s ≡ fingerprint_input t
unfolding fingerprint_input
input_of_sets s t h = rw (
  h.domain,
  sort_dedup_canonical s.purposes t.purposes h.purposes,
  h.versions,
  h.identity,
  h.certificate,
  sort_dedup_canonical s.wrapping_suites t.wrapping_suites h.suites,
  sort_dedup_canonical s.envelope_formats t.envelope_formats h.formats,
  h.lock,
)

-- Whatever the hash function, two accepted snapshots that differ only in the order and repetition of
-- purposes, suites and formats have the same fingerprint.
pub fingerprint_of_sets :
    (sha256 : List ℕ → List ℕ) (s t : KeyprovAttemptSnapshot) {f g : List ℕ}
    → SameSets s t
    → keyprov_compute_attempt_fingerprint_v1 sha256 s ≡ ok f
    → keyprov_compute_attempt_fingerprint_v1 sha256 t ≡ ok g
    → f ≡ g
unfolding keyprov_compute_attempt_fingerprint_v1
fingerprint_of_sets sha256 s t h hs ht = ground (arith, ap sha256 (input_of_sets s t h))
