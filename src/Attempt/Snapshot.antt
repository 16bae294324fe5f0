-- ===== src/Attempt/Snapshot.antt =====
-- `KeyprovAttemptSnapshot` and the change dimensions of include/keyprov_attempt.h and
-- src/keyprov_attempt.cpp.
pub mod Changes
use iov_vehicle_tbox_tsp.Prelude.{
  ℕ, List, [], ◌∷◌, Bool, true, false, not, ◌&&◌, ◌||◌, Text, text_eq, ◌==◌, if◌then◌else◌,
}

pub record KeyprovAttemptSnapshot : Type 0 where
  pub business_domain : Text
  pub purposes : List ℕ
  pub current_versions : List (ℕ × ℕ)
  pub device_identity_digest : List ℕ
  pub recipient_certificate_digest : List ℕ
  pub certificate_ref_digest : List ℕ
  pub wrapping_suites : List ℕ
  pub envelope_formats : List ℕ
  pub protocol_lock_digest : List ℕ

pub data AttemptChangeDimension : Type 0 where
  no_change purposes_change versions_change identity_change : AttemptChangeDimension
  certificate_change suite_format_change lock_change unknown_change : AttemptChangeDimension

-- `==` of vectors of pairs.
unfoldable pub versions_eq : List (ℕ × ℕ) → List (ℕ × ℕ) → Bool
versions_eq [] [] = true
versions_eq ((a, v) ∷ xs) ((b, w) ∷ ys) = (a == b && v == w) && versions_eq xs ys
versions_eq [] (y ∷ ys) = false
versions_eq (x ∷ xs) [] = false

unfoldable pub keyprov_attempt_change_dimension :
    KeyprovAttemptSnapshot → KeyprovAttemptSnapshot → AttemptChangeDimension
keyprov_attempt_change_dimension frozen candidate =
    if not (text_eq frozen.business_domain candidate.business_domain)
      || not (text_eq frozen.purposes candidate.purposes)
    then purposes_change
    else if not (versions_eq frozen.current_versions candidate.current_versions)
    then versions_change
    else if not (text_eq frozen.device_identity_digest candidate.device_identity_digest)
    then identity_change
    else if not (text_eq frozen.recipient_certificate_digest candidate.recipient_certificate_digest)
        || not (text_eq frozen.certificate_ref_digest candidate.certificate_ref_digest)
    then certificate_change
    else if not (text_eq frozen.wrapping_suites candidate.wrapping_suites)
        || not (text_eq frozen.envelope_formats candidate.envelope_formats)
    then suite_format_change
    else if not (text_eq frozen.protocol_lock_digest candidate.protocol_lock_digest)
    then lock_change
    else no_change
