-- ===== src/Protocol/Checks.antt =====
-- The checks of the builders on their inputs, each with the status and the reason of its failure.
use iov_vehicle_tbox_tsp.Prelude.{
  ℕ, List, [], ◌∷◌, Bool, true, false, not, ◌||◌, Option, none, some, Text, codes, text_eq, ltb,
  ◌==◌, is_empty, length, ℤ, pos, eqb_ℤ, if◌then◌else◌,
}
use iov_vehicle_tbox_tsp.Attempt.Fingerprint.{keyprov_business_domain_v2c, keyprov_max_items}
use iov_vehicle_tbox_tsp.Protocol.Identity.{KeyprovSessionIdentity, keyprov_normalize_digest}
use iov_vehicle_tbox_tsp.Protocol.Messages.{
  KeyProvCodecStatus, size_exceeded, field_invalid, KeyProvRequestData, KeyProvImportItemResult,
  keyprov_max_import_proof_bytes, keyprov_max_string_bytes, keyprov_max_short_string_bytes,
}

abbrev pub str_within : Text → ℕ → Bool
str_within s limit = not (ltb limit (length s))

-- The loop over the declared formats; `none` if it ends with a supported one declared.
unfoldable pub check_formats : Bool → List ℤ → Option Text
check_formats declared [] = if declared then none else some (codes "envelope_format_missing")
check_formats declared (f ∷ formats) =
    let rest = check_formats true formats in
    if eqb_ℤ f (pos 1)
    then rest
    else if eqb_ℤ f (pos 0)
    then some (codes "envelope_format_unspecified")
    else some (codes "envelope_format_unknown")

unfoldable pub has_unspecified : List ℤ → Bool
has_unspecified [] = false
has_unspecified (p ∷ purposes) = eqb_ℤ p (pos 0) || has_unspecified purposes

abbrev pub invalid_field : Option Text → Option (KeyProvCodecStatus × Text)
invalid_field none = none
invalid_field (some reason) = some (field_invalid, reason)

-- The checks of a request, without those of the identity and its digests.
unfoldable pub check_request : KeyProvRequestData → Option (KeyProvCodecStatus × Text)
check_request in_data =
    if not (str_within in_data.request_id keyprov_max_string_bytes)
      || (not (str_within in_data.idempotency_key keyprov_max_string_bytes)
          || not (str_within in_data.business_domain keyprov_max_short_string_bytes))
    then some (field_invalid, codes "request_field_too_large")
    else if is_empty in_data.request_id
        || (is_empty in_data.idempotency_key || is_empty in_data.business_domain)
    then some (field_invalid, codes "request_field_missing")
    else if not (text_eq in_data.business_domain keyprov_business_domain_v2c)
    then some (field_invalid, codes "business_domain_invalid")
    else if ltb keyprov_max_items (length in_data.purposes)
        || (ltb keyprov_max_items (length in_data.supported_wrapping_suites)
            || (ltb keyprov_max_items (length in_data.supported_envelope_formats)
                || ltb keyprov_max_items (length in_data.current_versions)))
    then some (size_exceeded, codes "request_items_too_many")
    else invalid_field (check_formats false in_data.supported_envelope_formats)

-- The digests of the identity, both of them from the one identity that is passed.
unfoldable pub identity_digests : KeyprovSessionIdentity → Option Text × (List ℕ × List ℕ)
identity_digests identity =
    let device = keyprov_normalize_digest identity.device_identity_digest in
    let certificate = keyprov_normalize_digest identity.certificate_ref in
    let reason =
      if not device.0 || is_empty device.1
      then some (codes "identity_digest_invalid")
      else if not certificate.0 || is_empty certificate.1
      then some (codes "identity_certificate_ref_invalid")
      else none in
    (reason, (device.1, certificate.1))

-- The check of one item of an ACK.
unfoldable pub check_ack_item : KeyProvImportItemResult → Option (KeyProvCodecStatus × Text)
check_ack_item it =
    if not (str_within it.key_id keyprov_max_string_bytes)
      || ltb keyprov_max_import_proof_bytes (length it.import_proof)
    then some (size_exceeded, codes "ack_item_too_large")
    else if eqb_ℤ it.envelope_format (pos 1)
    then (if not (eqb_ℤ it.import_proof_algorithm (pos 1))
          || (not (length it.import_proof == 64)
              || (not (length it.recipient_certificate_digest == 32)
                  || (not (length it.envelope_digest == 32)
                      || not (length it.key_check_value == 3))))
        then some (field_invalid, codes "ack_attestation_invalid")
        else none)
    else if eqb_ℤ it.envelope_format (pos 0)
    then some (field_invalid, codes "ack_envelope_format_unspecified")
    else some (field_invalid, codes "ack_envelope_format_unknown")

-- The first item that fails ends the loop.
abbrev pub first_failure {ℓ} : {A : Type ℓ} → Option A → Option A → Option A
first_failure none rest = rest
first_failure (some failure) rest = some failure

unfoldable pub check_ack_items : List KeyProvImportItemResult → Option (KeyProvCodecStatus × Text)
check_ack_items [] = none
check_ack_items (it ∷ items) = first_failure (check_ack_item it) (check_ack_items items)

unfoldable pub check_ack : Text → List KeyProvImportItemResult → Option (KeyProvCodecStatus × Text)
check_ack request_id items =
    if is_empty request_id
    then some (field_invalid, codes "ack_request_id_missing")
    else if ltb keyprov_max_items (length items)
    then some (size_exceeded, codes "ack_items_too_many")
    else check_ack_items items
