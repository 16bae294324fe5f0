-- ===== src/Protocol/Names.antt =====
-- The names of the protocol's enumerations. An `int` is a signed number: unknown values occur.
use iov_vehicle_tbox_tsp.Prelude.{◌||◌, Text, codes, text_eq, ℤ, pos, negsuc, eqb_ℤ, if◌then◌else◌}

abbrev pub key_purpose_uplink : ℤ
key_purpose_uplink = pos 1

abbrev pub key_purpose_downlink : ℤ
key_purpose_downlink = pos 2

abbrev pub suite_hpke_base_x25519 : ℤ
suite_hpke_base_x25519 = pos 1

abbrev pub suite_ecdh_es_p256 : ℤ
suite_ecdh_es_p256 = pos 2

abbrev pub keyprov_purpose_uplink : Text
keyprov_purpose_uplink = codes "UPLINK_AEAD"

abbrev pub keyprov_purpose_downlink : Text
keyprov_purpose_downlink = codes "DOWNLINK_AEAD"

abbrev pub keyprov_suite_hpke_base_x25519 : Text
keyprov_suite_hpke_base_x25519 = codes "WRAPPING_SUITE_HPKE_BASE_X25519_SHA256_AES128GCM"

abbrev pub keyprov_suite_ecdh_es_p256 : Text
keyprov_suite_ecdh_es_p256 = codes "WRAPPING_SUITE_ECDH_ES_P256_HKDF_SHA256_AES256GCM"

unfoldable pub keyprov_purpose_from_string : Text → ℤ
keyprov_purpose_from_string name =
    if text_eq name keyprov_purpose_uplink
    then key_purpose_uplink
    else if text_eq name keyprov_purpose_downlink
    then key_purpose_downlink
    else pos 0

unfoldable pub keyprov_purpose_to_string : ℤ → Text
keyprov_purpose_to_string purpose =
    if eqb_ℤ purpose key_purpose_uplink
    then keyprov_purpose_uplink
    else if eqb_ℤ purpose key_purpose_downlink
    then keyprov_purpose_downlink
    else codes "UNSPECIFIED"

unfoldable pub keyprov_wrapping_suite_from_string : Text → ℤ
keyprov_wrapping_suite_from_string name =
    if text_eq name keyprov_suite_hpke_base_x25519
    then suite_hpke_base_x25519
    else if text_eq name keyprov_suite_ecdh_es_p256
    then suite_ecdh_es_p256
    else pos 0

unfoldable pub keyprov_wrapping_suite_to_string : ℤ → Text
keyprov_wrapping_suite_to_string suite =
    if eqb_ℤ suite suite_hpke_base_x25519
    then keyprov_suite_hpke_base_x25519
    else if eqb_ℤ suite suite_ecdh_es_p256
    then keyprov_suite_ecdh_es_p256
    else codes "UNSPECIFIED"

unfoldable pub keyprov_envelope_format_from_string : Text → ℤ
keyprov_envelope_format_from_string name =
    if text_eq name (codes "ECDH_ES_P256_V1")
      || text_eq name (codes "KEY_ENVELOPE_FORMAT_ECDH_ES_P256_V1")
    then pos 1
    else if text_eq name (codes "UNSPECIFIED")
        || text_eq name (codes "KEY_ENVELOPE_FORMAT_UNSPECIFIED")
    then pos 0
    else negsuc 0

unfoldable pub keyprov_envelope_format_to_string : ℤ → Text
keyprov_envelope_format_to_string format =
    if eqb_ℤ format (pos 1) then codes "ECDH_ES_P256_V1" else codes "UNSPECIFIED"

unfoldable pub keyprov_import_proof_algorithm_to_string : ℤ → Text
keyprov_import_proof_algorithm_to_string algorithm =
    if eqb_ℤ algorithm (pos 1) then codes "ECDSA_P256_SHA256_P1363" else codes "UNSPECIFIED"

unfoldable pub keyprov_import_result_to_string : ℤ → Text
keyprov_import_result_to_string result =
    if eqb_ℤ result (pos 1)
    then codes "IMPORTED"
    else if eqb_ℤ result (pos 2)
    then codes "FAILED"
    else if eqb_ℤ result (pos 3)
    then codes "UNKNOWN"
    else codes "UNSPECIFIED"
