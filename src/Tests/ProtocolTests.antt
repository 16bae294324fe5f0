-- ===== src/Tests/ProtocolTests.antt =====
-- The codec theorems at concrete inputs, with serialisers and parsers of one byte.
use iov_vehicle_tbox_tsp.Prelude.{
  ℕ, zero, suc, ◌≡◌, ◌≢◌, ◌≤◌, ◌↔◌, refl, List, [], ◌∷◌, none, some, Option, codes, length, pos,
  All, text_eq, after_prefix,
}
use iov_vehicle_tbox_tsp.Gateway.Envelope.{response}
use iov_vehicle_tbox_tsp.Protocol.Identity.{
  KeyprovSessionIdentity, all_uid_chars, keyprov_is_canonical_uid, keyprov_validate_identity,
  all_xdigits, nib, hex_bytes, digest_of, digest_behind, keyprov_normalize_digest,
}
use iov_vehicle_tbox_tsp.Protocol.Messages.{
  codec_ok, VehicleMessageEnvelope, KeyProvRequestData, KeyProvImportItemResult, KeyProvisioningAck,
  keyprov_service, keyprov_protocol_version, keyprov_payload_ack_result, keyprov_payload_ack,
}
use iov_vehicle_tbox_tsp.Protocol.Checks.{
  check_formats, has_unspecified, check_request, identity_digests,
}
use iov_vehicle_tbox_tsp.Protocol.Encode.{
  fill_common, sized, sealed, when_passed, when_valid, build_keyprov_request_envelope,
  build_keyprov_ack_envelope,
}
use iov_vehicle_tbox_tsp.Protocol.Encode.Built.{IsComplete, IsAttested, Seals, ack_built_iff}
use iov_vehicle_tbox_tsp.Protocol.Encode.Request.{IsFromIdentity, request-IsFromIdentity}
use iov_vehicle_tbox_tsp.Protocol.Decode.{Parsers, decode_keyprov_envelope}
use iov_vehicle_tbox_tsp.Protocol.Decode.Accepted.{Judged, IsAccepted, decode_or_nothing}

abbrev ack_result_envelope : VehicleMessageEnvelope
ack_result_envelope = record {
  request_id = codes "kp-1";
  timestamp_ms = pos 1000;
  protocol_version = keyprov_protocol_version;
  device_id = codes "ECU-1";
  idempotency_key = none;
  payload_type = keyprov_payload_ack_result;
  payload = 7 ∷ [];
  message_id = codes "m-2";
  correlation_id = some (codes "m-1");
  message_kind = response;
  service = keyprov_service;
  expire_at_ms = none;
  trace_id = none;
}

abbrev parsers : Parsers
parsers = record {
  envelope = λ bytes. some ack_result_envelope;
  response = λ bytes. none;
  ack_result = λ bytes. some (record {
    request_id = codes "kp-1";
    result = pos 1;
    occurred_at_ms = pos 2000;
    error = none;
  });
  status_response = λ bytes. none;
}

decode_or_nothing_example :
    Judged
      (IsAccepted parsers (codes "ecdh") (pos 1) (9 ∷ []))
      (decode_keyprov_envelope parsers (codes "ecdh") (pos 1) (9 ∷ []))
decode_or_nothing_example = decode_or_nothing parsers (codes "ecdh") (pos 1) (9 ∷ [])

abbrev identity : KeyprovSessionIdentity
identity = record {
  ecu_uid = codes "ECU-1";
  device_identity_digest = codes "sha256:0a1b";
  certificate_ref = codes "sha256:ff";
  session = record {
    daemon_epoch = codes "e1";
    connection_generation = 3;
    cert_session_generation = 4;
  };
}

abbrev one_byte {ℓ} : {A : Type ℓ} → A → Option (List ℕ)
one_byte message = some (1 ∷ [])

abbrev zeros : ℕ → List ℕ
zeros zero = []
zeros (suc n) = 0 ∷ zeros n

abbrev attested : List KeyProvImportItemResult
attested =
    record {
      purpose = pos 1;
      key_id = codes "k1";
      business_key_version = 8;
      result = pos 1;
      envelope_format = pos 1;
      envelope_digest = zeros 32;
      key_check_value = zeros 3;
      import_proof_algorithm = pos 1;
      import_proof = zeros 64;
      recipient_certificate_digest = zeros 32;
    }
    ∷ []

ack_built_iff_example :
    ((build_keyprov_ack_envelope one_byte one_byte identity
        (codes "kp-1")
        attested
        (pos 1000)
        (codes "m-1")
        []).status
      ≡ codec_ok)
    ↔ (IsComplete identity
        × ((codes "kp-1" ≢ []) × (length attested ≤ 8) × All IsAttested attested)
        × Seals one_byte
            (fill_common identity (codes "kp-1") (codes "m-1") [] keyprov_payload_ack [] (pos 1000))
            (one_byte {A = KeyProvisioningAck}
              (record { request_id = codes "kp-1"; items = attested; timestamp_ms = pos 1000 })))
ack_built_iff_example =
    ack_built_iff one_byte one_byte identity (codes "kp-1") attested (pos 1000) (codes "m-1") []

abbrev request_data : KeyProvRequestData
request_data = record {
  request_id = codes "kp-1";
  idempotency_key = codes "id-1";
  business_domain = codes "V2C_COMM";
  purposes = pos 1 ∷ pos 2 ∷ [];
  certificate_ref = record { certificate_profile = codes "mqtt"; key_encipherment_key_id = [] };
  supported_wrapping_suites = pos 2 ∷ [];
  supported_envelope_formats = pos 1 ∷ [];
  current_versions = [];
  timestamp_ms = pos 1000;
  expire_at_ms = pos 12000;
}

request_built :
    (build_keyprov_request_envelope one_byte one_byte identity request_data (codes "m-1") []).status
    ≡ codec_ok
unfolding build_keyprov_request_envelope when_valid when_passed keyprov_validate_identity
    keyprov_is_canonical_uid all_uid_chars check_request check_formats has_unspecified
    identity_digests keyprov_normalize_digest digest_behind digest_of all_xdigits hex_bytes nib
    sealed sized text_eq after_prefix
request_built = refl

request-IsFromIdentity_example :
    IsFromIdentity one_byte one_byte identity request_data (codes "m-1") []
request-IsFromIdentity_example =
    request-IsFromIdentity one_byte one_byte identity request_data (codes "m-1") [] request_built
