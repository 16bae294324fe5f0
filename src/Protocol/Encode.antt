-- ===== src/Protocol/Encode.antt =====
-- The three builders. The generated serialisers are parameters: `none` is their failure.
pub mod Built
pub mod Request
use iov_vehicle_tbox_tsp.Prelude.{
  ℕ, List, [], ◌∷◌, Bool, true, false, not, ◌||◌, Option, none, some, Text, codes, text_eq, ltb,
  ◌==◌, is_empty, length, ℤ, pos, eqb_ℤ, ltb_ℤ, if◌then◌else◌,
}
use iov_vehicle_tbox_tsp.Gateway.Envelope.{request}
use iov_vehicle_tbox_tsp.Attempt.Fingerprint.{keyprov_business_domain_v2c, keyprov_max_items}
use iov_vehicle_tbox_tsp.Protocol.Identity.{
  KeyprovSessionIdentity, keyprov_validate_identity, keyprov_normalize_digest,
}
use iov_vehicle_tbox_tsp.Protocol.Checks.{
  check_request, identity_digests, has_unspecified, check_ack,
}
use iov_vehicle_tbox_tsp.Protocol.Messages.{
  KeyProvCodecStatus, codec_ok, internal, size_exceeded, field_invalid, VehicleMessageEnvelope,
  KeyProvEncodeOutcome, encode_fail, KeyProvRequestData, KeyProvisioningRequest,
  KeyProvImportItemResult, KeyProvisioningAck, KeyProvisioningStatusRequest, keyprov_service,
  keyprov_protocol_version, keyprov_payload_request, keyprov_payload_ack,
  keyprov_payload_status_request, keyprov_max_payload_bytes, keyprov_max_import_proof_bytes,
  keyprov_max_string_bytes, keyprov_max_short_string_bytes,
}

abbrev pub unless_empty : Text → Option Text
unless_empty [] = none
unless_empty (c ∷ s) = some (c ∷ s)

-- The envelope of a request: the common fields and the kind, which all three builders set alike.
unfoldable pub fill_common :
    KeyprovSessionIdentity
    → (request_id message_id correlation_id payload_type trace_id : Text) → ℤ
    → VehicleMessageEnvelope
fill_common identity request_id message_id correlation_id payload_type trace_id timestamp_ms =
    record {
      request_id = request_id;
      timestamp_ms = timestamp_ms;
      protocol_version = keyprov_protocol_version;
      device_id = identity.ecu_uid;
      idempotency_key = none;
      payload_type = payload_type;
      payload = [];
      message_id = message_id;
      correlation_id = unless_empty correlation_id;
      message_kind = request;
      service = keyprov_service;
      expire_at_ms = none;
      trace_id = unless_empty trace_id;
    }

unfoldable pub sized : Option (List ℕ) → KeyProvEncodeOutcome
sized none = encode_fail internal (codes "envelope_serialize_failed")
sized (some bytes) =
    if ltb keyprov_max_payload_bytes (length bytes)
    then encode_fail size_exceeded (codes "envelope_too_large")
    else record { status = codec_ok; envelope_bytes = bytes; reason = [] }

-- The envelope with its payload, if there is one.
unfoldable pub sealed :
    (serialize : VehicleMessageEnvelope → Option (List ℕ))
    → Text
    → VehicleMessageEnvelope
    → Option (List ℕ)
    → KeyProvEncodeOutcome
sealed serialize reason env none = encode_fail internal reason
sealed serialize reason env (some payload) = sized (serialize (record env { payload = payload }))

unfoldable pub request_message :
    KeyProvRequestData → (device certificate : List ℕ) → KeyProvisioningRequest
request_message in_data device certificate = record {
  request_id = in_data.request_id;
  idempotency_key = in_data.idempotency_key;
  business_domain = in_data.business_domain;
  purposes = in_data.purposes;
  device_identity_digest = device;
  certificate_digest = certificate;
  certificate_ref = in_data.certificate_ref;
  supported_wrapping_suites = in_data.supported_wrapping_suites;
  current_versions = in_data.current_versions;
  timestamp_ms = in_data.timestamp_ms;
  expire_at_ms = in_data.expire_at_ms;
  supported_envelope_formats = in_data.supported_envelope_formats;
}

unfoldable pub request_envelope :
    KeyprovSessionIdentity
    → KeyProvRequestData
    → (message_id trace_id : Text) → VehicleMessageEnvelope
request_envelope identity in_data message_id trace_id =
    record (fill_common identity in_data.request_id message_id [] keyprov_payload_request trace_id
      in_data.timestamp_ms) {
        idempotency_key = some in_data.idempotency_key;
        expire_at_ms =
            if ltb_ℤ (pos 0) in_data.expire_at_ms then some in_data.expire_at_ms else none;
      }

-- The rest of a builder runs once a check has passed.
unfoldable pub when_passed :
    Option (KeyProvCodecStatus × Text) → KeyProvEncodeOutcome → KeyProvEncodeOutcome
when_passed none outcome = outcome
when_passed (some (status, reason)) outcome = encode_fail status reason

unfoldable pub when_valid : Option Text → KeyProvEncodeOutcome → KeyProvEncodeOutcome
when_valid none outcome = outcome
when_valid (some reason) outcome = encode_fail field_invalid reason

module _ (serialize_envelope : VehicleMessageEnvelope → Option (List ℕ)) where
  unfoldable pub build_keyprov_request_envelope :
      (KeyProvisioningRequest → Option (List ℕ))
      → KeyprovSessionIdentity
      → KeyProvRequestData
      → (message_id trace_id : Text) → KeyProvEncodeOutcome
  build_keyprov_request_envelope serialize identity in_data message_id trace_id =
      let (reason, (device, certificate)) = identity_digests identity in
      when_valid (keyprov_validate_identity identity) (
        when_passed (check_request in_data) (
          when_valid reason (
            if has_unspecified in_data.purposes
            then encode_fail field_invalid (codes "invalid_purpose")
            else sealed serialize_envelope (codes "request_serialize_failed")
                (request_envelope identity in_data message_id trace_id)
                (serialize (request_message in_data device certificate)))))

  unfoldable pub build_keyprov_ack_envelope :
      (KeyProvisioningAck → Option (List ℕ))
      → KeyprovSessionIdentity
      → Text
      → List KeyProvImportItemResult
      → ℤ
      → (message_id correlation_id : Text) → KeyProvEncodeOutcome
  build_keyprov_ack_envelope serialize identity request_id items timestamp_ms message_id
        correlation_id =
      when_valid (keyprov_validate_identity identity) (
        when_passed (check_ack request_id items) (
          sealed serialize_envelope (codes "ack_serialize_failed")
            (fill_common identity request_id message_id correlation_id keyprov_payload_ack []
              timestamp_ms)
            (serialize
              (record { request_id = request_id; items = items; timestamp_ms = timestamp_ms }))))

  unfoldable pub build_keyprov_status_request_envelope :
      (KeyProvisioningStatusRequest → Option (List ℕ))
      → KeyprovSessionIdentity
      → Text
      → ℤ
      → (message_id trace_id : Text) → KeyProvEncodeOutcome
  build_keyprov_status_request_envelope serialize identity request_id timestamp_ms message_id
        trace_id =
      when_valid (keyprov_validate_identity identity) (
        if is_empty request_id
        then encode_fail field_invalid (codes "status_request_id_missing")
        else sealed serialize_envelope (codes "status_request_serialize_failed")
            (fill_common identity request_id message_id [] keyprov_payload_status_request trace_id
              timestamp_ms)
            (serialize (record { request_id = request_id; timestamp_ms = timestamp_ms })))
