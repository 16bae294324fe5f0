-- ===== src/Protocol/Messages.antt =====
-- The data of the codec: its status and outcomes, and the protobuf messages, by the fields that the
-- codec sets or reads. Their encoding to bytes is generated code.
use iov_vehicle_tbox_tsp.Prelude.{ℕ, ◌*◌, List, [], Bool, Option, Text, codes, ℤ}
use iov_vehicle_tbox_tsp.Gateway.Envelope.{MessageKind}
use iov_vehicle_tbox_tsp.Attempt.Errors.{KeyProvProtocolError}

pub data KeyProvCodecStatus : Type 0 where
  codec_ok envelope_invalid unsupported_payload_type protocol_version_mismatch service_mismatch
        size_exceeded field_invalid internal :
      KeyProvCodecStatus

abbrev pub keyprov_service : Text
keyprov_service = codes "security.keyprov"

abbrev pub keyprov_protocol_version : Text
keyprov_protocol_version = codes "keyprov-v1"

abbrev pub keyprov_payload_request : Text
keyprov_payload_request = codes "security.keyprov.v1.KeyProvisioningRequest"

abbrev pub keyprov_payload_response : Text
keyprov_payload_response = codes "security.keyprov.v1.KeyProvisioningResponse"

abbrev pub keyprov_payload_ack : Text
keyprov_payload_ack = codes "security.keyprov.v1.KeyProvisioningAck"

abbrev pub keyprov_payload_ack_result : Text
keyprov_payload_ack_result = codes "security.keyprov.v1.KeyProvisioningAckResult"

abbrev pub keyprov_payload_status_request : Text
keyprov_payload_status_request = codes "security.keyprov.v1.KeyProvisioningStatusRequest"

abbrev pub keyprov_payload_status_response : Text
keyprov_payload_status_response = codes "security.keyprov.v1.KeyProvisioningStatusResponse"

abbrev pub keyprov_max_payload_bytes : ℕ
keyprov_max_payload_bytes = 16 * 1024

abbrev pub keyprov_max_wrapped_key_bytes : ℕ
keyprov_max_wrapped_key_bytes = 4 * 1024

abbrev pub keyprov_max_parameters_bytes : ℕ
keyprov_max_parameters_bytes = 2 * 1024

abbrev pub keyprov_max_import_proof_bytes : ℕ
keyprov_max_import_proof_bytes = 1024

abbrev pub keyprov_max_string_bytes : ℕ
keyprov_max_string_bytes = 128

abbrev pub keyprov_max_short_string_bytes : ℕ
keyprov_max_short_string_bytes = 64

-- `trace_id` is the field of the trace context, which the codec sets only with a trace id.
pub record VehicleMessageEnvelope : Type 0 where
  pub request_id : Text
  pub timestamp_ms : ℤ
  pub protocol_version : Text
  pub device_id : Text
  pub idempotency_key : Option Text
  pub payload_type : Text
  pub payload : List ℕ
  pub message_id : Text
  pub correlation_id : Option Text
  pub message_kind : MessageKind
  pub service : Text
  pub expire_at_ms : Option ℤ
  pub trace_id : Option Text

pub record KeyProvCertificateRef : Type 0 where
  pub certificate_profile : Text
  pub key_encipherment_key_id : Text

pub record KeyProvRequestData : Type 0 where
  pub request_id : Text
  pub idempotency_key : Text
  pub business_domain : Text
  pub purposes : List ℤ
  pub certificate_ref : KeyProvCertificateRef
  pub supported_wrapping_suites : List ℤ
  pub supported_envelope_formats : List ℤ
  pub current_versions : List (ℤ × ℕ)
  pub timestamp_ms : ℤ
  pub expire_at_ms : ℤ

pub record KeyProvisioningRequest : Type 0 where
  pub request_id : Text
  pub idempotency_key : Text
  pub business_domain : Text
  pub purposes : List ℤ
  pub device_identity_digest : List ℕ
  pub certificate_digest : List ℕ
  pub certificate_ref : KeyProvCertificateRef
  pub supported_wrapping_suites : List ℤ
  pub current_versions : List (ℤ × ℕ)
  pub timestamp_ms : ℤ
  pub expire_at_ms : ℤ
  pub supported_envelope_formats : List ℤ

-- The legacy field `proof_algorithm` is never read.
pub record KeyProvImportItemResult : Type 0 where
  pub purpose : ℤ
  pub key_id : Text
  pub business_key_version : ℕ
  pub result : ℤ
  pub envelope_format : ℤ
  pub envelope_digest : List ℕ
  pub key_check_value : List ℕ
  pub import_proof_algorithm : ℤ
  pub import_proof : List ℕ
  pub recipient_certificate_digest : List ℕ

-- The message has the same fields as the data; an empty field is the default of an unset one.
pub record KeyProvisioningAck : Type 0 where
  pub request_id : Text
  pub items : List KeyProvImportItemResult
  pub timestamp_ms : ℤ

pub record KeyProvisioningStatusRequest : Type 0 where
  pub request_id : Text
  pub timestamp_ms : ℤ

pub record KeyProvEncodeOutcome : Type 0 where
  pub status : KeyProvCodecStatus
  pub envelope_bytes : List ℕ
  pub reason : Text

abbrev pub encode_fail : KeyProvCodecStatus → Text → KeyProvEncodeOutcome
encode_fail status reason = record { status = status; envelope_bytes = []; reason = reason }

-- A wrapped key on the wire.
pub record WrappedKeyMessage : Type 0 where
  pub purpose : ℤ
  pub key_id : Text
  pub business_key_version : ℕ
  pub wrapped_key : List ℕ
  pub key_algorithm : Text
  pub wrapping_suite : ℤ
  pub valid_from_ms : ℤ
  pub valid_to_ms : ℤ
  pub parameters : List ℕ
  pub envelope_digest : List ℕ
  pub key_check_value : List ℕ
  pub envelope_format : ℤ

pub record KeyProvisioningResponse : Type 0 where
  pub request_id : Text
  pub result : ℤ
  pub items : List WrappedKeyMessage
  pub expire_at_ms : ℤ
  pub error : Option KeyProvProtocolError

pub record KeyProvisioningAckResult : Type 0 where
  pub request_id : Text
  pub result : ℤ
  pub occurred_at_ms : ℤ
  pub error : Option KeyProvProtocolError

pub record KeyProvStatusItem : Type 0 where
  pub purpose : ℤ
  pub key_id : Text
  pub business_key_version : ℕ
  pub import_result : ℤ

pub record KeyProvisioningStatusResponse : Type 0 where
  pub request_id : Text
  pub status : ℤ
  pub items : List KeyProvStatusItem
  pub occurred_at_ms : ℤ
  pub error : Option KeyProvProtocolError

-- A wrapped key as it is handed to SEC.
pub record WrappedKeyItem : Type 0 where
  pub purpose : Text
  pub key_id : Text
  pub business_key_version : ℕ
  pub algorithm : Text
  pub valid_from_ms : ℤ
  pub valid_to_ms : ℤ
  pub wrapping_suite : Text
  pub envelope_format : ℤ
  pub envelope_digest : List ℕ
  pub key_check_value : List ℕ
  pub key_check_value_present : Bool
  pub wrapped_key : List ℕ
  pub parameters : List ℕ

pub record KeyProvResponseData : Type 0 where
  pub request_id : Text
  pub result : ℤ
  pub expire_at_ms : ℤ
  pub error : KeyProvProtocolError
  pub items : List WrappedKeyItem

pub record KeyProvAckResultData : Type 0 where
  pub request_id : Text
  pub result : ℤ
  pub occurred_at_ms : ℤ
  pub error : KeyProvProtocolError

pub record KeyProvStatusResponseData : Type 0 where
  pub request_id : Text
  pub status : ℤ
  pub occurred_at_ms : ℤ
  pub error : KeyProvProtocolError
  pub items : List KeyProvStatusItem

-- `kind` and the data of that kind: the two others keep their defaults and are not read.
pub data KeyProvContent : Type 0 where
  unknown : KeyProvContent
  response_data : KeyProvResponseData → KeyProvContent
  ack_result_data : KeyProvAckResultData → KeyProvContent
  status_response_data : KeyProvStatusResponseData → KeyProvContent

pub record KeyProvDecoded : Type 0 where
  pub request_id : Text
  pub message_id : Text
  pub content : KeyProvContent

pub record KeyProvDecodeOutcome : Type 0 where
  pub status : KeyProvCodecStatus
  pub decoded : KeyProvDecoded
  pub reason : Text

abbrev pub nothing_decoded : KeyProvDecoded
nothing_decoded = record { request_id = []; message_id = []; content = unknown }

abbrev pub decode_fail : KeyProvCodecStatus → Text → KeyProvDecodeOutcome
decode_fail status reason = record { status = status; decoded = nothing_decoded; reason = reason }
