-- ===== src/Protocol/Decode.antt =====
-- `decode_keyprov_envelope`. The generated parsers are parameters: `none` is a failed parse. SEC's
-- names of the one suite and the one format that TSP hands on are parameters too.
pub mod Accepted
use iov_vehicle_tbox_tsp.Prelude.{
  ℕ, ◌⊎◌, inl, inr, List, [], ◌∷◌, Bool, true, not, ◌||◌, Option, none, some, Text, codes, text_eq,
  ltb, ◌==◌, length, ℤ, pos, eqb_ℤ, if◌then◌else◌,
}
use iov_vehicle_tbox_tsp.Gateway.Envelope.{is_response}
use iov_vehicle_tbox_tsp.Attempt.Errors.{KeyProvProtocolError, no_wire_error}
use iov_vehicle_tbox_tsp.Attempt.Fingerprint.{keyprov_max_items}
use iov_vehicle_tbox_tsp.Protocol.Names.{
  keyprov_purpose_to_string, keyprov_wrapping_suite_from_string, keyprov_suite_ecdh_es_p256,
}
use iov_vehicle_tbox_tsp.Protocol.Messages.{
  KeyProvCodecStatus, codec_ok, envelope_invalid, unsupported_payload_type,
  protocol_version_mismatch, service_mismatch, size_exceeded, field_invalid, VehicleMessageEnvelope,
  WrappedKeyMessage, WrappedKeyItem, KeyProvisioningResponse, KeyProvisioningAckResult,
  KeyProvisioningStatusResponse, KeyProvStatusItem, KeyProvContent, response_data, ack_result_data,
  status_response_data, KeyProvDecodeOutcome, decode_fail, keyprov_service,
  keyprov_protocol_version, keyprov_payload_response, keyprov_payload_ack_result,
  keyprov_payload_status_response, keyprov_max_payload_bytes, keyprov_max_wrapped_key_bytes,
  keyprov_max_parameters_bytes, keyprov_max_string_bytes, keyprov_max_short_string_bytes,
}
use iov_vehicle_tbox_tsp.Protocol.Checks.{str_within}

-- `fill_error` behind `has_error`: without an error the default stays.
unfoldable pub fill_error : Option KeyProvProtocolError → KeyProvProtocolError
fill_error none = no_wire_error
fill_error (some error) = error

unfoldable pub check_wrapped_item : WrappedKeyMessage → Option (KeyProvCodecStatus × Text)
check_wrapped_item it =
    if ltb keyprov_max_wrapped_key_bytes (length it.wrapped_key)
      || ltb keyprov_max_parameters_bytes (length it.parameters)
    then some (size_exceeded, codes "wrapped_item_too_large")
    else if not (str_within it.key_id keyprov_max_string_bytes)
        || not (str_within it.key_algorithm keyprov_max_short_string_bytes)
    then some (field_invalid, codes "wrapped_item_field_invalid")
    else if not (eqb_ℤ it.envelope_format (pos 1))
    then some (field_invalid, codes "wrapped_envelope_format_unsupported")
    else if not
        (eqb_ℤ it.wrapping_suite (keyprov_wrapping_suite_from_string keyprov_suite_ecdh_es_p256))
    then some (field_invalid, codes "wrapped_suite_unsupported")
    else if not (length it.envelope_digest == 32) || not (length it.key_check_value == 3)
    then some (field_invalid, codes "wrapped_digest_or_kcv_invalid")
    else none

-- One round: a failed check ends the loop, else the converted item comes before the rest.
unfoldable pub add_item {ℓ} :
    {B : Type ℓ}
    → Option (KeyProvCodecStatus × Text)
    → B
    → (KeyProvCodecStatus × Text) ⊎ List B
    → (KeyProvCodecStatus × Text) ⊎ List B
add_item (some failure) item rest = inl failure
add_item none item (inl failure) = inl failure
add_item none item (inr rest) = inr (item ∷ rest)

unfoldable pub each_item {ℓ κ} :
    {A : Type ℓ} {B : Type κ}
    → (A → Option (KeyProvCodecStatus × Text))
    → (A → B)
    → List A
    → (KeyProvCodecStatus × Text) ⊎ List B
each_item check convert [] = inr []
each_item check convert (it ∷ items) =
    add_item (check it) (convert it) (each_item check convert items)

unfoldable pub check_status_item : KeyProvStatusItem → Option (KeyProvCodecStatus × Text)
check_status_item it =
    if str_within it.key_id keyprov_max_string_bytes
    then none
    else some (field_invalid, codes "status_item_field_invalid")

abbrev pub decoded_ok : Text → Text → KeyProvContent → KeyProvDecodeOutcome
decoded_ok request_id message_id content = record {
  status = codec_ok;
  decoded = record { request_id = request_id; message_id = message_id; content = content };
  reason = [];
}

-- What the loop over the items gives, or its failure.
unfoldable pub with_items {ℓ} :
    {B : Type ℓ}
    → (KeyProvCodecStatus × Text) ⊎ List B
    → (List B → KeyProvDecodeOutcome)
    → KeyProvDecodeOutcome
with_items (inl failure) rest = decode_fail failure.0 failure.1
with_items (inr items) rest = rest items

module _ (sec_suite : Text) (sec_format : ℤ) where
  unfoldable pub hand_on : WrappedKeyMessage → WrappedKeyItem
  hand_on it = record {
    purpose = keyprov_purpose_to_string it.purpose;
    key_id = it.key_id;
    business_key_version = it.business_key_version;
    algorithm = it.key_algorithm;
    valid_from_ms = it.valid_from_ms;
    valid_to_ms = it.valid_to_ms;
    wrapping_suite = sec_suite;
    envelope_format = sec_format;
    envelope_digest = it.envelope_digest;
    key_check_value = it.key_check_value;
    key_check_value_present = true;
    wrapped_key = it.wrapped_key;
    parameters = it.parameters;
  }

  unfoldable pub decode_response : Text → Option KeyProvisioningResponse → KeyProvDecodeOutcome
  decode_response message_id none = decode_fail field_invalid (codes "response_parse_failed")
  decode_response message_id (some msg) =
      if ltb keyprov_max_items (length msg.items)
      then decode_fail size_exceeded (codes "response_items_too_many")
      else with_items (each_item check_wrapped_item hand_on msg.items) (λ items.
        decoded_ok msg.request_id message_id (
          response_data (record {
            request_id = msg.request_id;
            result = msg.result;
            expire_at_ms = msg.expire_at_ms;
            error = fill_error msg.error;
            items = items;
          })))

unfoldable pub decode_ack_result : Text → Option KeyProvisioningAckResult → KeyProvDecodeOutcome
decode_ack_result message_id none = decode_fail field_invalid (codes "ack_result_parse_failed")
decode_ack_result message_id (some msg) = decoded_ok msg.request_id message_id (
    ack_result_data (record {
      request_id = msg.request_id;
      result = msg.result;
      occurred_at_ms = msg.occurred_at_ms;
      error = fill_error msg.error;
    }))

unfoldable pub decode_status_response :
    Text → Option KeyProvisioningStatusResponse → KeyProvDecodeOutcome
decode_status_response message_id none =
    decode_fail field_invalid (codes "status_response_parse_failed")
decode_status_response message_id (some msg) =
    if ltb keyprov_max_items (length msg.items)
    then decode_fail size_exceeded (codes "status_items_too_many")
    else with_items (each_item check_status_item (λ it. it) msg.items) (λ items.
      decoded_ok msg.request_id message_id (
        status_response_data (record {
          request_id = msg.request_id;
          status = msg.status;
          occurred_at_ms = msg.occurred_at_ms;
          error = fill_error msg.error;
          items = items;
        })))

-- The generated code: the parsers of the envelope and of the three messages.
pub record Parsers : Type 0 where
  pub envelope : List ℕ → Option VehicleMessageEnvelope
  pub response : List ℕ → Option KeyProvisioningResponse
  pub ack_result : List ℕ → Option KeyProvisioningAckResult
  pub status_response : List ℕ → Option KeyProvisioningStatusResponse

module _ (parsers : Parsers) (sec_suite : Text) (sec_format : ℤ) where
  unfoldable pub decode_payload : VehicleMessageEnvelope → KeyProvDecodeOutcome
  decode_payload env =
      if text_eq env.payload_type keyprov_payload_response
      then decode_response sec_suite sec_format env.message_id (parsers.response env.payload)
      else if text_eq env.payload_type keyprov_payload_ack_result
      then decode_ack_result env.message_id (parsers.ack_result env.payload)
      else if text_eq env.payload_type keyprov_payload_status_response
      then decode_status_response env.message_id (parsers.status_response env.payload)
      else decode_fail unsupported_payload_type (codes "unsupported_payload_type")

  unfoldable pub decode_fields : VehicleMessageEnvelope → KeyProvDecodeOutcome
  decode_fields env =
      if not (text_eq env.protocol_version keyprov_protocol_version)
      then decode_fail protocol_version_mismatch (codes "protocol_version_mismatch")
      else if not (text_eq env.service keyprov_service)
      then decode_fail service_mismatch (codes "service_mismatch")
      else if ltb keyprov_max_payload_bytes (length env.payload)
      then decode_fail size_exceeded (codes "payload_too_large")
      else if not (is_response env.message_kind)
      then decode_fail field_invalid (codes "not_response_kind")
      else decode_payload env

  unfoldable pub decode_keyprov_envelope : List ℕ → KeyProvDecodeOutcome
  decode_keyprov_envelope bytes =
      if ltb keyprov_max_payload_bytes (length bytes)
      then decode_fail size_exceeded (codes "envelope_too_large")
      else elim (parsers.envelope bytes) [
        | none ↦ decode_fail envelope_invalid (codes "envelope_parse_failed")
        | some env ↦ decode_fields env
      ]
