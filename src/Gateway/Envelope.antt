-- ===== src/Gateway/Envelope.antt =====
-- `validate_envelope`. The protobuf parser is a parameter: it gives the fields that the code reads. A
-- message kind that the protocol does not name is `other`.
use iov_vehicle_tbox_tsp.Prelude.{
  ℕ, ◌++◌, List, [], ◌∷◌, Bool, true, false, not, ◌&&◌, ◌||◌, Option, none, some, Text, codes,
  text_eq, after_prefix, ◌==◌, ltb, leb, any, is_empty, length, u32, ℤ, pos, leb_ℤ, ltb_ℤ,
  if◌then◌else◌,
}

pub data TransportOutcome : Type 0 where
  accepted rejected timeout unknown unavailable version_mismatch payload_too_large protocol_error
        stopping :
      TransportOutcome

pub data MessageKind : Type 0 where
  unspecified request response event : MessageKind
  other : ℕ → MessageKind

abbrev pub is_unspecified : MessageKind → Bool
is_unspecified unspecified = true
is_unspecified _ = false

abbrev pub is_request : MessageKind → Bool
is_request request = true
is_request _ = false

abbrev pub is_response : MessageKind → Bool
is_response response = true
is_response _ = false

pub record Envelope : Type 0 where
  pub protocol_version : Text
  pub message_kind : MessageKind
  pub service : Text
  pub payload_type : Text
  pub payload : List ℕ
  pub expire_at_ms : Option ℤ
  pub message_id : Text
  pub correlation_id : Text

pub record VehicleMessageLimits : Type 0 where
  pub allowed_services : List Text
  pub allowed_protocol_versions : List Text
  pub max_envelope_bytes : ℕ
  pub max_payload_bytes : ℕ

pub record EnvelopeValidation : Type 0 where
  pub valid : Bool
  pub outcome : TransportOutcome
  pub reason : Text
  pub service : Text
  pub payload_type : Text
  pub message_kind : MessageKind
  pub message_id : Text
  pub correlation_id : Text
  pub payload_size : ℕ
  pub expired : Bool

abbrev pub not_validated : EnvelopeValidation
not_validated = record {
  valid = false;
  outcome = protocol_error;
  reason = [];
  service = [];
  payload_type = [];
  message_kind = unspecified;
  message_id = [];
  correlation_id = [];
  payload_size = 0;
  expired = false;
}

abbrev pub invalid : TransportOutcome → Text → EnvelopeValidation → EnvelopeValidation
invalid outcome reason v = record v { outcome = outcome; reason = reason }

abbrev pub is_name_start : ℕ → Bool
is_name_start c = leb b'A' c && leb c b'Z' || (leb b'a' c && leb c b'z' || c == b'_')

abbrev pub is_name_part : ℕ → Bool
is_name_part c = is_name_start c || leb b'0' c && leb c b'9'

unfoldable pub all_name_parts : Text → Bool
all_name_parts [] = true
all_name_parts (c ∷ s) = is_name_part c && all_name_parts s

-- The regular expression `^[A-Za-z_][A-Za-z0-9_]*$`.
unfoldable pub is_name : Text → Bool
is_name [] = false
is_name (c ∷ s) = is_name_start c && all_name_parts s

unfoldable pub payload_type_in_capability : Text → Text → Bool
payload_type_in_capability service payload_type =
    elim (after_prefix (service ++ codes ".v1.") payload_type) [
      | none ↦ false
      | some name ↦ is_name name
    ]

-- The last checks: the identity of the message and, for a response, of its request.
unfoldable pub validate_identity : Envelope → EnvelopeValidation → EnvelopeValidation
validate_identity env v =
    if is_empty env.message_id
    then invalid protocol_error (codes "message_id_missing") v
    else if is_response env.message_kind && is_empty env.correlation_id
    then invalid protocol_error (codes "correlation_id_missing")
        (record v { message_id = env.message_id })
    else record v {
      message_id = env.message_id;
      correlation_id = if is_response env.message_kind then env.correlation_id else [];
      valid = true;
    }

unfoldable pub is_expired : ℕ → Envelope → Bool
is_expired now_ms env = elim env.expire_at_ms [
  | none ↦ false
  | some t ↦ ltb_ℤ (pos 0) t && leb_ℤ t (pos now_ms)
]

unfoldable pub validate_fields : VehicleMessageLimits → ℕ → Bool → Envelope → EnvelopeValidation
validate_fields limits now_ms expect_request env =
    let with_kind = record not_validated { message_kind = env.message_kind } in
    let with_service = record with_kind { service = env.service } in
    let with_type = record with_service { payload_type = env.payload_type } in
    let with_size = record with_type { payload_size = u32 (length env.payload) } in
    if not (any (text_eq env.protocol_version) limits.allowed_protocol_versions)
    then invalid version_mismatch (codes "protocol_version_unsupported") not_validated
    else if is_unspecified env.message_kind
    then invalid protocol_error (codes "message_kind_unspecified") with_kind
    else if expect_request && not (is_request env.message_kind)
    then invalid protocol_error (codes "expected_request") with_kind
    else if not expect_request && is_request env.message_kind
    then invalid protocol_error (codes "illegal_downlink_request") with_kind
    else if not (any (text_eq env.service) limits.allowed_services)
    then invalid protocol_error (codes "service_not_allowed") with_service
    else if not (payload_type_in_capability env.service env.payload_type)
    then invalid version_mismatch (codes "payload_type_not_supported") with_type
    else if ltb limits.max_payload_bytes (u32 (length env.payload))
    then invalid payload_too_large (codes "payload_exceeds_max_bytes") with_size
    else if is_expired now_ms env
    then invalid rejected (codes "ttl_expired") (record with_size { expired = true })
    else validate_identity env with_size

unfoldable pub validate_envelope :
    (List ℕ → Option Envelope) → VehicleMessageLimits → ℕ → Bool → List ℕ → EnvelopeValidation
validate_envelope parse limits now_ms expect_request bytes =
    if length bytes == 0
    then invalid protocol_error (codes "empty_envelope") not_validated
    else if ltb limits.max_envelope_bytes (length bytes)
    then invalid payload_too_large (codes "envelope_exceeds_max_bytes") not_validated
    else elim (parse bytes) [
      | none ↦ invalid protocol_error (codes "envelope_parse_failed") not_validated
      | some env ↦ validate_fields limits now_ms expect_request env
    ]
