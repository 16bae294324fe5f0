-- ===== src/Attempt/Errors.antt =====
-- Classification of the cloud's `ProtocolError` in src/keyprov_attempt.cpp: normalisation to a narrow
-- type, and the idempotency-conflict classifier.
pub mod Release
use iov_vehicle_tbox_tsp.Prelude.{
  ℕ, ◌≡◌, ◌↔◌, ◌⊎◌, [], Bool, true, false, ◌||◌, ℤ, pos, Text, codes, text_eq, is_empty,
  if◌then◌else◌,
}

pub data ProtocolErrorAction : Type 0 where
  action_unspecified do_not_retry : ProtocolErrorAction

abbrev pub is_do_not_retry : ProtocolErrorAction → Bool
is_do_not_retry do_not_retry = true
is_do_not_retry action_unspecified = false

-- The wire form of include/keyprov_protocol.h.
pub record KeyProvProtocolError : Type 0 where
  pub code : Text
  pub retryable : Bool
  pub action : Text
  pub message : Text

abbrev pub no_wire_error : KeyProvProtocolError
no_wire_error = record { code = []; retryable = false; action = []; message = [] }

pub record CloudProtocolError : Type 0 where
  pub code : ℤ
  pub retryable : Bool
  pub action : ProtocolErrorAction
  pub present : Bool

abbrev pub no_cloud_error : CloudProtocolError
no_cloud_error = record {
  code = pos 0;
  retryable = false;
  action = action_unspecified;
  present = false;
}

abbrev pub key_prov_error_code_not_found : ℤ
key_prov_error_code_not_found = pos 806099

abbrev pub code_not_found_wire : Text
code_not_found_wire = codes "KEYPROV_PROVISIONING_NOT_FOUND"

abbrev pub code_not_found_legacy : Text
code_not_found_legacy = codes "806099"

abbrev pub action_do_not_retry : Text
action_do_not_retry = codes "DO_NOT_RETRY"

abbrev pub idempotency_conflict : Text
idempotency_conflict = codes "KEYPROV_IDEMPOTENCY_CONFLICT"

abbrev pub code_conflict_vmd : Text
code_conflict_vmd = codes "806095"

unfoldable pub keyprov_normalize_protocol_error : KeyProvProtocolError → CloudProtocolError
keyprov_normalize_protocol_error wire = if is_empty wire.code then no_cloud_error else record {
  present = true;
  code =
      if text_eq wire.code code_not_found_wire || text_eq wire.code code_not_found_legacy
      then key_prov_error_code_not_found
      else pos 0;
  retryable = wire.retryable;
  action = if text_eq wire.action action_do_not_retry then do_not_retry else action_unspecified;
}

unfoldable pub keyprov_is_idempotency_conflict : KeyProvProtocolError → Bool
keyprov_is_idempotency_conflict error =
    if text_eq error.action idempotency_conflict
    then true
    else if text_eq error.code idempotency_conflict
    then true
    else if text_eq error.code code_conflict_vmd
    then true
    else false
