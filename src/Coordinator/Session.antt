-- ===== src/Coordinator/Session.antt =====
-- The session identity of the coordinator: `invalidate_identity_locked`, `apply_cloud_readiness_locked`,
-- `apply_capability_readiness_locked`, `capability_gate_locked`. The gate takes the refreshed readiness
-- as an argument. Sequence numbers have 64 bits.
pub mod Bound
use iov_vehicle_tbox_tsp.Prelude.{
  ℕ, ◌+◌, List, [], Bool, true, false, not, ◌&&◌, ◌||◌, Option, none, some, Text, codes, text_eq, ℤ,
  pos, leb, ltb, ◌==◌, is_empty, if◌then◌else◌, u64,
}
use iov_vehicle_tbox_tsp.Protocol.Identity.{
  MqttSessionContext, KeyprovSessionIdentity, keyprov_is_canonical_uid, keyprov_validate_identity,
}
use iov_vehicle_tbox_tsp.Protocol.Messages.{WrappedKeyItem}
use iov_vehicle_tbox_tsp.Coordinator.Readiness.{
  mqtt_cloud_readiness_contract_version_v3, mqtt_publish_session_contract_version,
  capability_keyprov, CloudReadiness, CapabilityReadiness, KeyprovReadiness, all_ready,
  first_missing_reason,
}

pub record AckBinding : Type 0 where
  pub purpose : Text
  pub key_id : Text
  pub business_key_version : ℕ
  pub envelope_format : ℤ
  pub envelope_digest : List ℕ
  pub key_check_value : List ℕ
  pub key_check_value_present : Bool

pub record SessionState : Type 0 where
  pub readiness : KeyprovReadiness
  pub cloud : CloudReadiness
  pub capability : CapabilityReadiness
  pub identity : KeyprovSessionIdentity
  pub identity_valid : Bool
  pub publish_session_supported : Bool
  pub last_cloud_sequence : ℕ
  pub cloud_ready_events : ℕ
  pub capability_event_seen : Bool
  pub pending_items : List WrappedKeyItem
  pub response_binding : List AckBinding
  pub last_response_message_id : Text
  pub deadline_ms : ℤ

abbrev pub no_identity : KeyprovSessionIdentity
no_identity = record {
  ecu_uid = [];
  device_identity_digest = [];
  certificate_ref = [];
  session = record { daemon_epoch = []; connection_generation = 0; cert_session_generation = 0 };
}

unfoldable pub invalidate_identity : SessionState → SessionState
invalidate_identity s = record s {
  identity_valid = false;
  identity = no_identity;
  pending_items = [];
  response_binding = [];
  last_response_message_id = [];
  deadline_ms = pos 0;
}

unfoldable pub is_epoch_changed : CloudReadiness → SessionState → Bool
is_epoch_changed r s = not (text_eq r.session.daemon_epoch s.cloud.session.daemon_epoch)

-- The last sequence number that an event is compared with.
unfoldable pub compared_sequence : CloudReadiness → SessionState → ℕ
compared_sequence r s = if is_epoch_changed r s then 0 else s.last_cloud_sequence

unfoldable pub is_stale : CloudReadiness → SessionState → Bool
is_stale r s =
    (not (is_epoch_changed r s) && not (r.event_sequence == 0))
    && (not (compared_sequence r s == 0) && leb r.event_sequence (compared_sequence r s))

unfoldable pub is_sequence_gap : CloudReadiness → SessionState → Bool
is_sequence_gap r s =
    (not (is_epoch_changed r s) && not (compared_sequence r s == 0))
    && ltb (u64 (compared_sequence r s + 1)) r.event_sequence

unfoldable pub ends_identity : CloudReadiness → SessionState → Bool
ends_identity r s =
    (((is_epoch_changed r s
          || not (r.session.connection_generation == s.cloud.session.connection_generation))
        || not (r.session.cert_session_generation == s.cloud.session.cert_session_generation))
      || is_sequence_gap r s)
    || not r.cloud_ready

unfoldable pub take_cloud : CloudReadiness → SessionState → SessionState
take_cloud r s = record s {
  cloud = r;
  last_cloud_sequence =
      if not (r.event_sequence == 0) then r.event_sequence else compared_sequence r s;
  cloud_ready_events =
      if r.cloud_ready then u64 (s.cloud_ready_events + 1) else s.cloud_ready_events;
  capability_event_seen = true;
}

unfoldable pub apply_cloud_readiness : CloudReadiness → SessionState → SessionState
apply_cloud_readiness r s =
    if is_stale r s
    then s
    else if ends_identity r s
    then invalidate_identity (take_cloud r s)
    else take_cloud r s

unfoldable pub apply_capability_readiness : CapabilityReadiness → SessionState → SessionState
apply_capability_readiness r s =
    let t = record s { capability = r; capability_event_seen = true } in
    if not (text_eq r.capability capability_keyprov)
    then s
    else if not r.ready
    then invalidate_identity t
    else t

unfoldable pub identity_of : CloudReadiness → KeyprovSessionIdentity
identity_of c = record {
  ecu_uid = c.ecu_uid;
  device_identity_digest = c.device_identity_digest;
  certificate_ref = c.certificate_ref;
  session = c.session;
}

-- The checks of the gate after the refresh and before the identity is formed: the reason it stays shut.
unfoldable pub shut_reason : SessionState → Option Text
shut_reason s =
    if not (all_ready s.readiness)
    then some (first_missing_reason s.readiness)
    else if not s.cloud.contract_supported
        || ltb s.cloud.contract_version mqtt_cloud_readiness_contract_version_v3
    then some (codes "readiness_v3_unsupported")
    else if not (leb mqtt_publish_session_contract_version s.cloud.publish_contract_version)
    then some (codes "session_bound_publish_unsupported")
    else if not s.capability.ready
    then some (
        if is_empty s.capability.reason_code
        then codes "capability_not_ready"
        else s.capability.reason_code)
    else if not s.cloud.cloud_ready
    then some (codes "cloud_not_ready")
    else if not (s.capability.connection_generation == s.cloud.session.connection_generation)
        || not (s.capability.cert_session_generation == s.cloud.session.cert_session_generation)
    then some (codes "generation_mismatch")
    else if not (keyprov_is_canonical_uid s.cloud.ecu_uid)
    then some (codes "uid_invalid")
    else none

-- The end of the gate: the reason, if it stays shut, and the state.
unfoldable pub form_identity : Option Text → SessionState → Option Text × SessionState
form_identity (some reason) s = (some reason, record s { identity = no_identity })
form_identity none s = (none, record s { identity = identity_of s.cloud; identity_valid = true })

unfoldable pub pass_gate : Option Text → SessionState → Option Text × SessionState
pass_gate (some reason) s = (some reason, s)
pass_gate none s = form_identity (keyprov_validate_identity (identity_of s.cloud)) s

-- After the refresh. The support for session-bound publishing is written unless the readiness is
-- incomplete.
unfoldable pub gate_refreshed : SessionState → Option Text × SessionState
gate_refreshed s =
    let supported = leb mqtt_publish_session_contract_version s.cloud.publish_contract_version in
    if not (all_ready s.readiness)
    then pass_gate (shut_reason s) s
    else pass_gate (shut_reason s) (record s { publish_session_supported = supported })

unfoldable pub capability_gate :
    Bool → Bool → KeyprovReadiness → SessionState → Option Text × SessionState
capability_gate enabled stopping fresh s =
    if not enabled
    then (some (codes "disabled"), s)
    else if stopping
    then (some (codes "stopping"), s)
    else gate_refreshed (record s { readiness = fresh })
