-- ===== src/Coordinator/Readiness.antt =====
-- What the coordinator is told of the cloud, its capability and SEC: include/mqtt_facade.h and
-- keyprov_readiness. The build lock (generated constants and the runtime self-check) and SEC's answer
-- are arguments; so is SEC's own contract version.
use iov_vehicle_tbox_tsp.Prelude.{
  ℕ, [], Bool, false, not, ◌&&◌, Option, none, some, Text, codes, ◌==◌, if◌then◌else◌,
}
use iov_vehicle_tbox_tsp.Protocol.Identity.{MqttSessionContext}

abbrev pub mqtt_cloud_readiness_contract_version_v3 : ℕ
mqtt_cloud_readiness_contract_version_v3 = 3

abbrev pub mqtt_publish_session_contract_version : ℕ
mqtt_publish_session_contract_version = 1

abbrev pub capability_keyprov : Text
capability_keyprov = codes "security.keyprov"

pub record CloudReadiness : Type 0 where
  pub cloud_ready : Bool
  pub connection_generation : ℕ
  pub cert_session_generation : ℕ
  pub credential_id : Text
  pub credential_version : ℕ
  pub device_identity_digest : Text
  pub certificate_ref : Text
  pub reason_code : Text
  pub contract_version : ℕ
  pub contract_supported : Bool
  pub ecu_uid : Text
  pub session : MqttSessionContext
  pub publish_contract_version : ℕ
  pub event_sequence : ℕ

pub record CapabilityReadiness : Type 0 where
  pub capability : Text
  pub enabled : Bool
  pub contract_supported : Bool
  pub snapshot_accepted : Bool
  pub uplink_ready : Bool
  pub downlink_suback_ready : Bool
  pub ready : Bool
  pub owner_generation : ℕ
  pub connection_generation : ℕ
  pub cert_session_generation : ℕ
  pub reason_code : Text

pub record KeyprovReadiness : Type 0 where
  pub par_proto_cr008_release_matched : Bool
  pub descriptor_set_hash_matched : Bool
  pub package_service_protocol_registry_matched : Bool
  pub deterministic_proto_runtime_ready : Bool
  pub cross_language_golden_ready : Bool
  pub sec_envelope_v1_import_ready : Bool
  pub sec_atomic_dual_purpose_commit_ready : Bool
  pub sec_import_proof_sign_ecdsa_p256_v1_ready : Bool
  pub sec_secure_journal_replay_ready : Bool

unfoldable pub all_ready : KeyprovReadiness → Bool
all_ready r =
    ((((r.par_proto_cr008_release_matched && r.descriptor_set_hash_matched)
          && r.package_service_protocol_registry_matched)
        && r.deterministic_proto_runtime_ready)
      && r.cross_language_golden_ready)
    && (((r.sec_envelope_v1_import_ready && r.sec_atomic_dual_purpose_commit_ready)
          && r.sec_import_proof_sign_ecdsa_p256_v1_ready)
        && r.sec_secure_journal_replay_ready)

unfoldable pub first_missing_reason : KeyprovReadiness → Text
first_missing_reason r =
    if not r.par_proto_cr008_release_matched
    then codes "par_proto_release_mismatch"
    else if not r.descriptor_set_hash_matched
    then codes "descriptor_set_hash_missing"
    else if not r.package_service_protocol_registry_matched
    then codes "registry_tuple_mismatch"
    else if not r.deterministic_proto_runtime_ready
    then codes "deterministic_proto_runtime_not_ready"
    else if not r.cross_language_golden_ready
    then codes "cross_language_golden_not_ready"
    else if not r.sec_envelope_v1_import_ready
    then codes "sec_envelope_v1_import_not_ready"
    else if not r.sec_atomic_dual_purpose_commit_ready
    then codes "sec_atomic_dual_commit_not_ready"
    else if not r.sec_import_proof_sign_ecdsa_p256_v1_ready
    then codes "sec_import_proof_sign_not_ready"
    else if not r.sec_secure_journal_replay_ready
    then codes "sec_journal_replay_not_ready"
    else []

-- The fields of SEC's capability that the readiness reads.
pub record SecReadyCapability : Type 0 where
  pub capability_contract_version : ℕ
  pub envelope_v1_import_ready : Bool
  pub atomic_dual_purpose_commit_ready : Bool
  pub import_proof_sign_ecdsa_p256_v1_ready : Bool
  pub secure_journal_replay_ready : Bool

unfoldable pub with_sec : Bool → Bool → Bool → Bool → KeyprovReadiness → KeyprovReadiness
with_sec envelope dual sign replay r = record r {
  sec_envelope_v1_import_ready = envelope;
  sec_atomic_dual_purpose_commit_ready = dual;
  sec_import_proof_sign_ecdsa_p256_v1_ready = sign;
  sec_secure_journal_replay_ready = replay;
}

-- `version` is SEC's own contract version, `kContractVersion`.
unfoldable pub keyprov_apply_sec_capability :
    ℕ → SecReadyCapability → KeyprovReadiness → KeyprovReadiness
keyprov_apply_sec_capability version c r =
    if not (c.capability_contract_version == version)
    then with_sec false false false false r
    else with_sec c.envelope_v1_import_ready c.atomic_dual_purpose_commit_ready
        c.import_proof_sign_ecdsa_p256_v1_ready c.secure_journal_replay_ready r

-- The readiness after the refresh, from the build lock and SEC's answer, if it gave one.
unfoldable pub refreshed : ℕ → KeyprovReadiness → Option SecReadyCapability → KeyprovReadiness
refreshed version locked none = locked
refreshed version locked (some c) = keyprov_apply_sec_capability version c locked
