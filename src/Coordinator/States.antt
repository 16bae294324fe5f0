-- ===== src/Coordinator/States.antt =====
-- The states, their names, and how a stored state is taken up again.
use iov_vehicle_tbox_tsp.Prelude.{
  ◌≡◌, refl, List, [], ◌∷◌, Bool, true, false, not, ◌&&◌, ◌||◌, Option, none, some, Text, codes,
  text_eq, is_empty, ℤ, pos, eqb_ℤ, if◌then◌else◌,
}
use iov_vehicle_tbox_tsp.KeyStore.Record.{
  V2cKeyProvisioningRecord, resolution_no_side_effect_proven, recovery_phase_reconcile_evidence,
}

pub data V2cKeyProvState : Type 0 where
  disabled wait_cloud checking requesting wait_response importing ack_pending active retry_wait
        blocked reconcile_old_attempt superseded_local superseded_remote
        blocked_await_cloud_termination legacy_snapshot_unknown reconcile_evidence
        stabilizing_not_found reconcile_remote await_remote_repair hard_blocked :
      V2cKeyProvState

unfoldable pub v2c_key_prov_state_to_string : V2cKeyProvState → Text
v2c_key_prov_state_to_string disabled = codes "DISABLED"
v2c_key_prov_state_to_string wait_cloud = codes "WAIT_CLOUD"
v2c_key_prov_state_to_string checking = codes "CHECKING"
v2c_key_prov_state_to_string requesting = codes "REQUESTING"
v2c_key_prov_state_to_string wait_response = codes "WAIT_RESPONSE"
v2c_key_prov_state_to_string importing = codes "IMPORTING"
v2c_key_prov_state_to_string ack_pending = codes "ACK_PENDING"
v2c_key_prov_state_to_string active = codes "ACTIVE"
v2c_key_prov_state_to_string retry_wait = codes "RETRY_WAIT"
v2c_key_prov_state_to_string blocked = codes "BLOCKED"
v2c_key_prov_state_to_string reconcile_old_attempt = codes "RECONCILE_OLD_ATTEMPT"
v2c_key_prov_state_to_string superseded_local = codes "SUPERSEDED_LOCAL"
v2c_key_prov_state_to_string superseded_remote = codes "SUPERSEDED_REMOTE"
v2c_key_prov_state_to_string blocked_await_cloud_termination =
    codes "BLOCKED_AWAIT_CLOUD_TERMINATION"
v2c_key_prov_state_to_string legacy_snapshot_unknown = codes "LEGACY_SNAPSHOT_UNKNOWN"
v2c_key_prov_state_to_string reconcile_evidence = codes "RECONCILE_EVIDENCE"
v2c_key_prov_state_to_string stabilizing_not_found = codes "STABILIZING_NOT_FOUND"
v2c_key_prov_state_to_string reconcile_remote = codes "RECONCILE_REMOTE"
v2c_key_prov_state_to_string await_remote_repair = codes "AWAIT_REMOTE_REPAIR"
v2c_key_prov_state_to_string hard_blocked = codes "HARD_BLOCKED"

abbrev pub all_states : List V2cKeyProvState
all_states =
    disabled ∷ wait_cloud ∷ checking ∷ requesting ∷ wait_response ∷ importing ∷ ack_pending ∷ active
    ∷ retry_wait ∷ blocked ∷ reconcile_old_attempt ∷ superseded_local ∷ superseded_remote
    ∷ blocked_await_cloud_termination ∷ legacy_snapshot_unknown ∷ reconcile_evidence
    ∷ stabilizing_not_found ∷ reconcile_remote ∷ await_remote_repair ∷ hard_blocked ∷ []

-- The first state of that name.
unfoldable pub find_state : List V2cKeyProvState → Text → Option V2cKeyProvState
find_state [] s = none
find_state (state ∷ states) s =
    let rest = find_state states s in
    if text_eq s (v2c_key_prov_state_to_string state) then some state else rest

unfoldable pub v2c_key_prov_state_from_string : Text → Option V2cKeyProvState
v2c_key_prov_state_from_string s = find_state all_states s

unfoldable pub recovery_phase_for_state : V2cKeyProvState → Text
recovery_phase_for_state reconcile_evidence = codes "RECONCILE_EVIDENCE"
recovery_phase_for_state stabilizing_not_found = codes "STABILIZING_SEC_NOT_FOUND"
recovery_phase_for_state reconcile_remote = codes "RECONCILE_REMOTE"
recovery_phase_for_state blocked_await_cloud_termination = codes "AWAIT_CLOUD_TERMINATION"
recovery_phase_for_state await_remote_repair = codes "AWAIT_REMOTE_REPAIR"
recovery_phase_for_state hard_blocked = codes "HARD_EVIDENCE_CONFLICT"
recovery_phase_for_state _ = []

-- Every state is read back from its name, so a restart takes up the state that was stored.
pub from_string-to_string :
    (s : V2cKeyProvState) → v2c_key_prov_state_from_string (v2c_key_prov_state_to_string s) ≡ some s
unfolding v2c_key_prov_state_from_string v2c_key_prov_state_to_string find_state text_eq
from_string-to_string disabled = refl
from_string-to_string wait_cloud = refl
from_string-to_string checking = refl
from_string-to_string requesting = refl
from_string-to_string wait_response = refl
from_string-to_string importing = refl
from_string-to_string ack_pending = refl
from_string-to_string active = refl
from_string-to_string retry_wait = refl
from_string-to_string blocked = refl
from_string-to_string reconcile_old_attempt = refl
from_string-to_string superseded_local = refl
from_string-to_string superseded_remote = refl
from_string-to_string blocked_await_cloud_termination = refl
from_string-to_string legacy_snapshot_unknown = refl
from_string-to_string reconcile_evidence = refl
from_string-to_string stabilizing_not_found = refl
from_string-to_string reconcile_remote = refl
from_string-to_string await_remote_repair = refl
from_string-to_string hard_blocked = refl

abbrev pub resolution_hard_conflict : ℤ
resolution_hard_conflict = pos 2

abbrev pub evidence_conflict : Text
evidence_conflict = codes "EVIDENCE_CONFLICT"

-- What `initialize` sets when it takes up a record: the state, whether the ACK is to be recovered, and
-- the recovery phase.
pub record Restored : Type 0 where
  pub state : V2cKeyProvState
  pub recovering_ack : Bool
  pub recovery_phase : Text

abbrev pub restored_as : V2cKeyProvState → Text → Restored
restored_as state phase = record { state = state; recovering_ack = false; recovery_phase = phase }

abbrev pub or_wait_cloud : Option V2cKeyProvState → V2cKeyProvState
or_wait_cloud none = wait_cloud
or_wait_cloud (some state) = state

abbrev pub is_blocked : V2cKeyProvState → Bool
is_blocked blocked = true
is_blocked _ = false

abbrev pub is_reconcile_old_attempt : V2cKeyProvState → Bool
is_reconcile_old_attempt reconcile_old_attempt = true
is_reconcile_old_attempt _ = false

-- The branches for a state that is none of ACTIVE, ACK_PENDING, WAIT_CLOUD, CHECKING, RETRY_WAIT, and
-- for BLOCKED where no rule before the last applies.
unfoldable pub restore_other : V2cKeyProvState → Text → Text → ℤ → Restored
restore_other state blocked_reason phase resolution =
    if is_blocked state && text_eq blocked_reason evidence_conflict
    then restored_as reconcile_evidence recovery_phase_reconcile_evidence
    else if is_blocked state && eqb_ℤ resolution resolution_hard_conflict
    then restored_as hard_blocked (codes "HARD_EVIDENCE_CONFLICT")
    else if (is_blocked state || is_reconcile_old_attempt state)
        && eqb_ℤ resolution resolution_no_side_effect_proven
    then restored_as reconcile_remote (codes "RECONCILE_REMOTE")
    else restored_as state (if is_empty phase then recovery_phase_for_state state else phase)

unfoldable pub restore_state : V2cKeyProvState → Text → Text → ℤ → Restored
restore_state active blocked_reason phase resolution = restored_as wait_cloud phase
restore_state ack_pending blocked_reason phase resolution = record {
  state = wait_cloud;
  recovering_ack = true;
  recovery_phase = phase;
}
restore_state wait_cloud blocked_reason phase resolution = restored_as wait_cloud phase
restore_state checking blocked_reason phase resolution = restored_as wait_cloud phase
restore_state retry_wait blocked_reason phase resolution = restored_as wait_cloud phase
restore_state state blocked_reason phase resolution =
    restore_other state blocked_reason phase resolution

-- The resolution that `initialize` keeps: an unknown value counts as unresolved.
unfoldable pub restored_resolution : V2cKeyProvisioningRecord → ℤ
restored_resolution r =
    if not r.valid
    then pos 0
    else if eqb_ℤ r.recovery.import_invocation_resolution (pos 1)
        || eqb_ℤ r.recovery.import_invocation_resolution (pos 2)
    then r.recovery.import_invocation_resolution
    else pos 0

-- The part of `initialize`, with provisioning enabled, that finds the state for a record.
unfoldable pub initial_state : V2cKeyProvisioningRecord → Restored
initial_state r =
    let reason = if r.valid then r.blocked_reason else [] in
    let phase = if r.valid then r.recovery.recovery_phase else [] in
    let stored =
      if r.valid && not (is_empty r.state)
      then or_wait_cloud (v2c_key_prov_state_from_string r.state)
      else wait_cloud in
    if r.legacy_snapshot_unknown
    then restored_as legacy_snapshot_unknown phase
    else restore_state stored reason phase (restored_resolution r)
