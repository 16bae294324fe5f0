-- ===== src/Coordinator/Evidence.antt =====
-- The epochs of SEC and the stabilisation of its NOT_FOUND: `reset_…`, `restart_…` and
-- `observe_not_found_locked`. The counter `sec_not_found_stabilization_total` is a function of its
-- keys. The window is measured with the monotonic clock.

pub mod Restart
pub mod Streak
pub mod Ready
pub mod Counted
use iov_vehicle_tbox_tsp.Prelude.{
  ℕ, suc, ◌+◌, List, [], ◌∷◌, Bool, true, false, not, ◌&&◌, ◌||◌, Text, codes, text_eq, ℤ, pos,
  negsuc, ◌-ℤ◌, leb_ℤ, leb, ltb, ◌==◌, is_empty, length, if◌then◌else◌, u32, u64,
}
use iov_vehicle_tbox_tsp.KeyStore.Record.{V2cKeyProvisioningRecord}
use iov_vehicle_tbox_tsp.Coordinator.Classification.{SecImportEvidence}

pub record SecNotFoundStabilization : Type 0 where
  pub consecutive_count : ℕ
  pub first_observed_monotonic_ms : ℤ
  pub last_observed_monotonic_ms : ℤ
  pub sec_capability_epoch : ℕ
  pub sec_contract_version : ℕ
  pub request_id_digest : List ℕ
  pub attempt_generation : ℕ

pub record EvidenceState : Type 0 where
  pub request_id : Text
  pub store_generation : ℕ
  pub stab : SecNotFoundStabilization
  pub sec_not_found_first_observed_wall_ms : ℤ
  pub sec_not_found_last_observed_wall_ms : ℤ
  pub sec_not_found_stabilization_total : Text → ℕ
  pub current_sec_capability_epoch : ℕ
  pub sec_capability_unavailable : Bool
  pub last_sec_capability_contract : ℕ
  pub last_capability_not_found_flag : Bool
  pub has_pending_items : Bool
  pub has_ack_items : Bool

unfoldable pub count_key : Text → (Text → ℕ) → Text → ℕ
count_key key total k = if text_eq k key then u64 (total k + 1) else total k

unfoldable pub contrary_local_evidence : EvidenceState → Bool
contrary_local_evidence s = s.has_pending_items || s.has_ack_items

unfoldable pub same_attempt : (Text → List ℕ) → EvidenceState → SecImportEvidence → Bool
same_attempt sha256 s ev =
    if is_empty s.request_id || not (length ev.request_id_digest == 32)
    then false
    else text_eq (sha256 s.request_id) ev.request_id_digest

unfoldable pub cas_generation_matches : EvidenceState → SecImportEvidence → Bool
cas_generation_matches s ev = ev.observed_store_generation == s.store_generation

unfoldable pub forget_window : SecNotFoundStabilization → SecNotFoundStabilization
forget_window stab = record stab {
  consecutive_count = 0;
  first_observed_monotonic_ms = negsuc 0;
  last_observed_monotonic_ms = negsuc 0;
}

unfoldable pub reset_not_found_stabilization : Text → EvidenceState → EvidenceState
reset_not_found_stabilization result s =
    let key = if is_empty result then codes "RESET" else result in
    let counted = record s {
      sec_not_found_stabilization_total = count_key key s.sec_not_found_stabilization_total;
    } in
    if ltb 0 s.stab.consecutive_count
    then record counted {
      stab = forget_window s.stab;
      sec_not_found_first_observed_wall_ms = negsuc 0;
      sec_not_found_last_observed_wall_ms = negsuc 0;
    }
    else counted

unfoldable pub bind_stabilization :
    SecImportEvidence → ℕ → SecNotFoundStabilization → SecNotFoundStabilization
bind_stabilization ev epoch stab = record stab {
  sec_capability_epoch = epoch;
  sec_contract_version = ev.sec_import_result_contract_version;
  request_id_digest = ev.request_id_digest;
  attempt_generation = ev.observed_store_generation;
}

unfoldable pub restart_not_found_stabilization_for :
    SecImportEvidence → EvidenceState → EvidenceState
restart_not_found_stabilization_for ev s =
    let t = reset_not_found_stabilization (codes "RESET_EPOCH_CHANGED") s in
    record t { stab = bind_stabilization ev t.current_sec_capability_epoch t.stab }

unfoldable pub restart_on_epoch : SecImportEvidence → EvidenceState → EvidenceState
restart_on_epoch ev s =
    if s.stab.sec_capability_epoch == 0
      || not (s.stab.sec_capability_epoch == s.current_sec_capability_epoch)
    then restart_not_found_stabilization_for ev s
    else s

unfoldable pub reset_on_attempt : SecImportEvidence → EvidenceState → EvidenceState
reset_on_attempt ev s =
    if not (text_eq s.stab.request_id_digest ev.request_id_digest)
      || not (s.stab.attempt_generation == ev.observed_store_generation)
    then reset_not_found_stabilization (codes "RESET_ATTEMPT_CHANGED") s
    else s

unfoldable pub count_observation : SecImportEvidence → ℤ → ℤ → EvidenceState → EvidenceState
count_observation ev now wall s = record s {
  stab = record {
    consecutive_count = u32 (s.stab.consecutive_count + 1);
    first_observed_monotonic_ms =
        if s.stab.consecutive_count == 0 then now else s.stab.first_observed_monotonic_ms;
    last_observed_monotonic_ms = now;
    sec_capability_epoch = s.stab.sec_capability_epoch;
    sec_contract_version = ev.sec_import_result_contract_version;
    request_id_digest = ev.request_id_digest;
    attempt_generation = ev.observed_store_generation;
  };
  sec_not_found_first_observed_wall_ms =
      if leb_ℤ (pos 0) s.sec_not_found_first_observed_wall_ms
      then s.sec_not_found_first_observed_wall_ms
      else wall;
  sec_not_found_last_observed_wall_ms = wall;
}

-- `now` is the monotonic clock, `wall` the wall clock.
unfoldable pub observe_not_found :
    (Text → List ℕ) → SecImportEvidence → ℤ → ℤ → EvidenceState → EvidenceState
observe_not_found sha256 ev now wall s =
    if not (same_attempt sha256 s ev && cas_generation_matches s ev)
    then s
    else count_observation ev now wall (reset_on_attempt ev (restart_on_epoch ev s))

-- The two fields of SEC's capability that the epoch follows.
pub record SecCapability : Type 0 where
  pub capability_contract_version : ℕ
  pub business_key_import_result_not_found_v1 : Bool

unfoldable pub same_flag : Bool → Bool → Bool
same_flag true b = b
same_flag false b = not b

unfoldable pub next_epoch : SecCapability → EvidenceState → ℕ
next_epoch capability s =
    if (s.sec_capability_unavailable
        || not (capability.capability_contract_version == s.last_sec_capability_contract))
      || not (
          same_flag capability.business_key_import_result_not_found_v1
            s.last_capability_not_found_flag)
    then u64 (s.current_sec_capability_epoch + 1)
    else s.current_sec_capability_epoch

unfoldable pub update_sec_capability_epoch : Bool → SecCapability → EvidenceState → EvidenceState
update_sec_capability_epoch false capability s = record s { sec_capability_unavailable = true }
update_sec_capability_epoch true capability s = record s {
  current_sec_capability_epoch =
      if next_epoch capability s == 0 then 1 else next_epoch capability s;
  sec_capability_unavailable = false;
  last_sec_capability_contract = capability.capability_contract_version;
  last_capability_not_found_flag = capability.business_key_import_result_not_found_v1;
}

-- The epoch of SEC's own contract snapshot, which `refresh_sec_readiness_locked` takes over.
unfoldable pub take_contract_epoch : ℕ → EvidenceState → EvidenceState
take_contract_epoch epoch s =
    if epoch == 0 then s else record s { current_sec_capability_epoch = epoch }

pub record StabilizationConfig : Type 0 where
  pub not_found_stabilization_count : ℕ
  pub not_found_stabilization_window_ms : ℕ
  pub sec_import_timeout_ms : ℕ
  pub sec_callback_grace_ms : ℕ

unfoldable pub stabilization_window_ms : StabilizationConfig → ℕ
stabilization_window_ms c =
    if ltb 0 c.not_found_stabilization_window_ms
    then c.not_found_stabilization_window_ms
    else u32 (c.sec_import_timeout_ms + c.sec_callback_grace_ms)

-- The condition under which `reconcile_sec_journal_locked` takes the absence of side effects as proven.
unfoldable pub is_stabilized : StabilizationConfig → ℤ → EvidenceState → Bool
is_stabilized c now s =
    (leb c.not_found_stabilization_count s.stab.consecutive_count
      && leb_ℤ (pos 0) s.stab.first_observed_monotonic_ms)
    && (leb_ℤ (pos (stabilization_window_ms c)) (now -ℤ s.stab.first_observed_monotonic_ms)
        && not (contrary_local_evidence s))

-- What `initialize` takes up of a stored record.
unfoldable pub restored_stabilization :
    (Text → List ℕ) → V2cKeyProvisioningRecord → SecNotFoundStabilization
restored_stabilization sha256 r = record {
  consecutive_count = r.recovery.sec_not_found_count;
  first_observed_monotonic_ms = negsuc 0;
  last_observed_monotonic_ms = negsuc 0;
  sec_capability_epoch = r.recovery.sec_capability_epoch;
  sec_contract_version = r.recovery.sec_contract_version;
  request_id_digest = if is_empty r.request_id then [] else sha256 r.request_id;
  attempt_generation = r.store_generation;
}

-- The part of `initialize` for a valid record, with provisioning enabled: SEC has not been asked yet,
-- and no items are held.
unfoldable pub restored_evidence : (Text → List ℕ) → V2cKeyProvisioningRecord → EvidenceState
restored_evidence sha256 r = record {
  request_id = r.request_id;
  store_generation = r.store_generation;
  stab = restored_stabilization sha256 r;
  sec_not_found_first_observed_wall_ms = negsuc 0;
  sec_not_found_last_observed_wall_ms = negsuc 0;
  sec_not_found_stabilization_total = λ key. 0;
  current_sec_capability_epoch = 0;
  sec_capability_unavailable = false;
  last_sec_capability_contract = 0;
  last_capability_not_found_flag = false;
  has_pending_items = false;
  has_ack_items = false;
}

-- The stabilisation of a new attempt.
abbrev pub no_stabilization : SecNotFoundStabilization
no_stabilization = record {
  consecutive_count = 0;
  first_observed_monotonic_ms = negsuc 0;
  last_observed_monotonic_ms = negsuc 0;
  sec_capability_epoch = 0;
  sec_contract_version = 0;
  request_id_digest = [];
  attempt_generation = 0;
}

-- What `create_new_attempt_locked` does to this part of the state.
unfoldable pub begin_attempt : Text → ℕ → EvidenceState → EvidenceState
begin_attempt request_id generation s = record s {
  request_id = request_id;
  store_generation = generation;
  stab = no_stabilization;
  sec_not_found_first_observed_wall_ms = negsuc 0;
  sec_not_found_last_observed_wall_ms = negsuc 0;
  has_pending_items = false;
  has_ack_items = false;
}
