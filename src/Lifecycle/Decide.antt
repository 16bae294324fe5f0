-- ===== src/Lifecycle/Decide.antt =====
-- `keyprov_lifecycle_decide` of src/keyprov_lifecycle.cpp: the central decision table, priorities 0
-- to 9. The stages below follow the order of the source's tests.
pub mod Stages
pub mod Effects
use iov_vehicle_tbox_tsp.Prelude.{
  Bool, true, false, not, ◌&&◌, ◌||◌, Option, none, some, ℤ, pos, leb_ℤ, ltb_ℤ, eqb_ℤ,
  if◌then◌else◌,
}
use iov_vehicle_tbox_tsp.Lifecycle.Clock.{
  KeyprovKl1Params, default_params, KeyprovClockSource, keyprov_clock_healthy, utc_upper,
  keyprov_lease_acceptable, keyprov_lease_expired,
}
use iov_vehicle_tbox_tsp.Attempt.Errors.{
  CloudProtocolError, key_prov_error_code_not_found, is_do_not_retry,
}

pub data KeyprovAction : Type 0 where
  wait_ready send_request import send_original_ack query_status_or_sec : KeyprovAction
  supersede_cas active blocked late_response conflict_806095 : KeyprovAction
  freshen_same_id restore_original_ack restore_successor response_expired : KeyprovAction
  lease_too_short reject time_untrusted contract_unknown readonly : KeyprovAction
  bounded_retry : KeyprovAction

-- The KEY_PROVISIONING_STATUS_* values of include/keyprov_protocol.h; -1 is "not observed".
abbrev pub status_unspecified : ℤ
status_unspecified = pos 0

abbrev pub status_ack_pending : ℤ
status_ack_pending = pos 3

abbrev pub status_active : ℤ
status_active = pos 4

abbrev pub status_failed : ℤ
status_failed = pos 5

-- `params` is a pointer in the source: `none` is `nullptr`.
pub record KeyprovLifecycleInput : Type 0 where
  pub attempt_valid : Bool
  pub binding_match : Bool
  pub terminalized : Bool
  pub clock : KeyprovClockSource
  pub lease_expires_at_ms : ℤ
  pub ack_safe_deadline_ms : ℤ
  pub freshen_used : Bool
  pub deliverable : Bool
  pub import_already : Bool
  pub idempotency_conflict : Bool
  pub successor_preexisting : Bool
  pub transport_retryable_fault : Bool
  pub reconciliation_pending : Bool
  pub contract_ready : Bool
  pub sec_capability_epoch_known : Bool
  pub sec_committed : Bool
  pub sec_not_found_proven : Bool
  pub sec_unknown_or_error : Bool
  pub sec_contract_unknown : Bool
  pub no_side_effect_proven : Bool
  pub cloud_status : ℤ
  pub cloud_error : CloudProtocolError
  pub params : Option KeyprovKl1Params
  pub request_budget_ok : Bool
  pub status_budget_ok : Bool
  pub sec_query_budget_ok : Bool
  pub ack_budget_ok : Bool
  pub chain_ok : Bool
  pub inflight : Bool
  pub response_binding_valid : Bool
  pub purposes_complete : Bool
  pub envelope_fresh : Bool
  pub payload_fresh : Bool
  pub payload_present : Bool

abbrev pub params_of : Option KeyprovKl1Params → KeyprovKl1Params
params_of none = default_params
params_of (some p) = p

unfoldable pub releasable_unspecified : KeyprovLifecycleInput → Bool
releasable_unspecified i =
    eqb_ℤ i.cloud_status status_unspecified
    && (i.cloud_error.present
        && (eqb_ℤ i.cloud_error.code key_prov_error_code_not_found
            && (not i.cloud_error.retryable && is_do_not_retry i.cloud_error.action)))

unfoldable pub expired_or_too_short : KeyprovLifecycleInput → Bool
expired_or_too_short i =
    i.payload_present
    && (keyprov_lease_expired (utc_upper i.clock) i.lease_expires_at_ms
        || (not (
              keyprov_lease_acceptable (utc_upper i.clock) i.lease_expires_at_ms
                (params_of i.params))
            || not i.payload_fresh))

-- The tail of the table: no outside fact and no response.
unfoldable pub decide_default : KeyprovLifecycleInput → KeyprovAction
decide_default i =
    if i.purposes_complete
    then active
    else if i.inflight
    then wait_ready
    else if i.reconciliation_pending
    then (if i.status_budget_ok && i.sec_query_budget_ok then query_status_or_sec else blocked)
    else if i.request_budget_ok
    then send_request
    else if i.status_budget_ok || i.sec_query_budget_ok
    then readonly
    else blocked

-- P6 to P9: the freshness of a response, the import, and transport faults.
unfoldable pub decide_response : KeyprovLifecycleInput → KeyprovAction
decide_response i =
    if expired_or_too_short i
      && (not i.freshen_used
          && (eqb_ℤ i.cloud_status status_ack_pending
              && (i.no_side_effect_proven && (i.deliverable && i.request_budget_ok))))
    then freshen_same_id
    else if i.payload_present && expired_or_too_short i
    then (if i.freshen_used
        then readonly
        else if keyprov_lease_expired (utc_upper i.clock) i.lease_expires_at_ms
        then response_expired
        else lease_too_short)
    else if i.payload_present
        && (i.payload_fresh
            && (i.envelope_fresh
                && (i.response_binding_valid
                    && (i.contract_ready
                        && (i.sec_capability_epoch_known
                            && (not i.import_already
                                && (not i.inflight
                                    && keyprov_lease_acceptable (utc_upper i.clock)
                                        i.lease_expires_at_ms (params_of i.params))))))))
    then import
    else if i.transport_retryable_fault && i.request_budget_ok
    then bounded_retry
    else decide_default i

-- P5: a cloud batch that has ended, with SEC proven free of side effects.
unfoldable pub decide_release : KeyprovLifecycleInput → KeyprovAction
decide_release i =
    if i.no_side_effect_proven && (eqb_ℤ i.cloud_status status_failed || releasable_unspecified i)
    then (if not i.chain_ok
        then blocked
        else if i.successor_preexisting
        then restore_successor
        else supersede_cas)
    else if i.no_side_effect_proven && eqb_ℤ i.cloud_status status_unspecified
    then readonly
    else decide_response i

-- P2 to P4: SEC evidence against the cloud's status.
unfoldable pub decide_evidence : KeyprovLifecycleInput → KeyprovAction
decide_evidence i =
    if eqb_ℤ i.cloud_status status_active && (i.sec_committed && i.purposes_complete)
    then active
    else if i.sec_committed && eqb_ℤ i.cloud_status status_failed
    then blocked
    else if i.sec_not_found_proven && eqb_ℤ i.cloud_status status_active
    then blocked
    else if i.sec_committed && eqb_ℤ i.cloud_status status_ack_pending
    then (if i.ack_budget_ok && ltb_ℤ (utc_upper i.clock) i.ack_safe_deadline_ms
        then restore_original_ack
        else readonly)
    else decide_release i

-- P0, P1 and the double admission of the transport.
unfoldable pub keyprov_lifecycle_decide : KeyprovLifecycleInput → KeyprovAction
keyprov_lifecycle_decide i =
    if not i.attempt_valid || (not i.binding_match || i.terminalized)
    then late_response
    else if i.idempotency_conflict
    then conflict_806095
    else if not (keyprov_clock_healthy i.clock) || not i.clock.trusted
    then time_untrusted
    else if i.sec_contract_unknown || not i.contract_ready
    then (if leb_ℤ (pos 0) i.cloud_status then readonly else contract_unknown)
    else if i.sec_unknown_or_error
    then (if i.status_budget_ok && i.sec_query_budget_ok then query_status_or_sec else blocked)
    else if i.payload_present && (not i.envelope_fresh || not i.payload_fresh)
    then reject
    else decide_evidence i
