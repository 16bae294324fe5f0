-- ===== src/Tests/Data.antt =====
-- Inputs that the tests share.
use iov_vehicle_tbox_tsp.Prelude.{true, false, none, pos}
use iov_vehicle_tbox_tsp.Attempt.Errors.{no_cloud_error}
use iov_vehicle_tbox_tsp.Lifecycle.Clock.{KeyprovClockSource}
use iov_vehicle_tbox_tsp.Lifecycle.Decide.{KeyprovLifecycleInput}

abbrev pub good_clock : KeyprovClockSource
good_clock = record {
  utc_now_ms = pos 1000000;
  uncertainty_ms = 500;
  monotonic_ms = pos 7000;
  sample_age_ms = 1000;
  skew_ms = 2000;
  rollback_detected = false;
  trusted = true;
}

-- A live attempt with a fresh response whose lease has one minute to run.
abbrev pub fresh_response : KeyprovLifecycleInput
fresh_response = record {
  attempt_valid = true;
  binding_match = true;
  terminalized = false;
  clock = good_clock;
  lease_expires_at_ms = pos 1060000;
  ack_safe_deadline_ms = pos 1088000;
  freshen_used = false;
  deliverable = true;
  import_already = false;
  idempotency_conflict = false;
  successor_preexisting = false;
  transport_retryable_fault = false;
  reconciliation_pending = false;
  contract_ready = true;
  sec_capability_epoch_known = true;
  sec_committed = false;
  sec_not_found_proven = false;
  sec_unknown_or_error = false;
  sec_contract_unknown = false;
  no_side_effect_proven = false;
  cloud_status = pos 2;
  cloud_error = no_cloud_error;
  params = none;
  request_budget_ok = true;
  status_budget_ok = true;
  sec_query_budget_ok = true;
  ack_budget_ok = true;
  chain_ok = true;
  inflight = false;
  response_binding_valid = true;
  purposes_complete = false;
  envelope_fresh = true;
  payload_fresh = true;
  payload_present = true;
}
