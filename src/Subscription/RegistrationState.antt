-- ===== src/Subscription/RegistrationState.antt =====
-- src/registration_state.cpp: the holder of the registration status. Every change records the time;
-- the lock makes each operation one step.
use iov_vehicle_tbox_tsp.Prelude.{ℕ, ◌+◌, [], Text, u32}
use iov_vehicle_tbox_tsp.Subscription.Types.{
  SnapshotStatus, unknown, RegistrationState, not_registered, RegistrationStatus,
}

abbrev pub initial_status : RegistrationStatus
initial_status = record {
  state = not_registered;
  generation = 0;
  content_digest_hash = [];
  mandatory_count = 0;
  item_count = 0;
  last_result = unknown;
  last_error = [];
  retry_count = 0;
  updated_at_ms = 0;
}

unfoldable pub transition_to : ℕ → RegistrationState → RegistrationStatus → RegistrationStatus
transition_to now s status = record status { state = s; updated_at_ms = now }

unfoldable pub set_generation : ℕ → ℕ → Text → ℕ → ℕ → RegistrationStatus → RegistrationStatus
set_generation now generation digest mandatory_count item_count status = record status {
  generation = generation;
  content_digest_hash = digest;
  mandatory_count = mandatory_count;
  item_count = item_count;
  updated_at_ms = now;
}

unfoldable pub set_result : ℕ → SnapshotStatus → Text → RegistrationStatus → RegistrationStatus
set_result now result last_error status = record status {
  last_result = result;
  last_error = last_error;
  updated_at_ms = now;
}

unfoldable pub increment_retry : ℕ → RegistrationStatus → RegistrationStatus
increment_retry now status = record status {
  retry_count = u32 (status.retry_count + 1);
  updated_at_ms = now;
}

unfoldable pub reset_retry : ℕ → RegistrationStatus → RegistrationStatus
reset_retry now status = record status { retry_count = 0; updated_at_ms = now }
