-- ===== src/Lifecycle/Clock.antt =====
-- Parameters, trusted-clock gate and lease times of include/keyprov_lifecycle.h and
-- src/keyprov_lifecycle.cpp. Times are `int64_t` (here ℤ), durations `uint32_t` (here ℕ).
pub mod Lease
use iov_vehicle_tbox_tsp.Prelude.{
  ℕ, Bool, true, false, ℤ, pos, ◌+ℤ◌, ◌-ℤ◌, leb_ℤ, ltb, if◌then◌else◌,
}

pub record KeyprovKl1Params : Type 0 where
  pub response_ttl_ms : ℕ
  pub batch_ms : ℕ
  pub ack_grace_ms : ℕ
  pub skew_ms : ℕ
  pub issue_min_ms : ℕ
  pub import_min_ms : ℕ
  pub request_limit : ℕ
  pub request_window_ms : ℕ
  pub readonly_limit : ℕ
  pub readonly_window_ms : ℕ
  pub ack_limit : ℕ
  pub chain_ids : ℕ
  pub chain_window_ms : ℕ
  pub sec_nf_observations : ℕ
  pub sec_nf_span_ms : ℕ

abbrev pub default_params : KeyprovKl1Params
default_params = record {
  response_ttl_ms = 60000;
  batch_ms = 300000;
  ack_grace_ms = 30000;
  skew_ms = 2000;
  issue_min_ms = 20000;
  import_min_ms = 15000;
  request_limit = 8;
  request_window_ms = 120000;
  readonly_limit = 12;
  readonly_window_ms = 300000;
  ack_limit = 3;
  chain_ids = 3;
  chain_window_ms = 600000;
  sec_nf_observations = 3;
  sec_nf_span_ms = 12000;
}

pub record KeyprovClockSource : Type 0 where
  pub utc_now_ms : ℤ
  pub uncertainty_ms : ℕ
  pub monotonic_ms : ℤ
  pub sample_age_ms : ℕ
  pub skew_ms : ℕ
  pub rollback_detected : Bool
  pub trusted : Bool

unfoldable pub keyprov_clock_healthy : KeyprovClockSource → Bool
keyprov_clock_healthy c =
    if c.rollback_detected
    then false
    else if ltb 1000 c.uncertainty_ms
    then false
    else if ltb 300000 c.sample_age_ms
    then false
    else if ltb 2000 c.skew_ms
    then false
    else true

-- `utc_upper` of the decision: U = utc_now + uncertainty.
unfoldable pub utc_upper : KeyprovClockSource → ℤ
utc_upper c = c.utc_now_ms +ℤ pos c.uncertainty_ms

unfoldable pub keyprov_ack_safe_deadline_ms : ℤ → KeyprovKl1Params → ℤ
keyprov_ack_safe_deadline_ms lease_expires_at_ms p =
    lease_expires_at_ms +ℤ pos p.ack_grace_ms -ℤ pos p.skew_ms

unfoldable pub keyprov_lease_acceptable : ℤ → ℤ → KeyprovKl1Params → Bool
keyprov_lease_acceptable utc_upper_ms lease_expires_at_ms p =
    leb_ℤ (pos p.import_min_ms) (lease_expires_at_ms -ℤ utc_upper_ms)

unfoldable pub keyprov_lease_expired : ℤ → ℤ → Bool
keyprov_lease_expired utc_upper_ms lease_expires_at_ms = leb_ℤ lease_expires_at_ms utc_upper_ms
