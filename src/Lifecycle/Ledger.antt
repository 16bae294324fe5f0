-- ===== src/Lifecycle/Ledger.antt =====
-- `KeyprovBudgetLedger` of src/keyprov_lifecycle.cpp: budget queries, reservations and the reset for a
-- new attempt. Counters are `uint32_t` and wrap; times are UTC milliseconds.
pub mod Usage
pub mod Bounds
pub mod Windows
use iov_vehicle_tbox_tsp.Prelude.{
  ℕ, ◌+◌, Bool, true, false, ◌&&◌, ℤ, pos, ◌+ℤ◌, ◌-ℤ◌, leb_ℤ, ltb_ℤ, eqb_ℤ, Text, [], leb, ltb,
  ◌==◌, u32, is_empty, if◌then◌else◌,
}
use iov_vehicle_tbox_tsp.Lifecycle.Clock.{KeyprovKl1Params}

pub record KeyprovBudgetLedger : Type 0 where
  pub request_send_count : ℕ
  pub first_request_at_ms : ℤ
  pub request_deadline_at_ms : ℤ
  pub status_send_count : ℕ
  pub first_readonly_at_ms : ℤ
  pub readonly_deadline_at_ms : ℤ
  pub sec_query_count : ℕ
  pub ack_send_count : ℕ
  pub ack_safe_deadline_at_ms : ℤ
  pub expiry_freshen_count : ℕ
  pub chain_id : Text
  pub chain_started_at_ms : ℤ
  pub chain_deadline_at_ms : ℤ
  pub chain_request_id_count : ℕ
  pub migration_token : Text
  pub migration_consumed : Bool
  pub budget_exhausted_reason : Text

abbrev pub empty_ledger : KeyprovBudgetLedger
empty_ledger = record {
  request_send_count = 0;
  first_request_at_ms = pos 0;
  request_deadline_at_ms = pos 0;
  status_send_count = 0;
  first_readonly_at_ms = pos 0;
  readonly_deadline_at_ms = pos 0;
  sec_query_count = 0;
  ack_send_count = 0;
  ack_safe_deadline_at_ms = pos 0;
  expiry_freshen_count = 0;
  chain_id = [];
  chain_started_at_ms = pos 0;
  chain_deadline_at_ms = pos 0;
  chain_request_id_count = 0;
  migration_token = [];
  migration_consumed = false;
  budget_exhausted_reason = [];
}

-- A window counts only once its start has been set (a start of 0 is "not set").
abbrev pub window_passed : ℤ → ℕ → ℤ → Bool
window_passed first window now = ltb_ℤ (pos 0) first && leb_ℤ (pos window) (now -ℤ first)

module _ (p : KeyprovKl1Params) (now : ℤ) (l : KeyprovBudgetLedger) where
  unfoldable pub request_ok : Bool
  request_ok =
      if leb p.request_limit l.request_send_count
      then false
      else if window_passed l.first_request_at_ms p.request_window_ms now
      then false
      else true

  unfoldable pub status_ok : Bool
  status_ok =
      if leb p.readonly_limit l.status_send_count
      then false
      else if window_passed l.first_readonly_at_ms p.readonly_window_ms now
      then false
      else true

  unfoldable pub sec_query_ok : Bool
  sec_query_ok =
      if leb p.readonly_limit l.sec_query_count
      then false
      else if window_passed l.first_readonly_at_ms p.readonly_window_ms now
      then false
      else true

  unfoldable pub ack_ok : Bool
  ack_ok =
      if leb p.ack_limit l.ack_send_count
      then false
      else if ltb_ℤ (pos 0) l.ack_safe_deadline_at_ms && leb_ℤ l.ack_safe_deadline_at_ms now
      then false
      else true

  unfoldable pub chain_ok : Bool
  chain_ok =
      if leb p.chain_ids l.chain_request_id_count
      then false
      else if window_passed l.chain_started_at_ms p.chain_window_ms now
      then false
      else true

  unfoldable pub preconsume_request : KeyprovBudgetLedger
  preconsume_request =
      if l.request_send_count == 0
      then record l {
        first_request_at_ms = now;
        request_deadline_at_ms = now +ℤ pos p.request_window_ms;
        request_send_count = u32 (l.request_send_count + 1);
      }
      else record l { request_send_count = u32 (l.request_send_count + 1) }

  unfoldable pub preconsume_status : KeyprovBudgetLedger
  preconsume_status =
      if l.status_send_count == 0
      then record l {
        first_readonly_at_ms = now;
        readonly_deadline_at_ms = now +ℤ pos p.readonly_window_ms;
        status_send_count = u32 (l.status_send_count + 1);
      }
      else record l { status_send_count = u32 (l.status_send_count + 1) }

  unfoldable pub preconsume_sec_query : KeyprovBudgetLedger
  preconsume_sec_query =
      if l.sec_query_count == 0
      then record l {
        first_readonly_at_ms = now;
        readonly_deadline_at_ms = now +ℤ pos p.readonly_window_ms;
        sec_query_count = u32 (l.sec_query_count + 1);
      }
      else record l { sec_query_count = u32 (l.sec_query_count + 1) }

  unfoldable pub preconsume_ack : KeyprovBudgetLedger
  preconsume_ack =
      if eqb_ℤ l.ack_safe_deadline_at_ms (pos 0)
      then record l { ack_safe_deadline_at_ms = now; ack_send_count = u32 (l.ack_send_count + 1) }
      else record l { ack_send_count = u32 (l.ack_send_count + 1) }

  unfoldable pub preconsume_chain_id : KeyprovBudgetLedger
  preconsume_chain_id =
      if is_empty l.chain_id
      then record l {
        chain_started_at_ms = now;
        chain_deadline_at_ms = now +ℤ pos p.chain_window_ms;
        chain_request_id_count = u32 (l.chain_request_id_count + 1);
      }
      else record l { chain_request_id_count = u32 (l.chain_request_id_count + 1) }

unfoldable pub freshen_ok : KeyprovBudgetLedger → Bool
freshen_ok l = ltb l.expiry_freshen_count 1

unfoldable pub preconsume_freshen : KeyprovBudgetLedger → KeyprovBudgetLedger
preconsume_freshen l = record l { expiry_freshen_count = u32 (l.expiry_freshen_count + 1) }

unfoldable pub reset_for_new_attempt : KeyprovBudgetLedger → KeyprovBudgetLedger
reset_for_new_attempt l = record l {
  request_send_count = 0;
  first_request_at_ms = pos 0;
  request_deadline_at_ms = pos 0;
  status_send_count = 0;
  first_readonly_at_ms = pos 0;
  readonly_deadline_at_ms = pos 0;
  sec_query_count = 0;
  ack_send_count = 0;
  ack_safe_deadline_at_ms = pos 0;
  expiry_freshen_count = 0;
  budget_exhausted_reason = [];
}
