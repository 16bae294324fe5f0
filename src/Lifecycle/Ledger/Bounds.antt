-- ===== src/Lifecycle/Ledger/Bounds.antt =====
-- The counters never pass their limits, whatever the history of uses.
use iov_vehicle_tbox_tsp.Prelude.{◌≤◌, ◌<◌, ◌^◌, ℤ, List, [], ◌∷◌, arith}
use iov_vehicle_tbox_tsp.Lifecycle.Clock.{KeyprovKl1Params}
use iov_vehicle_tbox_tsp.Lifecycle.Ledger.{
  KeyprovBudgetLedger, request_ok, status_ok, sec_query_ok, ack_ok, freshen_ok, chain_ok,
  preconsume_request, preconsume_status, preconsume_sec_query, preconsume_ack, preconsume_freshen,
  preconsume_chain_id, reset_for_new_attempt,
}
use iov_vehicle_tbox_tsp.Lifecycle.Ledger.Usage.{
  LedgerUse, send_request, send_status, query_sec, send_ack, freshen, new_attempt, extend_chain,
  use_ledger, use_all,
}

-- The limits fit their `uint32_t` type.
pub record IsSane (p : KeyprovKl1Params) : Type 0 where
  pub request : p.request_limit < 2 ^ 32
  pub readonly : p.readonly_limit < 2 ^ 32
  pub ack : p.ack_limit < 2 ^ 32
  pub chain : p.chain_ids < 2 ^ 32

pub record IsWithin (p : KeyprovKl1Params) (l : KeyprovBudgetLedger) : Type 0 where
  pub requests : l.request_send_count ≤ p.request_limit
  pub statuses : l.status_send_count ≤ p.readonly_limit
  pub queries : l.sec_query_count ≤ p.readonly_limit
  pub acks : l.ack_send_count ≤ p.ack_limit
  pub freshens : l.expiry_freshen_count ≤ 1
  pub chained : l.chain_request_id_count ≤ p.chain_ids

module _ (p : KeyprovKl1Params) (s : IsSane p) where
  use_ledger-IsWithin :
      (l : KeyprovBudgetLedger) (now : ℤ) (u : LedgerUse)
      → IsWithin p l
      → IsWithin p (use_ledger p l (now, u))
  unfolding use_ledger request_ok preconsume_request status_ok preconsume_status sec_query_ok
      preconsume_sec_query ack_ok preconsume_ack freshen_ok preconsume_freshen reset_for_new_attempt
      chain_ok preconsume_chain_id
  use_ledger-IsWithin l now send_request w = ground arith
  use_ledger-IsWithin l now send_status w = ground arith
  use_ledger-IsWithin l now query_sec w = ground arith
  use_ledger-IsWithin l now send_ack w = ground arith
  use_ledger-IsWithin l now freshen w = ground arith
  use_ledger-IsWithin l now new_attempt w = ground arith
  use_ledger-IsWithin l now (extend_chain c) w = ground arith

  -- From a ledger within its limits, every history of uses (reservations behind their queries, at any
  -- times, and resets for new attempts) keeps all six counters within their limits, none wrapping.
  pub use_all-IsWithin :
      (l : KeyprovBudgetLedger) (us : List (ℤ × LedgerUse))
      → IsWithin p l
      → IsWithin p (use_all p l us)
  unfolding use_all
  use_all-IsWithin l [] w = w
  use_all-IsWithin l ((now, u) ∷ us) w =
      use_all-IsWithin (use_ledger p l (now, u)) us (use_ledger-IsWithin l now u w)
