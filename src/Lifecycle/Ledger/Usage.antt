-- ===== src/Lifecycle/Ledger/Usage.antt =====
-- The ledger as its client uses it: a reservation is made only where the matching query allows it
-- (src/v2c_key_provisioning_coordinator.cpp: requests, freshen, ACK and chain), in any order and at
-- any times, also with a clock that goes back. A new chain id is stored behind its reservation.
use iov_vehicle_tbox_tsp.Prelude.{ℤ, Text, List, [], ◌∷◌, ◌&&◌, if◌then◌else◌}
use iov_vehicle_tbox_tsp.Lifecycle.Clock.{KeyprovKl1Params}
use iov_vehicle_tbox_tsp.Lifecycle.Ledger.{
  KeyprovBudgetLedger, request_ok, status_ok, sec_query_ok, ack_ok, freshen_ok, chain_ok,
  preconsume_request, preconsume_status, preconsume_sec_query, preconsume_ack, preconsume_freshen,
  preconsume_chain_id, reset_for_new_attempt,
}

pub data LedgerUse : Type 0 where
  send_request send_status query_sec send_ack freshen new_attempt : LedgerUse
  extend_chain : Text → LedgerUse

unfoldable pub use_ledger :
    KeyprovKl1Params → KeyprovBudgetLedger → ℤ × LedgerUse → KeyprovBudgetLedger
use_ledger p l (now, send_request) = if request_ok p now l then preconsume_request p now l else l
use_ledger p l (now, send_status) = if status_ok p now l then preconsume_status p now l else l
use_ledger p l (now, query_sec) = if sec_query_ok p now l then preconsume_sec_query p now l else l
use_ledger p l (now, send_ack) = if ack_ok p now l then preconsume_ack p now l else l
use_ledger p l (now, freshen) =
    if freshen_ok l && request_ok p now l
    then preconsume_request p now (preconsume_freshen l)
    else l
use_ledger p l (now, new_attempt) = reset_for_new_attempt l
use_ledger p l (now, extend_chain successor) =
    if chain_ok p now l then record (preconsume_chain_id p now l) { chain_id = successor } else l

unfoldable pub use_all :
    KeyprovKl1Params → KeyprovBudgetLedger → List (ℤ × LedgerUse) → KeyprovBudgetLedger
use_all p l [] = l
use_all p l (u ∷ us) = use_all p (use_ledger p l u) us
