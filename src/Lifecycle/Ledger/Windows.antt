-- ===== src/Lifecycle/Ledger/Windows.antt =====
-- The time windows of the budgets: what fixes the start of a window, and when it has passed.
use iov_vehicle_tbox_tsp.Prelude.{
  ◌≤◌, ◌<◌, Bool, true, false, ℤ, pos, ◌+ℤ◌, ◌≤ℤ◌, ◌<ℤ◌, -ℤ_parts, +ℤ_parts, List, [], ◌∷◌, ◌≡◌,
  All, is_empty, arith, if◌then◌else◌,
}
use iov_vehicle_tbox_tsp.Lifecycle.Clock.{KeyprovKl1Params}
use iov_vehicle_tbox_tsp.Lifecycle.Ledger.{
  KeyprovBudgetLedger, request_ok, status_ok, sec_query_ok, chain_ok, preconsume_request,
  preconsume_status, preconsume_sec_query, preconsume_ack, preconsume_freshen, preconsume_chain_id,
  reset_for_new_attempt,
}
use iov_vehicle_tbox_tsp.Lifecycle.Ledger.Usage.{
  LedgerUse, send_request, send_status, query_sec, send_ack, freshen, new_attempt, extend_chain,
  use_ledger, use_all,
}
use iov_vehicle_tbox_tsp.Lifecycle.Ledger.Bounds.{IsSane}

abbrev pub within_attempt : LedgerUse → Bool
within_attempt new_attempt = false
within_attempt _ = true

abbrev pub names_successor : LedgerUse → Bool
names_successor (extend_chain c) = if is_empty c then false else true
names_successor _ = true

-- The windows that have begun, with their starts.
pub record IsStarted (p : KeyprovKl1Params) (t : ℤ) (l : KeyprovBudgetLedger) : Type 0 where
  pub some_sent : 0 < l.request_send_count
  pub in_limit : l.request_send_count ≤ p.request_limit
  pub at_first : l.first_request_at_ms ≡ t

pub record IsReading (p : KeyprovKl1Params) (t : ℤ) (l : KeyprovBudgetLedger) : Type 0 where
  pub some_status : 0 < l.status_send_count
  pub some_query : 0 < l.sec_query_count
  pub status_limit : l.status_send_count ≤ p.readonly_limit
  pub query_limit : l.sec_query_count ≤ p.readonly_limit
  pub at_first : l.first_readonly_at_ms ≡ t

pub record IsChained (t : ℤ) (l : KeyprovBudgetLedger) : Type 0 where
  pub named : is_empty l.chain_id ≡ false
  pub at_first : l.chain_started_at_ms ≡ t

module _ (p : KeyprovKl1Params) (s : IsSane p) (t : ℤ) where
  use_ledger-IsStarted :
      (l : KeyprovBudgetLedger) (now : ℤ) (u : LedgerUse)
      → within_attempt u ≡ true
      → IsStarted p t l
      → IsStarted p t (use_ledger p l (now, u))
  unfolding use_ledger request_ok preconsume_request preconsume_status preconsume_sec_query
      preconsume_ack preconsume_freshen preconsume_chain_id
  use_ledger-IsStarted l now send_request a w = ground arith
  use_ledger-IsStarted l now send_status a w = ground arith
  use_ledger-IsStarted l now query_sec a w = ground arith
  use_ledger-IsStarted l now send_ack a w = ground arith
  use_ledger-IsStarted l now freshen a w = ground arith
  use_ledger-IsStarted l now new_attempt a w = cc
  use_ledger-IsStarted l now (extend_chain c) a w = ground arith

  use_all-IsStarted :
      (l : KeyprovBudgetLedger) (us : List (ℤ × LedgerUse))
      → All (λ u. within_attempt u.1 ≡ true) us
      → IsStarted p t l
      → IsStarted p t (use_all p l us)
  unfolding use_all
  use_all-IsStarted l [] a w = w
  use_all-IsStarted l ((now, u) ∷ us) a w =
      use_all-IsStarted (use_ledger p l (now, u)) us a.1 (use_ledger-IsStarted l now u a.0 w)

  -- The first request of an attempt, sent at t > 0, fixes its window: after any further uses within
  -- the attempt, also with a clock that goes back, a request is allowed only before t + window.
  pub request_window :
      (l : KeyprovBudgetLedger) (us : List (ℤ × LedgerUse)) (now : ℤ)
      → pos 0 <ℤ t
      → IsStarted p t l
      → All (λ u. within_attempt u.1 ≡ true) us
      → request_ok p now (use_all p l us) ≡ true
      → now <ℤ t +ℤ pos p.request_window_ms
  unfolding request_ok
  request_window l us now h w a r =
      let v = use_all-IsStarted l us a w in
      ground (arith, v, v.at_first, -ℤ_parts now t, +ℤ_parts t (pos p.request_window_ms))

  use_ledger-IsReading :
      (l : KeyprovBudgetLedger) (now : ℤ) (u : LedgerUse)
      → within_attempt u ≡ true
      → IsReading p t l
      → IsReading p t (use_ledger p l (now, u))
  unfolding use_ledger status_ok sec_query_ok preconsume_request preconsume_status
      preconsume_sec_query preconsume_ack preconsume_freshen preconsume_chain_id
  use_ledger-IsReading l now send_request a w = ground arith
  use_ledger-IsReading l now send_status a w = ground arith
  use_ledger-IsReading l now query_sec a w = ground arith
  use_ledger-IsReading l now send_ack a w = ground arith
  use_ledger-IsReading l now freshen a w = ground arith
  use_ledger-IsReading l now new_attempt a w = cc
  use_ledger-IsReading l now (extend_chain c) a w = ground arith

  use_all-IsReading :
      (l : KeyprovBudgetLedger) (us : List (ℤ × LedgerUse))
      → All (λ u. within_attempt u.1 ≡ true) us
      → IsReading p t l
      → IsReading p t (use_all p l us)
  unfolding use_all
  use_all-IsReading l [] a w = w
  use_all-IsReading l ((now, u) ∷ us) a w =
      use_all-IsReading (use_ledger p l (now, u)) us a.1 (use_ledger-IsReading l now u a.0 w)

  -- With sane limits (`IsSane`), and a window start t > 0: once a status request and a SEC query have both
  -- been reserved within the limits, the read-only window is fixed for the attempt: after any uses that
  -- begin no new attempt, no read-only step of either kind is allowed from t + window on.
  pub readonly_window :
      (l : KeyprovBudgetLedger) (us : List (ℤ × LedgerUse)) (now : ℤ)
      → pos 0 <ℤ t
      → IsReading p t l
      → All (λ u. within_attempt u.1 ≡ true) us
      → t +ℤ pos p.readonly_window_ms ≤ℤ now
      → (status_ok p now (use_all p l us) ≡ false) × (sec_query_ok p now (use_all p l us) ≡ false)
  unfolding status_ok sec_query_ok
  readonly_window l us now h w a late =
      let v = use_all-IsReading l us a w in
      ground (arith, v, v.at_first, -ℤ_parts now t, +ℤ_parts t (pos p.readonly_window_ms))

module _ (p : KeyprovKl1Params) (t : ℤ) where
  use_ledger-IsChained :
      (l : KeyprovBudgetLedger) (now : ℤ) (u : LedgerUse)
      → names_successor u ≡ true
      → IsChained t l
      → IsChained t (use_ledger p l (now, u))
  unfolding use_ledger preconsume_request preconsume_status preconsume_sec_query preconsume_ack
      preconsume_freshen preconsume_chain_id reset_for_new_attempt
  use_ledger-IsChained l now send_request a w = ground arith
  use_ledger-IsChained l now send_status a w = ground arith
  use_ledger-IsChained l now query_sec a w = ground arith
  use_ledger-IsChained l now send_ack a w = ground arith
  use_ledger-IsChained l now freshen a w = ground arith
  use_ledger-IsChained l now new_attempt a w = ground arith
  use_ledger-IsChained l now (extend_chain c) a w = ground arith

  use_all-IsChained :
      (l : KeyprovBudgetLedger) (us : List (ℤ × LedgerUse))
      → All (λ u. names_successor u.1 ≡ true) us
      → IsChained t l
      → IsChained t (use_all p l us)
  unfolding use_all
  use_all-IsChained l [] a w = w
  use_all-IsChained l ((now, u) ∷ us) a w =
      use_all-IsChained (use_ledger p l (now, u)) us a.1 (use_ledger-IsChained l now u a.0 w)

  -- The recovery chain's window, begun at t > 0, outlives every new attempt: whatever is used, with
  -- successors that have a name, no further request id is allowed from t + window on.
  pub chain_window :
      (l : KeyprovBudgetLedger) (us : List (ℤ × LedgerUse)) (now : ℤ)
      → pos 0 <ℤ t
      → IsChained t l
      → All (λ u. names_successor u.1 ≡ true) us
      → t +ℤ pos p.chain_window_ms ≤ℤ now
      → chain_ok p now (use_all p l us) ≡ false
  unfolding chain_ok
  chain_window l us now h w a late =
      let v = use_all-IsChained l us a w in
      ground (arith, v, v.at_first, -ℤ_parts now t, +ℤ_parts t (pos p.chain_window_ms))

-- The two read-only budgets share one start. The first SEC query moves it, also when status requests
-- have begun the window before: at every time before its own now + window a status request is then
-- allowed again, although the window of the first status request may long have passed.
pub sec_query_restarts_window :
    (p : KeyprovKl1Params) (l : KeyprovBudgetLedger) (now later : ℤ)
    → l.sec_query_count ≡ 0
    → l.status_send_count < p.readonly_limit
    → later <ℤ now +ℤ pos p.readonly_window_ms
    → status_ok p later (preconsume_sec_query p now l) ≡ true
unfolding status_ok preconsume_sec_query
sec_query_restarts_window p l now later q s h =
    ground (arith, -ℤ_parts later now, +ℤ_parts now (pos p.readonly_window_ms))
