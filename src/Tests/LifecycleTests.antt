-- ===== src/Tests/LifecycleTests.antt =====
-- The lifecycle theorems at concrete inputs: a healthy clock and a fresh response.
use iov_vehicle_tbox_tsp.Prelude.{
  ◌≡◌, ◌<ℤ◌, ◌+ℤ◌, ◌-ℤ◌, refl, inl, true, false, List, [], ◌∷◌, ℤ, pos, arith, codes,
}
use iov_vehicle_tbox_tsp.Tests.Data.{fresh_response}
use iov_vehicle_tbox_tsp.Lifecycle.Clock.{
  default_params, keyprov_clock_healthy, utc_upper, keyprov_lease_acceptable, keyprov_lease_expired,
}
use iov_vehicle_tbox_tsp.Lifecycle.Decide.{
  KeyprovLifecycleInput, keyprov_lifecycle_decide, decide_evidence, decide_release, decide_response,
  decide_default, import, restore_original_ack, expired_or_too_short, releasable_unspecified,
}
use iov_vehicle_tbox_tsp.Lifecycle.Decide.Stages.{IsAdmitted}
use iov_vehicle_tbox_tsp.Lifecycle.Decide.Effects.{
  effect-IsAdmitted, import-IsImportable, successor-IsReleased, restore_ack_iff, IsImportable,
  IsReleased,
}
use iov_vehicle_tbox_tsp.Lifecycle.Ledger.{
  KeyprovBudgetLedger, empty_ledger, request_ok, status_ok, sec_query_ok, chain_ok,
  preconsume_sec_query,
}
use iov_vehicle_tbox_tsp.Lifecycle.Ledger.Usage.{LedgerUse, use_all}
use iov_vehicle_tbox_tsp.Lifecycle.Ledger.Bounds.{IsSane, IsWithin, use_all-IsWithin}
use iov_vehicle_tbox_tsp.Lifecycle.Ledger.Windows.{
  request_window, readonly_window, chain_window, sec_query_restarts_window,
}

abbrev no_response : KeyprovLifecycleInput
no_response = record fresh_response { payload_present = false }

abbrev committed : KeyprovLifecycleInput
committed = record no_response { sec_committed = true; cloud_status = pos 3 }

abbrev cloud_failed : KeyprovLifecycleInput
cloud_failed = record no_response { no_side_effect_proven = true; cloud_status = pos 5 }

effect-IsAdmitted_example : IsAdmitted no_response
unfolding keyprov_lifecycle_decide decide_evidence decide_release decide_response decide_default
    keyprov_clock_healthy releasable_unspecified expired_or_too_short
effect-IsAdmitted_example = effect-IsAdmitted no_response refl

importable : IsImportable fresh_response
unfolding utc_upper ◌+ℤ◌
importable = record {
  present = refl;
  payload = refl;
  envelope = refl;
  binding = refl;
  epoch = refl;
  once = refl;
  idle = refl;
  lease = omega arith;
}

importable_runs : keyprov_lifecycle_decide fresh_response ≡ import
unfolding keyprov_lifecycle_decide decide_evidence decide_release decide_response
    keyprov_clock_healthy releasable_unspecified expired_or_too_short utc_upper ◌+ℤ◌ ◌-ℤ◌
    keyprov_lease_expired keyprov_lease_acceptable
importable_runs = refl

import-IsImportable_example : IsAdmitted fresh_response × IsImportable fresh_response
import-IsImportable_example = import-IsImportable fresh_response importable_runs

successor-IsReleased_example : IsAdmitted cloud_failed × IsReleased cloud_failed
unfolding keyprov_lifecycle_decide decide_evidence decide_release keyprov_clock_healthy
    releasable_unspecified
successor-IsReleased_example = successor-IsReleased cloud_failed (inl refl)

restore_ack_iff_example : keyprov_lifecycle_decide committed ≡ restore_original_ack
unfolding keyprov_clock_healthy utc_upper ◌+ℤ◌
restore_ack_iff_example = (restore_ack_iff committed).1 (
  record {
    valid = refl;
    bound = refl;
    live = refl;
    no_conflict = refl;
    healthy = refl;
    trusted = refl;
    contract = refl;
    sec_contract = refl;
    sec_known = refl;
  },
  inl refl,
  record { committed = refl; awaited = refl; budget = refl; in_time = omega arith },
)

sane : IsSane default_params
sane = record {
  request = omega arith;
  readonly = omega arith;
  ack = omega arith;
  chain = omega arith;
}

abbrev history : List (ℤ × LedgerUse)
history =
    (pos 1000, LedgerUse.send_request)
    ∷ (pos 900, LedgerUse.freshen)
    ∷ (pos 2000, LedgerUse.extend_chain (codes "kp-2"))
    ∷ []

use_all-IsWithin_example : IsWithin default_params (use_all default_params empty_ledger history)
use_all-IsWithin_example = use_all-IsWithin default_params sane empty_ledger history (record {
  requests = omega arith;
  statuses = omega arith;
  queries = omega arith;
  acks = omega arith;
  freshens = omega arith;
  chained = omega arith;
})

-- A ledger after a first request, a first status request, a first SEC query and a chain's start.
abbrev used_ledger : KeyprovBudgetLedger
used_ledger = record empty_ledger {
  request_send_count = 1;
  first_request_at_ms = pos 1000;
  status_send_count = 1;
  sec_query_count = 1;
  first_readonly_at_ms = pos 1000;
  chain_id = codes "kp-1";
  chain_started_at_ms = pos 1000;
  chain_request_id_count = 1;
}

request_window_example : pos 5000 <ℤ pos 1000 +ℤ pos 120000
unfolding request_ok use_all ◌-ℤ◌
request_window_example =
    request_window default_params sane (pos 1000) used_ledger [] (pos 5000) (omega arith)
      (record { some_sent = omega arith; in_limit = omega arith; at_first = refl }) tt refl

readonly_window_example :
    (status_ok default_params (pos 301000) (use_all default_params used_ledger history) ≡ false)
    × (sec_query_ok default_params (pos 301000) (use_all default_params used_ledger history)
        ≡ false)
unfolding ◌+ℤ◌
readonly_window_example =
    readonly_window default_params sane (pos 1000) used_ledger history (pos 301000) (omega arith)
      (record {
        some_status = omega arith;
        some_query = omega arith;
        status_limit = omega arith;
        query_limit = omega arith;
        at_first = refl;
      })
      (refl, (refl, (refl, tt))) (omega arith)

chain_window_example :
    chain_ok default_params (pos 601000) (use_all default_params used_ledger history) ≡ false
unfolding ◌+ℤ◌
chain_window_example =
    chain_window default_params (pos 1000) used_ledger history (pos 601000) (omega arith)
      (record { named = refl; at_first = refl }) (refl, (refl, (refl, tt))) (omega arith)

-- The window of a status request sent at 1000 had passed at 301000; a SEC query at 300000 reopens it.
sec_query_restarts_window_example :
    status_ok default_params (pos 301000) (
      preconsume_sec_query default_params (pos 300000) (record used_ledger { sec_query_count = 0 }))
    ≡ true
unfolding ◌+ℤ◌
sec_query_restarts_window_example =
    sec_query_restarts_window default_params (record used_ledger { sec_query_count = 0 })
      (pos 300000) (pos 301000) refl (omega arith) (omega arith)
