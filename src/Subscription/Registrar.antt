-- ===== src/Subscription/Registrar.antt =====
-- src/subscription_registrar.cpp. Each call runs under `submit_mutex_`, so that it is one step, but for the
-- connection check, which has two. What it
-- reads from outside (the daemon's answer and connection, the clock, `rand`) is a `Moment`; the reads
-- of the clock in one call give one time.
pub mod Backoff
pub mod Changes
pub mod Submission
pub mod Runs
pub mod Restart
use iov_vehicle_tbox_tsp.Prelude.{
  ℕ, zero, suc, ◌+◌, ◌-◌, ◌*◌, ◌/◌, ◌%◌, List, [], Bool, true, false, not, ◌&&◌, ◌||◌, Option, none,
  some, Text, codes, text_eq, ◌==◌, ltb, leb, u32, u64, length, if◌then◌else◌,
}
use iov_vehicle_tbox_tsp.Subscription.Types.{
  SubscriptionItem, SubscriptionSnapshot, empty_snapshot, SnapshotStatus, accepted, rejected,
  unknown, is_accepted, ReplaceSnapshotResult, not_registered, registering, registered, degraded,
  is_registered, RegistrationStatus,
}
use iov_vehicle_tbox_tsp.Subscription.Catalog.{validate, SubscriptionCatalog, replace}
use iov_vehicle_tbox_tsp.Subscription.Builder.{build}
use iov_vehicle_tbox_tsp.Subscription.Store.{SubscriptionStore, load, save}
use iov_vehicle_tbox_tsp.Subscription.RegistrationState.{
  initial_status, transition_to, set_generation, set_result, increment_retry, reset_retry,
}

abbrev pub backoff_initial_ms : ℕ
backoff_initial_ms = 200

abbrev pub backoff_max_ms : ℕ
backoff_max_ms = 5000

-- `rand` is what `std::rand` returned.
unfoldable pub jitter : ℕ → ℕ → ℕ
jitter rand base = if base == 0 then 0 else rand % (base / 2 + 1)

-- The loop of `current_backoff_ms` with the rounds left.
unfoldable pub backoff_from : ℕ → ℕ → ℕ
backoff_from zero base = base
backoff_from (suc rounds) base =
    let rest = backoff_from rounds (if ltb 5000 (base * 2) then 5000 else base * 2) in
    if ltb base 5000 then rest else base

unfoldable pub current_backoff_ms : ℕ → ℕ → ℕ
current_backoff_ms rand retry_count =
    let base = backoff_from (retry_count - 1) 200 in
    if ltb 5000 (base + jitter rand base) then 5000 else base + jitter rand base

pub record Moment : Type 0 where
  pub now : ℕ
  pub rand : ℕ
  pub connected : Bool
  pub reply : ReplaceSnapshotResult

pub record Registrar : Type 0 where
  pub catalog : SubscriptionCatalog
  pub store : SubscriptionStore
  pub status : RegistrationStatus
  pub current_snapshot : SubscriptionSnapshot
  pub accepted_generation : ℕ
  pub accepted_digest : Text
  pub last_result : ReplaceSnapshotResult
  pub retry_count : ℕ
  pub next_retry_ms : ℕ
  pub submitted_once : Bool
  pub running : Bool
  pub last_connected : Bool

abbrev pub no_result : ReplaceSnapshotResult
no_result = record {
  status = unknown;
  accepted_generation = 0;
  rejected_route_ids = [];
  reason_code = [];
}

unfoldable pub new_registrar : SubscriptionCatalog → SubscriptionStore → Registrar
new_registrar catalog store = record {
  catalog = catalog;
  store = store;
  status = initial_status;
  current_snapshot = empty_snapshot;
  accepted_generation = 0;
  accepted_digest = [];
  last_result = no_result;
  retry_count = 0;
  next_retry_ms = 0;
  submitted_once = false;
  running = false;
  last_connected = false;
}

unfoldable pub schedule_retry : Moment → Registrar → Registrar
schedule_retry m r =
    let count = u32 (r.retry_count + 1) in
    record r {
      retry_count = count;
      next_retry_ms = u64 (m.now + current_backoff_ms m.rand count);
      status = increment_retry m.now r.status;
    }

-- `submit_snapshot_locked` after the daemon answered.
unfoldable pub take_reply :
    ℕ → SubscriptionSnapshot → ReplaceSnapshotResult → SnapshotStatus → Registrar → Registrar
take_reply now snap reply accepted r = record r {
  last_result = reply;
  accepted_generation = snap.generation;
  accepted_digest = snap.content_digest;
  retry_count = 0;
  next_retry_ms = 0;
  status = transition_to now registered (reset_retry now (set_result now accepted [] r.status));
}
take_reply now snap reply unknown r = record r {
  last_result = reply;
  status = increment_retry now (set_result now unknown reply.reason_code r.status);
}
take_reply now snap reply rejected r = record r {
  last_result = reply;
  status =
      increment_retry now
        (transition_to now degraded (set_result now rejected reply.reason_code r.status));
}

unfoldable pub has_digest_conflict : SubscriptionSnapshot → Registrar → Bool
has_digest_conflict snap r =
    r.accepted_generation == snap.generation
    && ltb 0 r.accepted_generation
    && not (text_eq r.accepted_digest snap.content_digest)

unfoldable pub submit_snapshot :
    Moment → SubscriptionSnapshot → Registrar → Registrar × SnapshotStatus
submit_snapshot m snap r =
    if has_digest_conflict snap r
    then (
      record r {
        last_result = record (r.last_result) {
          status = rejected;
          reason_code = codes "digest_conflict";
        };
        status =
            transition_to m.now degraded
              (set_result m.now rejected (codes "digest_conflict") r.status);
      },
      rejected,
    )
    else (take_reply m.now snap m.reply m.reply.status r, m.reply.status)

-- Submit, and schedule a retry unless the snapshot was accepted.
unfoldable pub submit_or_schedule : Moment → SubscriptionSnapshot → Registrar → Registrar
submit_or_schedule m snap r =
    let submitted =
      submit_snapshot m snap (record r { status = transition_to m.now registering r.status }) in
    if is_accepted submitted.1 then submitted.0 else schedule_retry m submitted.0

unfoldable pub stop : Moment → Registrar → Registrar
stop m r = record r { running = false; status = transition_to m.now not_registered r.status }

-- The connection is back.
unfoldable pub is_back : Moment → Registrar → Bool
is_back m r = m.connected && not r.last_connected

-- `check_connection_and_retry`, which `tick` and the monitor thread call, has two steps: it notes the
-- connection under monitor_mutex_ (a loss also under submit_mutex_), and then submits under
-- submit_mutex_, if the connection is back or a retry is due.
unfoldable pub note_connection : Moment → Registrar → Registrar
note_connection m r =
    if not m.connected && r.last_connected
    then record r {
      last_connected = m.connected;
      status = transition_to m.now not_registered r.status;
    }
    else record r { last_connected = m.connected }

-- `back` is what the first step found; other threads may have come between.
unfoldable pub retry_connection : Moment → Bool → Registrar → Registrar
retry_connection m back r =
    if back || (m.connected && (not (is_registered r.status.state) && leb r.next_retry_ms m.now))
    then submit_or_schedule m r.current_snapshot r
    else r

unfoldable pub check_connection_and_retry : Moment → Registrar → Registrar
check_connection_and_retry m r = retry_connection m (is_back m r) (note_connection m r)

abbrev pub owner : Text
owner = codes "tsp"

module _ (sha256_hex : Text → Text) where
  -- The snapshot of some items over what the store holds.
  unfoldable pub candidate : Registrar → List SubscriptionItem → SubscriptionSnapshot
  candidate r items = build sha256_hex items owner (load r.store).generation (load r.store).digest

  -- `start` up to the first submission.
  unfoldable pub restore : Moment → Registrar → Registrar
  restore m r =
      let snap = candidate r r.catalog.items in
      record r {
        current_snapshot = snap;
        store = save r.store snap.generation snap.content_digest;
        status =
            set_generation m.now snap.generation snap.content_digest r.catalog.mandatory_count
              (u32 (length snap.items)) r.status;
      }

  unfoldable pub start : Moment → Bool → Registrar → Registrar
  start m start_monitor r =
      let restored = restore m r in
      let submitted = submit_or_schedule m restored.current_snapshot restored in
      record submitted {
        submitted_once = true;
        last_connected = m.connected;
        running = if start_monitor then true else submitted.running;
      }

  -- A changed directory becomes the current one.
  unfoldable pub switch_to :
      Moment → List SubscriptionItem → SubscriptionSnapshot → Registrar → Registrar
  switch_to m items snap r = record r {
    catalog = replace items;
    current_snapshot = snap;
    store = save r.store snap.generation snap.content_digest;
    status =
        set_generation m.now snap.generation snap.content_digest (replace items).mandatory_count
          (u32 (length snap.items)) r.status;
  }

  unfoldable pub after_change :
      Moment → List SubscriptionItem → SubscriptionSnapshot → Registrar × SnapshotStatus → Registrar
  after_change m items snap (r, accepted) = switch_to m items snap r
  after_change m items snap (r, unknown) = schedule_retry m (switch_to m items snap r)
  after_change m items snap (r, rejected) = schedule_retry m r

  unfoldable pub apply_catalog_change :
      Moment → List SubscriptionItem → Registrar → Registrar × Bool
  apply_catalog_change m items r =
      let snap = candidate r items in
      elim (validate items) [
        | some error ↦ (r, false)
        | none ↦
            if text_eq snap.content_digest r.current_snapshot.content_digest then (r, true) else (
              after_change m items snap (
                  submit_snapshot m snap
                    (record r { status = transition_to m.now registering r.status })),
              true,
            )
      ]

abbrev pub is_registration_ready : Registrar → Bool
is_registration_ready r = r.submitted_once
