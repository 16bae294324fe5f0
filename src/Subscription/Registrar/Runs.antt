-- ===== src/Subscription/Registrar/Runs.antt =====
-- The registrar's operations keep it consistent.
use iov_vehicle_tbox_tsp.Prelude.{
  List, [], ◌∷◌, Bool, false, not, ◌&&◌, ◌||◌, ◌≡◌, ◌⊎◌, refl, inl, inr, Text, text_eq, leb,
  Bool-cases, Option-cases,
}
use iov_vehicle_tbox_tsp.Subscription.Types.{
  SubscriptionItem, SubscriptionSnapshot, SnapshotStatus, accepted, rejected, unknown, is_accepted,
  not_registered, is_registered,
}
use iov_vehicle_tbox_tsp.Subscription.Catalog.{validate}
use iov_vehicle_tbox_tsp.Subscription.RegistrationState.{
  transition_to, set_generation, increment_retry,
}
use iov_vehicle_tbox_tsp.Subscription.Registrar.{
  Moment, Registrar, schedule_retry, submit_snapshot, stop, is_back, note_connection,
  retry_connection, check_connection_and_retry, candidate, restore, start, switch_to, after_change,
  apply_catalog_change,
}
use iov_vehicle_tbox_tsp.Subscription.Registrar.Changes.{
  begun, apply_invalid, apply_unchanged, apply_submits,
}
use iov_vehicle_tbox_tsp.Subscription.Registrar.Submission.{
  RegisteredIsAccepted, ShowsCurrent, IsConsistent, Taken, save_twice, not_registered_yet,
  submit-ShowsCurrent, submit_snapshot_lem, schedule-ShowsCurrent, schedule_state,
  submit_or_schedule-IsConsistent,
}

stop-IsConsistent : (m : Moment) (r : Registrar) → ShowsCurrent r → IsConsistent (stop m r)
unfolding stop ShowsCurrent transition_to
stop-IsConsistent m r h = (not_registered_yet (stop m r) not_registered refl refl, h)

note-IsConsistent :
    (m : Moment) (r : Registrar) → IsConsistent r → IsConsistent (note_connection m r)
unfolding note_connection
note-IsConsistent m r h = elim (Bool-cases (not m.connected && r.last_connected)) [
  | inl lost ↦ rw lost (
    not_registered_yet _ not_registered (unfold transition_to in refl) refl,
    unfold ShowsCurrent transition_to in h.1,
  )
  | inr steady ↦ rw steady (unfold RegisteredIsAccepted in h.0, unfold ShowsCurrent in h.1)
]

retry-IsConsistent :
    (m : Moment) (back : Bool) (r : Registrar)
    → IsConsistent r
    → IsConsistent (retry_connection m back r)
unfolding retry_connection
retry-IsConsistent m back r h =
    elim (Bool-cases (
      back || (m.connected && (not (is_registered r.status.state) && leb r.next_retry_ms m.now)))) [
        | inl due ↦ rw due (submit_or_schedule-IsConsistent m r h.1)
        | inr waiting ↦ rw waiting h
      ]

module _ (sha256_hex : Text → Text) where
  restore-ShowsCurrent : (m : Moment) (r : Registrar) → ShowsCurrent (restore sha256_hex m r)
  unfolding restore ShowsCurrent set_generation
  restore-ShowsCurrent m r = (save_twice r.store _ _, (refl, refl))

  start-IsConsistent :
      (m : Moment) (monitor : Bool) (r : Registrar) → IsConsistent (start sha256_hex m monitor r)
  unfolding start
  start-IsConsistent m monitor r =
      let h =
        submit_or_schedule-IsConsistent m (restore sha256_hex m r) (restore-ShowsCurrent m r) in
      (unfold RegisteredIsAccepted in h.0, unfold ShowsCurrent in h.1)

  switch_to-ShowsCurrent :
      (m : Moment) (items : List SubscriptionItem) (snap : SubscriptionSnapshot) (r : Registrar)
      → ShowsCurrent (switch_to sha256_hex m items snap r)
  unfolding switch_to ShowsCurrent set_generation
  switch_to-ShowsCurrent m items snap r = (save_twice r.store _ _, (refl, refl))

  after_change-IsConsistent :
      (m : Moment) (items : List SubscriptionItem) (snap : SubscriptionSnapshot)
      (p : Registrar × SnapshotStatus)
      → ShowsCurrent p.0
      → ((p.1 ≡ accepted) × Taken snap p.0)
        ⊎ ((is_accepted p.1 ≡ false) × (is_registered p.0.status.state ≡ false))
      → IsConsistent (after_change sha256_hex m items snap p)
  unfolding after_change
  after_change-IsConsistent m items snap (r, accepted) shows (inl taken) = (
    unfold RegisteredIsAccepted Taken switch_to set_generation in inr taken.1.1,
    switch_to-ShowsCurrent m items snap r,
  )
  after_change-IsConsistent m items snap (r, accepted) shows (inr refused) = cc
  after_change-IsConsistent m items snap (r, unknown) shows (inl taken) = cc
  after_change-IsConsistent m items snap (r, unknown) shows (inr refused) = (
    not_registered_yet _ r.status.state
        (unfold schedule_retry switch_to set_generation increment_retry in refl) refused.1,
    schedule-ShowsCurrent m _ (switch_to-ShowsCurrent m items snap r),
  )
  after_change-IsConsistent m items snap (r, rejected) shows (inl taken) = cc
  after_change-IsConsistent m items snap (r, rejected) shows (inr refused) = (
    not_registered_yet _ r.status.state (schedule_state m r) refused.1,
    schedule-ShowsCurrent m r shows,
  )

  apply-IsConsistent :
      (m : Moment) (items : List SubscriptionItem) (r : Registrar)
      → IsConsistent r
      → IsConsistent (apply_catalog_change sha256_hex m items r).0
  apply-IsConsistent m items r h =
      let snap = candidate sha256_hex r items in
      elim (Option-cases (validate items)) [
        | inl valid ↦
            elim (Bool-cases (text_eq snap.content_digest r.current_snapshot.content_digest)) [
              | inl same ↦ rw (apply_unchanged sha256_hex m items r valid same) h
              | inr changed ↦ rw (apply_submits sha256_hex m items r valid changed) (
                  after_change-IsConsistent m items snap (submit_snapshot m snap (begun m r))
                    (submit-ShowsCurrent m snap r h.1) (submit_snapshot_lem m snap r))
            ]
        | inr invalid ↦ rw (apply_invalid sha256_hex m items r invalid.0 invalid.1) h
      ]

-- An operation with what it reads from outside.
pub data Op : Type 0 where
  do_start : Moment → Bool → Op
  do_stop : Moment → Op
  do_note : Moment → Op
  do_retry : Moment → Bool → Op
  do_tick : Moment → Op
  do_change : Moment → List SubscriptionItem → Op

unfoldable pub run : (Text → Text) → Op → Registrar → Registrar
run sha256_hex (do_start m monitor) r = start sha256_hex m monitor r
run sha256_hex (do_stop m) r = stop m r
run sha256_hex (do_note m) r = note_connection m r
run sha256_hex (do_retry m back) r = retry_connection m back r
run sha256_hex (do_tick m) r = check_connection_and_retry m r
run sha256_hex (do_change m items) r = (apply_catalog_change sha256_hex m items r).0

unfoldable pub run_all : (Text → Text) → List Op → Registrar → Registrar
run_all sha256_hex [] r = r
run_all sha256_hex (op ∷ ops) r = run_all sha256_hex ops (run sha256_hex op r)

run-IsConsistent :
    (sha256_hex : Text → Text) (op : Op) (r : Registrar)
    → IsConsistent r
    → IsConsistent (run sha256_hex op r)
unfolding run check_connection_and_retry
run-IsConsistent sha (do_start m monitor) r h = start-IsConsistent sha m monitor r
run-IsConsistent sha (do_stop m) r h = stop-IsConsistent m r h.1
run-IsConsistent sha (do_note m) r h = note-IsConsistent m r h
run-IsConsistent sha (do_retry m back) r h = retry-IsConsistent m back r h
run-IsConsistent sha (do_tick m) r h =
    retry-IsConsistent m (is_back m r) (note_connection m r) (note-IsConsistent m r h)
run-IsConsistent sha (do_change m items) r h = apply-IsConsistent sha m items r h

run_all_keeps :
    (sha256_hex : Text → Text) (ops : List Op) (r : Registrar)
    → IsConsistent r
    → IsConsistent (run_all sha256_hex ops r)
unfolding run_all
run_all_keeps sha [] r h = h
run_all_keeps sha (op ∷ ops) r h =
    run_all_keeps sha ops (run sha op r) (run-IsConsistent sha op r h)

-- After a start and any sequence of starts, stops, connection checks, whole or with other operations
-- between their two steps, and changes of the directory, whatever the daemon answers: the registrar is registered only if the daemon accepted exactly the
-- current snapshot, and the store, where it is ready, and the published status hold the current
-- generation and digest.
pub run_all-IsConsistent :
    (sha256_hex : Text → Text) (m : Moment) (monitor : Bool) (ops : List Op) (r : Registrar)
    → IsConsistent (run_all sha256_hex ops (start sha256_hex m monitor r))
run_all-IsConsistent sha m monitor ops r =
    run_all_keeps sha ops _ (start-IsConsistent sha m monitor r)
