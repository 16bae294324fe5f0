-- ===== src/Subscription/Registrar/Submission.antt =====
-- What the registrar keeps consistent, and how a submission does so.
use iov_vehicle_tbox_tsp.Prelude.{ℕ, false, ◌≡◌, ◌⊎◌, refl, inl, inr, Text, Bool-cases}
use iov_vehicle_tbox_tsp.Subscription.Types.{
  SubscriptionSnapshot, SnapshotStatus, accepted, rejected, unknown, is_accepted,
  ReplaceSnapshotResult, RegistrationState, registered, is_registered,
}
use iov_vehicle_tbox_tsp.Subscription.Store.{SubscriptionStore, save}
use iov_vehicle_tbox_tsp.Subscription.RegistrationState.{
  transition_to, set_result, increment_retry, reset_retry,
}
use iov_vehicle_tbox_tsp.Subscription.Registrar.{
  Moment, Registrar, schedule_retry, take_reply, has_digest_conflict, submit_snapshot,
  submit_or_schedule,
}
use iov_vehicle_tbox_tsp.Subscription.Registrar.Changes.{begun}

-- Registered means that the daemon accepted the current snapshot.
unfoldable pub RegisteredIsAccepted : Registrar → Type 0
RegisteredIsAccepted r =
    (is_registered r.status.state ≡ false)
    ⊎ ((r.accepted_generation ≡ r.current_snapshot.generation)
        × ((r.accepted_digest ≡ r.current_snapshot.content_digest)
            × (r.last_result.status ≡ accepted)))

-- The store and the status show the current snapshot.
unfoldable pub ShowsCurrent : Registrar → Type 0
ShowsCurrent r =
    (save r.store r.current_snapshot.generation r.current_snapshot.content_digest ≡ r.store)
    × ((r.status.generation ≡ r.current_snapshot.generation)
        × (r.status.content_digest_hash ≡ r.current_snapshot.content_digest))

abbrev pub IsConsistent : Registrar → Type 0
IsConsistent r = RegisteredIsAccepted r × ShowsCurrent r

pub save_twice :
    (s : SubscriptionStore) (generation : ℕ) (digest : Text)
    → save (save s generation digest) generation digest ≡ save s generation digest
unfolding save
save_twice s g d = elim (Bool-cases s.ready) [ inl on ↦ rw on refl | inr off ↦ rw off refl ]

pub not_registered_yet :
    (r : Registrar) (s : RegistrationState)
    → r.status.state ≡ s
    → is_registered s ≡ false
    → RegisteredIsAccepted r
unfolding RegisteredIsAccepted
not_registered_yet r s e h = inl (rw e h)

-- A submission never changes what is stored and shown.
take_reply-ShowsCurrent :
    (now : ℕ) (snap : SubscriptionSnapshot) (reply : ReplaceSnapshotResult) (s : SnapshotStatus)
    (r : Registrar)
    → ShowsCurrent r
    → ShowsCurrent (take_reply now snap reply s r)
unfolding ShowsCurrent take_reply transition_to set_result increment_retry reset_retry
take_reply-ShowsCurrent now snap reply accepted r h = h
take_reply-ShowsCurrent now snap reply unknown r h = h
take_reply-ShowsCurrent now snap reply rejected r h = h

pub submit-ShowsCurrent :
    (m : Moment) (snap : SubscriptionSnapshot) (r : Registrar)
    → ShowsCurrent r
    → ShowsCurrent (submit_snapshot m snap (begun m r)).0
unfolding submit_snapshot
submit-ShowsCurrent m snap r h = elim (Bool-cases (has_digest_conflict snap (begun m r))) [
  | inl conflict ↦ rw conflict (unfold ShowsCurrent transition_to set_result in h)
  | inr clear ↦ rw clear (
      take_reply-ShowsCurrent m.now snap m.reply m.reply.status (begun m r)
        (unfold ShowsCurrent transition_to in h))
]

-- What a submission gives, in terms of its answer.
unfoldable pub Taken : SubscriptionSnapshot → Registrar → Type 0
Taken snap r =
    (r.status.state ≡ registered)
    × ((r.accepted_generation ≡ snap.generation)
        × ((r.accepted_digest ≡ snap.content_digest) × (r.last_result.status ≡ accepted)))

take_reply_lem :
    (now : ℕ) (snap : SubscriptionSnapshot) (reply : ReplaceSnapshotResult) (s : SnapshotStatus)
    (r : Registrar)
    → reply.status ≡ s
    → is_registered r.status.state ≡ false
    → ((s ≡ accepted) × Taken snap (take_reply now snap reply s r))
      ⊎ ((is_accepted s ≡ false)
          × (is_registered (take_reply now snap reply s r).status.state ≡ false))
unfolding Taken take_reply transition_to set_result increment_retry reset_retry
take_reply_lem now snap reply accepted r e h = inl (refl, (refl, (refl, (refl, e))))
take_reply_lem now snap reply unknown r e h = inr (refl, h)
take_reply_lem now snap reply rejected r e h = inr (refl, refl)

pub submit_snapshot_lem :
    (m : Moment) (snap : SubscriptionSnapshot) (r : Registrar)
    → (((submit_snapshot m snap (begun m r)).1 ≡ accepted)
        × Taken snap (submit_snapshot m snap (begun m r)).0)
      ⊎ ((is_accepted (submit_snapshot m snap (begun m r)).1 ≡ false)
          × (is_registered (submit_snapshot m snap (begun m r)).0.status.state ≡ false))
unfolding submit_snapshot
submit_snapshot_lem m snap r = elim (Bool-cases (has_digest_conflict snap (begun m r))) [
  | inl conflict ↦ rw conflict (inr (refl, unfold transition_to in refl))
  | inr clear ↦ rw clear (
      take_reply_lem m.now snap m.reply m.reply.status (begun m r) refl
        (unfold transition_to in refl))
]

pub schedule-ShowsCurrent :
    (m : Moment) (r : Registrar) → ShowsCurrent r → ShowsCurrent (schedule_retry m r)
unfolding ShowsCurrent schedule_retry increment_retry
schedule-ShowsCurrent m r h = h

Taken-IsAccepted :
    (snap : SubscriptionSnapshot) (r : Registrar)
    → r.current_snapshot ≡ snap
    → Taken snap r
    → RegisteredIsAccepted r
unfolding Taken RegisteredIsAccepted
Taken-IsAccepted snap r e h = inr (rw e (h.1))

take_reply_current :
    (now : ℕ) (snap : SubscriptionSnapshot) (reply : ReplaceSnapshotResult) (s : SnapshotStatus)
    (r : Registrar)
    → (take_reply now snap reply s r).current_snapshot ≡ r.current_snapshot
unfolding take_reply
take_reply_current now snap reply accepted r = refl
take_reply_current now snap reply unknown r = refl
take_reply_current now snap reply rejected r = refl

pub submit_current :
    (m : Moment) (snap : SubscriptionSnapshot) (r : Registrar)
    → (submit_snapshot m snap (begun m r)).0.current_snapshot ≡ r.current_snapshot
unfolding submit_snapshot
submit_current m snap r = elim (Bool-cases (has_digest_conflict snap (begun m r))) [
  | inl conflict ↦ rw conflict refl
  | inr clear ↦ rw clear (take_reply_current m.now snap m.reply m.reply.status (begun m r))
]

pub schedule_state :
    (m : Moment) (r : Registrar) → (schedule_retry m r).status.state ≡ r.status.state
unfolding schedule_retry increment_retry
schedule_state m r = refl

-- Submitting the current snapshot makes the registrar consistent.
pub submit_or_schedule-IsConsistent :
    (m : Moment) (r : Registrar)
    → ShowsCurrent r
    → IsConsistent (submit_or_schedule m r.current_snapshot r)
unfolding submit_or_schedule
submit_or_schedule-IsConsistent m r h =
    let p = submit_snapshot m r.current_snapshot (begun m r) in
    let shows = submit-ShowsCurrent m r.current_snapshot r h in
    elim (submit_snapshot_lem m r.current_snapshot r) [
      | inl taken ↦ rw (taken.0) (
        Taken-IsAccepted r.current_snapshot p.0 (submit_current m r.current_snapshot r) taken.1,
        shows,
      )
      | inr refused ↦ rw (refused.0) (
        not_registered_yet (schedule_retry m p.0) p.0.status.state (schedule_state m p.0) refused.1,
        schedule-ShowsCurrent m p.0 shows,
      )
    ]
