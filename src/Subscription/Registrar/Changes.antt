-- ===== src/Subscription/Registrar/Changes.antt =====
-- A change of the directory while the registrar runs.
use iov_vehicle_tbox_tsp.Prelude.{
  List, true, false, ◌≡◌, ◌≢◌, ◌⊎◌, refl, ◌∙◌, inl, inr, none, some, Text, text_eq, Bool-cases,
  Option-cases, arith, text_eq_iff,
}
use iov_vehicle_tbox_tsp.Subscription.Types.{
  SubscriptionItem, SubscriptionSnapshot, SnapshotStatus, accepted, rejected, unknown, registering,
  degraded,
}
use iov_vehicle_tbox_tsp.Subscription.Catalog.{validate}
use iov_vehicle_tbox_tsp.Subscription.Builder.{compute_digest, build}
use iov_vehicle_tbox_tsp.Subscription.Store.{load}
use iov_vehicle_tbox_tsp.Subscription.RegistrationState.{transition_to, set_result, increment_retry}
use iov_vehicle_tbox_tsp.Subscription.Registrar.{
  Moment, Registrar, schedule_retry, take_reply, submit_snapshot, candidate, after_change,
  apply_catalog_change, has_digest_conflict,
}

-- What a change must not touch unless the daemon took it.
unfoldable pub SameDirectory : Registrar → Registrar → Type 0
SameDirectory r s =
    (s.catalog ≡ r.catalog)
    × ((s.store ≡ r.store)
        × ((s.current_snapshot ≡ r.current_snapshot)
            × ((s.accepted_generation ≡ r.accepted_generation)
                × (s.accepted_digest ≡ r.accepted_digest))))

SameDirectory-refl : (r : Registrar) → SameDirectory r r
unfolding SameDirectory
SameDirectory-refl r = (refl, (refl, (refl, (refl, refl))))

text_ne : (s t : Text) → text_eq s t ≡ false → s ≢ t
text_ne s t differs same = let e = (text_eq_iff s t).1 same in cc

abbrev pub begun : Moment → Registrar → Registrar
begun m r = record r { status = transition_to m.now registering r.status }

submit-refuses :
    (m : Moment) (snap : SubscriptionSnapshot) (r : Registrar)
    → (has_digest_conflict snap (begun m r) ≡ true) ⊎ (m.reply.status ≡ rejected)
    → ((submit_snapshot m snap (begun m r)).1 ≡ rejected)
      × (SameDirectory r (submit_snapshot m snap (begun m r)).0
          × ((submit_snapshot m snap (begun m r)).0.status.state ≡ degraded))
unfolding submit_snapshot SameDirectory take_reply transition_to set_result increment_retry
submit-refuses m snap r (inl conflict) =
    rw conflict (refl, ((refl, (refl, (refl, (refl, refl)))), refl))
submit-refuses m snap r (inr e) = elim (Bool-cases (has_digest_conflict snap (begun m r))) [
  | inl conflict ↦ rw conflict (refl, ((refl, (refl, (refl, (refl, refl)))), refl))
  | inr clear ↦ rw (clear, e) (refl, ((refl, (refl, (refl, (refl, refl)))), refl))
]

after_change_refused :
    (sha256_hex : Text → Text) (m : Moment) (items : List SubscriptionItem)
    (snap : SubscriptionSnapshot) (p : Registrar × SnapshotStatus)
    → p.1 ≡ rejected
    → after_change sha256_hex m items snap p ≡ schedule_retry m p.0
unfolding after_change
after_change_refused sha m items snap (r, accepted) e = cc
after_change_refused sha m items snap (r, unknown) e = cc
after_change_refused sha m items snap (r, rejected) e = refl

schedule_keeps :
    (m : Moment) (r s : Registrar)
    → SameDirectory r s
    → SameDirectory r (schedule_retry m s) × ((schedule_retry m s).status.state ≡ s.status.state)
unfolding SameDirectory schedule_retry increment_retry
schedule_keeps m r s same = (same, refl)

module _ (sha256_hex : Text → Text) (m : Moment) (items : List SubscriptionItem)
    (r : Registrar) where
  pub apply_invalid :
      (error : Text)
      → validate items ≡ some error
      → apply_catalog_change sha256_hex m items r ≡ (r, false)
  unfolding apply_catalog_change
  apply_invalid error e = rw (e, apply_catalog_change) refl

  pub apply_unchanged :
      validate items ≡ none
      → text_eq (candidate sha256_hex r items).content_digest r.current_snapshot.content_digest
        ≡ true
      → apply_catalog_change sha256_hex m items r ≡ (r, true)
  unfolding apply_catalog_change
  apply_unchanged e same = rw (e, apply_catalog_change, same) refl

  pub apply_submits :
      validate items ≡ none
      → text_eq (candidate sha256_hex r items).content_digest r.current_snapshot.content_digest
        ≡ false
      → apply_catalog_change sha256_hex m items r ≡ (
        after_change sha256_hex m items
            (candidate sha256_hex r items)
            (submit_snapshot m (candidate sha256_hex r items) (begun m r)),
        true,
      )
  unfolding apply_catalog_change
  apply_submits e differs = rw (e, apply_catalog_change, differs) refl

  -- A submission that is refused, by the daemon or for a conflict.
  pub refused_change :
      validate items ≡ none
      → text_eq (candidate sha256_hex r items).content_digest r.current_snapshot.content_digest
        ≡ false
      → (has_digest_conflict (candidate sha256_hex r items) (begun m r) ≡ true)
        ⊎ (m.reply.status ≡ rejected)
      → SameDirectory r (apply_catalog_change sha256_hex m items r).0
        × ((apply_catalog_change sha256_hex m items r).0.status.state ≡ degraded)
  refused_change valid changed e =
      let snap = candidate sha256_hex r items in
      let refused = submit-refuses m snap r e in
      let kept = schedule_keeps m r (submit_snapshot m snap (begun m r)).0 refused.1.0 in
      rw
        (
          apply_submits valid changed,
          after_change_refused sha256_hex m items snap (submit_snapshot m snap (begun m r))
              refused.0,
        )
        (kept.0, kept.1 ∙ refused.1.1)

  -- What a change that the daemon rejects leaves: nothing happened, for a directory that is invalid or
  -- whose digest is the current one; else the registrar is degraded.
  pub data Refusal : Type 0 where
    ignored_invalid :
        (error : Text)
        → validate items ≡ some error
        → apply_catalog_change sha256_hex m items r ≡ (r, false)
        → Refusal
    ignored_same :
        validate items ≡ none
        → (candidate sha256_hex r items).content_digest ≡ r.current_snapshot.content_digest
        → apply_catalog_change sha256_hex m items r ≡ (r, true)
        → Refusal
    refused_new :
        validate items ≡ none
        → (candidate sha256_hex r items).content_digest ≢ r.current_snapshot.content_digest
        → (apply_catalog_change sha256_hex m items r).0.status.state ≡ degraded
        → Refusal

  -- A change that the daemon rejects leaves the directory, the store, the current snapshot and the
  -- accepted generation and digest as they were. A valid directory with another digest than the
  -- current snapshot's leaves the registrar degraded; an invalid one, and one with the same digest,
  -- leave it exactly as it was, with the result false and true.
  pub change_rejected :
      m.reply.status ≡ rejected
      → SameDirectory r (apply_catalog_change sha256_hex m items r).0 × Refusal
  change_rejected e = elim (Option-cases (validate items)) [
    | inl valid ↦
        elim (Bool-cases (
          text_eq (candidate sha256_hex r items).content_digest
            r.current_snapshot.content_digest)) [
              | inl same ↦ (
                rw (apply_unchanged valid same) (SameDirectory-refl r),
                ignored_same valid ((text_eq_iff _ _).0 same) (apply_unchanged valid same),
              )
              | inr changed ↦
                  let refused = refused_change valid changed (inr e) in
                  (refused.0, refused_new valid (text_ne _ _ changed) refused.1)
            ]
    | inr invalid ↦ (
      rw (apply_invalid invalid.0 invalid.1) (SameDirectory-refl r),
      ignored_invalid invalid.0 invalid.1 (apply_invalid invalid.0 invalid.1),
    )
  ]

-- With its store not ready, a registrar that once had generation 1 accepted.
pub unready_conflict :
    (sha256_hex : Text → Text) (m : Moment) (r : Registrar) (items : List SubscriptionItem)
    → r.store.ready ≡ false
    → r.accepted_generation ≡ 1
    → compute_digest sha256_hex items ≢ r.accepted_digest
    → has_digest_conflict (candidate sha256_hex r items) (begun m r) ≡ true
unfolding has_digest_conflict candidate load build
unready_conflict sha256_hex m r items off one other =
    rw (off, one) (ground (arith, text_eq_iff r.accepted_digest (compute_digest sha256_hex items)))
