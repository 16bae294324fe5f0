-- ===== src/Subscription/Registrar/Restart.antt =====
-- The first start of a registrar, and a start over what an earlier one stored.
use iov_vehicle_tbox_tsp.Prelude.{
  ℕ, ◌+◌, ◌<◌, ◌^◌, List, Bool, true, false, ◌&&◌, ◌≡◌, ◌≢◌, ◌⊎◌, refl, ◌∙◌, inl, inr, none, Text,
  text_eq, text_eq_iff, ltb, Bool-cases, arith,
}
use iov_vehicle_tbox_tsp.Subscription.Types.{
  SubscriptionItem, SubscriptionSnapshot, SnapshotStatus, unknown, rejected, ReplaceSnapshotResult,
  accepted, degraded, is_accepted,
}
use iov_vehicle_tbox_tsp.Subscription.Catalog.{validate, SubscriptionCatalog}
use iov_vehicle_tbox_tsp.Subscription.Builder.{compute_digest, build}
use iov_vehicle_tbox_tsp.Subscription.Builder.Generation.{build_generation}
use iov_vehicle_tbox_tsp.Subscription.Store.{SubscriptionStore, load, save}
use iov_vehicle_tbox_tsp.Subscription.Store.RoundTrip.{load-save}
use iov_vehicle_tbox_tsp.Subscription.Registrar.{
  Moment, Registrar, new_registrar, schedule_retry, take_reply, submit_snapshot, submit_or_schedule,
  has_digest_conflict, candidate, restore, start, apply_catalog_change, owner,
}
use iov_vehicle_tbox_tsp.Subscription.Registrar.Changes.{
  begun, SameDirectory, refused_change, unready_conflict,
}
use iov_vehicle_tbox_tsp.Subscription.Registrar.Submission.{submit_current}

take_reply_store :
    (now : ℕ) (snap : SubscriptionSnapshot) (reply : ReplaceSnapshotResult) (s : SnapshotStatus)
    (r : Registrar)
    → (take_reply now snap reply s r).store ≡ r.store
unfolding take_reply
take_reply_store now snap reply accepted r = refl
take_reply_store now snap reply unknown r = refl
take_reply_store now snap reply rejected r = refl

submit_store :
    (m : Moment) (snap : SubscriptionSnapshot) (r : Registrar)
    → (submit_snapshot m snap (begun m r)).0.store ≡ r.store
unfolding submit_snapshot
submit_store m snap r = elim (Bool-cases (has_digest_conflict snap (begun m r))) [
  | inl conflict ↦ rw conflict refl
  | inr clear ↦ rw clear (take_reply_store m.now snap m.reply m.reply.status (begun m r))
]

submit_or_schedule_keeps :
    (m : Moment) (snap : SubscriptionSnapshot) (r : Registrar)
    → ((submit_or_schedule m snap r).current_snapshot ≡ r.current_snapshot)
      × ((submit_or_schedule m snap r).store ≡ r.store)
unfolding submit_or_schedule schedule_retry
submit_or_schedule_keeps m snap r =
    elim (Bool-cases (is_accepted (submit_snapshot m snap (begun m r)).1)) [
      | inl taken ↦ rw taken (submit_current m snap r, submit_store m snap r)
      | inr refused ↦ rw refused (submit_current m snap r, submit_store m snap r)
    ]

start_keeps :
    (sha256_hex : Text → Text) (m : Moment) (monitor : Bool) (r : Registrar)
    → let snap = candidate sha256_hex r r.catalog.items in
      ((start sha256_hex m monitor r).current_snapshot ≡ snap)
      × ((start sha256_hex m monitor r).store ≡ save r.store snap.generation snap.content_digest)
unfolding start restore
start_keeps sha m monitor r = submit_or_schedule_keeps m _ (restore sha m r)

no_conflict :
    (snap : SubscriptionSnapshot) (r : Registrar)
    → r.accepted_generation ≡ 0
    → has_digest_conflict snap r ≡ false
unfolding has_digest_conflict
no_conflict snap r e = ground arith

submit_accepted :
    (m : Moment) (snap : SubscriptionSnapshot) (r : Registrar)
    → r.accepted_generation ≡ 0
    → m.reply.status ≡ accepted
    → ((submit_or_schedule m snap r).accepted_generation ≡ snap.generation)
      × ((submit_or_schedule m snap r).accepted_digest ≡ snap.content_digest)
unfolding submit_or_schedule submit_snapshot take_reply
submit_accepted m snap r zero_yet e = rw (no_conflict snap (begun m r) zero_yet, e) (refl, refl)

-- Accepted at the first start.
start_accepted :
    (sha256_hex : Text → Text) (m : Moment) (monitor : Bool) (catalog : SubscriptionCatalog)
    (store : SubscriptionStore)
    → m.reply.status ≡ accepted
    → let r = new_registrar catalog store in
      let snap = candidate sha256_hex r catalog.items in
      ((start sha256_hex m monitor r).accepted_generation ≡ snap.generation)
      × ((start sha256_hex m monitor r).accepted_digest ≡ snap.content_digest)
unfolding start new_registrar restore
start_accepted sha m monitor catalog store e =
    submit_accepted m _ (restore sha m (new_registrar catalog store)) refl e

-- The generation and the digest of a snapshot over a store.
candidate_generation :
    (sha256_hex : Text → Text) (r : Registrar) (items : List SubscriptionItem)
    → (load r.store).generation + 2 < 2 ^ 64
    → (0 < (candidate sha256_hex r items).generation)
      × ((candidate sha256_hex r items).generation + 1 < 2 ^ 64)
unfolding candidate build
candidate_generation sha r items small =
    elim (Bool-cases (
      ltb 0 (load r.store).generation
      && text_eq (compute_digest sha items) (load r.store).digest)) [
        | inl kept ↦ rw kept (ground arith, omega arith)
        | inr next ↦ rw next (omega arith, omega arith)
      ]

-- A start over a store in which a snapshot was saved.
candidate_over_saved :
    (sha256_hex : Text → Text) (r : Registrar) (items : List SubscriptionItem)
    (s : SubscriptionStore) (g : ℕ) (digest : Text)
    → s.ready ≡ true
    → 0 < g
    → g + 1 < 2 ^ 64
    → r.store ≡ save s g digest
    → ((compute_digest sha256_hex items ≡ digest) × ((candidate sha256_hex r items).generation ≡ g))
      ⊎ ((compute_digest sha256_hex items ≢ digest)
          × ((candidate sha256_hex r items).generation ≡ g + 1))
unfolding candidate
candidate_over_saved sha r items s g digest on p w e =
    let b = build_generation sha items owner g digest p w in
    rw (e, load-save s g digest on (omega arith))
      (elim (Bool-cases (text_eq (compute_digest sha items) digest)) [
        | inl same ↦ let e = (text_eq_iff _ _).0 same in inl (e, b.0.1 e)
        | inr differ ↦
            let n : compute_digest sha items ≢ digest =
              λ e. cc (differ, (text_eq_iff (compute_digest sha items) digest).1 e) in
            inr (n, b.1 n)
      ])

text_neq : (s t : Text) → s ≢ t → text_eq s t ≡ false
text_neq s t n = elim (Bool-cases (text_eq s t)) [
  | inl same ↦ absurd (n ((text_eq_iff s t).0 same))
  | inr differ ↦ differ
]

-- The first start over a store that is not ready: generation 1, and nothing is saved.
unready_start :
    (sha256_hex : Text → Text) (m : Moment) (monitor : Bool) (catalog : SubscriptionCatalog)
    (store : SubscriptionStore)
    → store.ready ≡ false
    → m.reply.status ≡ accepted
    → let r = start sha256_hex m monitor (new_registrar catalog store) in
      (r.store.ready ≡ false)
      × ((r.accepted_generation ≡ 1)
          × ((r.accepted_digest ≡ compute_digest sha256_hex catalog.items)
              × (r.current_snapshot.content_digest ≡ compute_digest sha256_hex catalog.items)))
unfolding candidate build load save new_registrar
unready_start sha m monitor catalog store off taken =
    let kept = start_keeps sha m monitor (new_registrar catalog store) in
    let got = start_accepted sha m monitor catalog store taken in
    (rw (kept.1, off) refl, (rw (got.0, off) refl, (got.1, rw (kept.0) refl)))

module _ (sha256_hex : Text → Text) (m0 m : Moment) (monitor again : Bool)
    (catalog : SubscriptionCatalog) (store : SubscriptionStore) where
  -- A registrar restarted over a ready store, with the 64-bit counter not at its end: with a
  -- directory of the same digest it submits the very generation again that the run before
  -- stored, whatever the daemon answered then, and with one of another digest it takes the next
  -- generation.
  pub restart_generation :
      (changed : SubscriptionCatalog)
      → store.ready ≡ true
      → (load store).generation + 2 < 2 ^ 64
      → let before = start sha256_hex m0 monitor (new_registrar catalog store) in
        let after = start sha256_hex m again (new_registrar changed before.store) in
        ((compute_digest sha256_hex changed.items ≡ compute_digest sha256_hex catalog.items)
          × (after.current_snapshot.generation ≡ before.current_snapshot.generation))
        ⊎ ((compute_digest sha256_hex changed.items ≢ compute_digest sha256_hex catalog.items)
            × (after.current_snapshot.generation ≡ before.current_snapshot.generation + 1))
  unfolding new_registrar candidate build
  restart_generation changed on small =
      let fresh = new_registrar catalog store in
      let snap = candidate sha256_hex fresh catalog.items in
      let bounds = candidate_generation sha256_hex fresh catalog.items small in
      let kept = start_keeps sha256_hex m0 monitor fresh in
      let before = start sha256_hex m0 monitor fresh in
      let after = new_registrar changed before.store in
      let over =
        candidate_over_saved sha256_hex after changed.items store snap.generation
          snap.content_digest on bounds.0 bounds.1 kept.1 in
      rw ((start_keeps sha256_hex m again after).0, kept.0) over

  -- A store that is not ready makes the registrar refuse every later change, whatever the
  -- daemon would answer: after a first start whose snapshot was accepted, a valid change to
  -- another digest degrades it and leaves the directory as it was.
  pub unready_store_refuses :
      (items : List SubscriptionItem)
      → store.ready ≡ false
      → m0.reply.status ≡ accepted
      → validate items ≡ none
      → compute_digest sha256_hex items ≢ compute_digest sha256_hex catalog.items
      → let r = start sha256_hex m0 monitor (new_registrar catalog store) in
        SameDirectory r (apply_catalog_change sha256_hex m items r).0
        × ((apply_catalog_change sha256_hex m items r).0.status.state ≡ degraded)
  unfolding candidate build
  unready_store_refuses items off taken valid other =
      let r = start sha256_hex m0 monitor (new_registrar catalog store) in
      let begins = unready_start sha256_hex m0 monitor catalog store off taken in
      refused_change sha256_hex m items r valid
        (rw (begins.1.1.1, candidate, build) (text_neq _ _ other))
        (inl (
          unready_conflict sha256_hex m r items begins.0 begins.1.0
            (λ e. other (e ∙ begins.1.1.0))))
