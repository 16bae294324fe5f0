-- ===== src/Lifecycle/Decide/Effects.antt =====
-- Which facts stand behind each action that the decision table chooses. The daemon does not call the
-- table: only its unit tests do.
use iov_vehicle_tbox_tsp.Prelude.{
  ◌≡◌, ◌≢◌, ◌↔◌, ◌⊎◌, inl, inr, refl, Bool, true, false, pos, ◌+ℤ◌, ◌≤ℤ◌, ◌<ℤ◌, arith, eq_of_parts,
}
use iov_vehicle_tbox_tsp.Lifecycle.Clock.{utc_upper}
use iov_vehicle_tbox_tsp.Lifecycle.Clock.Lease.{lease_acceptable_iff}
use iov_vehicle_tbox_tsp.Lifecycle.Decide.Stages.{
  IsAdmitted, past_gates, gates_eq, at_evidence, at_release, at_response,
}
use iov_vehicle_tbox_tsp.Lifecycle.Decide.{
  KeyprovAction, send_request, import, supersede_cas, freshen_same_id, restore_original_ack,
  restore_successor, bounded_retry, KeyprovLifecycleInput, params_of, releasable_unspecified,
  decide_default, decide_response, decide_release, decide_evidence, keyprov_lifecycle_decide,
  status_failed, status_ack_pending,
}

-- The actions that send to the cloud, call SEC's import, or change the attempt.
abbrev pub has_effect : KeyprovAction → Bool
has_effect send_request = true
has_effect import = true
has_effect supersede_cas = true
has_effect freshen_same_id = true
has_effect restore_original_ack = true
has_effect restore_successor = true
has_effect bounded_retry = true
has_effect _ = false

past_gates_of_effect : (a : KeyprovAction) → has_effect a ≡ true → past_gates a ≡ true
past_gates_of_effect a h = ground arith

-- Whatever the input, an action that sends, imports or changes the attempt is chosen only for a live
-- and bound attempt, with a healthy and trusted clock, a known contract and readable SEC evidence.
pub effect-IsAdmitted :
    (i : KeyprovLifecycleInput) → has_effect (keyprov_lifecycle_decide i) ≡ true → IsAdmitted i
effect-IsAdmitted i h = (gates_eq i (past_gates_of_effect _ h)).0

pub record IsImportable (i : KeyprovLifecycleInput) : Type 0 where
  pub present : i.payload_present ≡ true
  pub payload : i.payload_fresh ≡ true
  pub envelope : i.envelope_fresh ≡ true
  pub binding : i.response_binding_valid ≡ true
  pub epoch : i.sec_capability_epoch_known ≡ true
  pub once : i.import_already ≡ false
  pub idle : i.inflight ≡ false
  pub lease : utc_upper i.clock +ℤ pos (params_of i.params).import_min_ms ≤ℤ i.lease_expires_at_ms

response-import : (i : KeyprovLifecycleInput) → decide_response i ≡ import → IsImportable i
unfolding decide_response decide_default
response-import i h =
    let u = utc_upper i.clock in
    ground (arith, lease_acceptable_iff u i.lease_expires_at_ms (params_of i.params))

-- The decision table chooses the action IMPORT only for an input with a fresh and bound response whose
-- lease still has import_min to run, with no import before it and nothing in flight, past the gates
-- of P0 and P1.
pub import-IsImportable :
    (i : KeyprovLifecycleInput)
    → keyprov_lifecycle_decide i ≡ import
    → IsAdmitted i × IsImportable i
import-IsImportable i h =
    ((at_evidence i h refl).0, response-import i (at_response i h refl refl refl))

pub record IsReleased (i : KeyprovLifecycleInput) : Type 0 where
  pub proven : i.no_side_effect_proven ≡ true
  pub chain : i.chain_ok ≡ true
  pub ended : (i.cloud_status ≡ status_failed) ⊎ (releasable_unspecified i ≡ true)

response_range :
    (i : KeyprovLifecycleInput)
    → (decide_response i ≢ supersede_cas)
      × (decide_response i ≢ restore_successor)
      × (decide_response i ≢ restore_original_ack)
unfolding decide_response decide_default
response_range i = (λ h. ground arith, λ h. ground arith, λ h. ground arith)

release_range : (i : KeyprovLifecycleInput) → decide_release i ≢ restore_original_ack
unfolding decide_release
release_range i h = ground (arith, (response_range i).2)

release-IsReleased :
    (i : KeyprovLifecycleInput)
    → (decide_release i ≡ supersede_cas) ⊎ (decide_release i ≡ restore_successor)
    → IsReleased i
unfolding decide_release
release-IsReleased i h =
    let r = response_range i in ground (arith, eq_of_parts i.cloud_status status_failed, r.0, r.1)

-- The decision table chooses SUPERSEDE_CAS or RESTORE_SUCCESSOR only for an input in which SEC is proven
-- free of side effects, the cloud's batch has ended (FAILED, or UNSPECIFIED with the full not-found
-- error), and the recovery chain has budget left, past the gates of P0 and P1.
pub successor-IsReleased :
    (i : KeyprovLifecycleInput)
    → (keyprov_lifecycle_decide i ≡ supersede_cas)
      ⊎ (keyprov_lifecycle_decide i ≡ restore_successor)
    → IsAdmitted i × IsReleased i
successor-IsReleased i (inl h) =
    ((at_evidence i h refl).0, release-IsReleased i (inl (at_release i h refl refl)))
successor-IsReleased i (inr h) =
    ((at_evidence i h refl).0, release-IsReleased i (inr (at_release i h refl refl)))

pub record MayRestoreAck (i : KeyprovLifecycleInput) : Type 0 where
  pub committed : i.sec_committed ≡ true
  pub awaited : i.cloud_status ≡ status_ack_pending
  pub budget : i.ack_budget_ok ≡ true
  pub in_time : utc_upper i.clock <ℤ i.ack_safe_deadline_ms

evidence-MayRestoreAck :
    (i : KeyprovLifecycleInput) → decide_evidence i ≡ restore_original_ack → MayRestoreAck i
unfolding decide_evidence
evidence-MayRestoreAck i h =
    ground (arith, eq_of_parts i.cloud_status status_ack_pending, release_range i)

MayRestoreAck-decide :
    (i : KeyprovLifecycleInput)
    → IsAdmitted i
    → (i.payload_present ≡ false) ⊎ (i.envelope_fresh ≡ true) × (i.payload_fresh ≡ true)
    → MayRestoreAck i
    → keyprov_lifecycle_decide i ≡ restore_original_ack
unfolding keyprov_lifecycle_decide decide_evidence
MayRestoreAck-decide i a f m = rw m.awaited (ground arith)

decide-passes_transport :
    (i : KeyprovLifecycleInput)
    → keyprov_lifecycle_decide i ≡ restore_original_ack
    → (i.payload_present ≡ false) ⊎ (i.envelope_fresh ≡ true) × (i.payload_fresh ≡ true)
unfolding keyprov_lifecycle_decide
decide-passes_transport i h = ground arith

-- The decision table chooses RESTORE_ORIGINAL_ACK exactly for the inputs in which all of these hold: the
-- gates of P0 and P1 are passed, no stale response is at hand, SEC has committed, the cloud waits for
-- the ACK, ACK budget is left, and the time is strictly before the safe deadline D.
pub restore_ack_iff :
    (i : KeyprovLifecycleInput)
    → (keyprov_lifecycle_decide i ≡ restore_original_ack) ↔ (
        IsAdmitted i
        × ((i.payload_present ≡ false) ⊎ (i.envelope_fresh ≡ true) × (i.payload_fresh ≡ true))
        × MayRestoreAck i)
restore_ack_iff i = (
  λ h.
      let g = at_evidence i h refl in
      (g.0, decide-passes_transport i h, evidence-MayRestoreAck i g.1),
  λ r. MayRestoreAck-decide i r.0 r.1 r.2,
)
