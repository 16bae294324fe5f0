-- ===== src/Lifecycle/Decide/Stages.antt =====
-- The stages of the decision table one at a time: an action that a stage does not give itself comes
-- from the next stage.
use iov_vehicle_tbox_tsp.Prelude.{◌≡◌, Bool, true, false, arith}
use iov_vehicle_tbox_tsp.Lifecycle.Clock.{keyprov_clock_healthy}
use iov_vehicle_tbox_tsp.Lifecycle.Decide.{
  KeyprovAction, wait_ready, send_request, import, supersede_cas, active, freshen_same_id,
  restore_original_ack, restore_successor, response_expired, lease_too_short, bounded_retry,
  KeyprovLifecycleInput, decide_response, decide_release, decide_evidence, keyprov_lifecycle_decide,
}

-- Past the gates of P0 and P1: a live attempt, a healthy clock, a known contract, SEC readable.
pub record IsAdmitted (i : KeyprovLifecycleInput) : Type 0 where
  pub valid : i.attempt_valid ≡ true
  pub bound : i.binding_match ≡ true
  pub live : i.terminalized ≡ false
  pub no_conflict : i.idempotency_conflict ≡ false
  pub healthy : keyprov_clock_healthy i.clock ≡ true
  pub trusted : i.clock.trusted ≡ true
  pub contract : i.contract_ready ≡ true
  pub sec_contract : i.sec_contract_unknown ≡ false
  pub sec_known : i.sec_unknown_or_error ≡ false

-- The actions that only the later stages give.
abbrev pub past_gates : KeyprovAction → Bool
past_gates wait_ready = true
past_gates send_request = true
past_gates import = true
past_gates supersede_cas = true
past_gates active = true
past_gates freshen_same_id = true
past_gates restore_original_ack = true
past_gates restore_successor = true
past_gates response_expired = true
past_gates lease_too_short = true
past_gates bounded_retry = true
past_gates _ = false

abbrev pub past_evidence : KeyprovAction → Bool
past_evidence active = false
past_evidence restore_original_ack = false
past_evidence a = past_gates a

abbrev pub past_release : KeyprovAction → Bool
past_release supersede_cas = false
past_release restore_successor = false
past_release a = past_evidence a

pub gates_eq :
    (i : KeyprovLifecycleInput)
    → past_gates (keyprov_lifecycle_decide i) ≡ true
    → IsAdmitted i × (keyprov_lifecycle_decide i ≡ decide_evidence i)
unfolding keyprov_lifecycle_decide
gates_eq i h = (ground arith, ground arith)

pub evidence_eq :
    (i : KeyprovLifecycleInput)
    → past_evidence (decide_evidence i) ≡ true
    → decide_evidence i ≡ decide_release i
unfolding decide_evidence
evidence_eq i h = ground arith

pub release_eq :
    (i : KeyprovLifecycleInput)
    → past_release (decide_release i) ≡ true
    → decide_release i ≡ decide_response i
unfolding decide_release
release_eq i h = ground arith

module _ (i : KeyprovLifecycleInput) {a : KeyprovAction} (e : keyprov_lifecycle_decide i ≡ a) where
  pub at_evidence : past_gates a ≡ true → IsAdmitted i × (decide_evidence i ≡ a)
  at_evidence h = let g = gates_eq i (rw e h) in (g.0, cc (g.1, e))

  pub at_release : past_evidence a ≡ true → past_gates a ≡ true → decide_release i ≡ a
  at_release h g = let d = (at_evidence g).1 in cc (d, evidence_eq i (rw d h))

  pub at_response :
      past_release a ≡ true → past_evidence a ≡ true → past_gates a ≡ true → decide_response i ≡ a
  at_response h g k = let d = at_release g k in cc (d, release_eq i (rw d h))
