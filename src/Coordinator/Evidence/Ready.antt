-- ===== src/Coordinator/Evidence/Ready.antt =====
-- The state just before an observation is counted: what the two resets leave.
use iov_vehicle_tbox_tsp.Prelude.{◌≡◌, ◌⊎◌, inl, inr, ◌∙◌, subst, Text, codes, text_eq_iff, arith}
use iov_vehicle_tbox_tsp.Coordinator.Classification.{SecImportEvidence}
use iov_vehicle_tbox_tsp.Coordinator.Evidence.{
  EvidenceState, restart_on_epoch, reset_on_attempt, reset_not_found_stabilization,
  restart_not_found_stabilization_for, forget_window, bind_stabilization,
}

pub reset-count :
    (result : Text) (s : EvidenceState)
    → (reset_not_found_stabilization result s).stab.consecutive_count ≡ 0
unfolding reset_not_found_stabilization forget_window
reset-count result s = ground arith

reset-epoch :
    (result : Text) (s : EvidenceState)
    → (reset_not_found_stabilization result s).stab.sec_capability_epoch
      ≡ s.stab.sec_capability_epoch
unfolding reset_not_found_stabilization forget_window
reset-epoch result s = ground arith

reset-present :
    (result : Text) (s : EvidenceState)
    → (reset_not_found_stabilization result s).current_sec_capability_epoch
      ≡ s.current_sec_capability_epoch
unfolding reset_not_found_stabilization
reset-present result s = ground arith

-- Before an observation is counted: the count is closed, or it is one of the same attempt; the epoch
-- is the present one.
pub record IsReady (ev : SecImportEvidence) (t v : EvidenceState) : Type 0 where
  pub epoch : v.stab.sec_capability_epoch ≡ t.current_sec_capability_epoch
  pub count :
      (v.stab.consecutive_count ≡ 0)
      ⊎ ((v ≡ t)
          × ((t.stab.request_id_digest ≡ ev.request_id_digest)
              × (t.stab.attempt_generation ≡ ev.observed_store_generation)))

restart_on_epoch_lem :
    (ev : SecImportEvidence) (t : EvidenceState)
    → ((restart_on_epoch ev t).stab.sec_capability_epoch ≡ t.current_sec_capability_epoch)
      × (((restart_on_epoch ev t).stab.consecutive_count ≡ 0) ⊎ (restart_on_epoch ev t ≡ t))
unfolding restart_on_epoch restart_not_found_stabilization_for bind_stabilization
restart_on_epoch_lem ev t =
    let c = reset-count (codes "RESET_EPOCH_CHANGED") t in
    let p = reset-present (codes "RESET_EPOCH_CHANGED") t in ground arith

reset_on_attempt_lem :
    (ev : SecImportEvidence) (u : EvidenceState)
    → ((reset_on_attempt ev u).stab.sec_capability_epoch ≡ u.stab.sec_capability_epoch)
      × (((reset_on_attempt ev u).stab.consecutive_count ≡ 0)
          ⊎ ((reset_on_attempt ev u ≡ u)
              × ((u.stab.request_id_digest ≡ ev.request_id_digest)
                  × (u.stab.attempt_generation ≡ ev.observed_store_generation))))
unfolding reset_on_attempt
reset_on_attempt_lem ev u =
    let c = reset-count (codes "RESET_ATTEMPT_CHANGED") u in
    let p = reset-epoch (codes "RESET_ATTEMPT_CHANGED") u in
    ground (arith, text_eq_iff u.stab.request_id_digest ev.request_id_digest)

ready_count :
    (ev : SecImportEvidence) (t u v : EvidenceState)
    → (u.stab.consecutive_count ≡ 0) ⊎ (u ≡ t)
    → (v.stab.consecutive_count ≡ 0)
      ⊎ ((v ≡ u)
          × ((u.stab.request_id_digest ≡ ev.request_id_digest)
              × (u.stab.attempt_generation ≡ ev.observed_store_generation)))
    → (v.stab.consecutive_count ≡ 0)
      ⊎ ((v ≡ t)
          × ((t.stab.request_id_digest ≡ ev.request_id_digest)
              × (t.stab.attempt_generation ≡ ev.observed_store_generation)))
ready_count ev t u v first (inl closed) = inl closed
ready_count ev t u v (inl closed) (inr same) = inl (rw same.0 closed)
ready_count ev t u v (inr kept) (inr same) = inr (
  same.0 ∙ kept,
  subst
      (λ x.
        (x.stab.request_id_digest ≡ ev.request_id_digest)
        × (x.stab.attempt_generation ≡ ev.observed_store_generation))
      kept same.1,
)

pub ready :
    (ev : SecImportEvidence) (t : EvidenceState)
    → IsReady ev t (reset_on_attempt ev (restart_on_epoch ev t))
ready ev t =
    let a = restart_on_epoch_lem ev t in
    let b = reset_on_attempt_lem ev (restart_on_epoch ev t) in
    record { epoch = b.0 ∙ a.0; count = ready_count ev t _ _ a.1 b.1 }
