-- ===== src/Attempt/Errors/Release.antt =====
-- Which wire errors let an attempt be released, and that none of these is an idempotency conflict.
use iov_vehicle_tbox_tsp.Prelude.{
  ◌≡◌, ◌↔◌, ◌⊎◌, true, false, text_eq_iff, arith, eq_of_parts, inl, inr, Bool-cases,
}
use iov_vehicle_tbox_tsp.Attempt.Errors.{
  KeyProvProtocolError, keyprov_normalize_protocol_error, keyprov_is_idempotency_conflict,
  code_not_found_wire, code_not_found_legacy, action_do_not_retry, idempotency_conflict,
  code_conflict_vmd,
}
use iov_vehicle_tbox_tsp.Lifecycle.Decide.{
  KeyprovLifecycleInput, releasable_unspecified, status_unspecified,
}

-- The full not-found error of the wire, by its symbolic or its numeric code.
pub record IsNotFound (wire : KeyProvProtocolError) : Type 0 where
  pub code : (wire.code ≡ code_not_found_wire) ⊎ (wire.code ≡ code_not_found_legacy)
  pub final : wire.retryable ≡ false
  pub action : wire.action ≡ action_do_not_retry

-- With the cloud's error as the normalisation gives it, an UNSPECIFIED batch counts as releasable
-- exactly when the wire carried the full not-found error: a known code, not retryable, and the action
-- DO_NOT_RETRY. Every other code, action or a missing error fails closed.
pub releasable_iff :
    (i : KeyprovLifecycleInput) (wire : KeyProvProtocolError)
    → i.cloud_error ≡ keyprov_normalize_protocol_error wire
    → (releasable_unspecified i ≡ true) ↔ ((i.cloud_status ≡ status_unspecified) × IsNotFound wire)
unfolding releasable_unspecified keyprov_normalize_protocol_error
releasable_iff i wire e =
    let w = text_eq_iff wire.code code_not_found_wire in
    let l = text_eq_iff wire.code code_not_found_legacy in
    let a = text_eq_iff wire.action action_do_not_retry in
    let z = eq_of_parts i.cloud_status status_unspecified in
    (λ h. ground (arith, w, l, a, z), λ h. ground (arith, w, l, a, z))

no_conflict :
    (wire : KeyProvProtocolError)
    → IsNotFound wire
    → keyprov_is_idempotency_conflict wire ≡ true
    → ⊥
unfolding keyprov_is_idempotency_conflict
no_conflict wire n h = ground (
  arith,
  n.code,
  n.action,
  text_eq_iff wire.action idempotency_conflict,
  text_eq_iff wire.code idempotency_conflict,
  text_eq_iff wire.code code_conflict_vmd,
)

-- An error that the classifier takes for an idempotency conflict never releases the attempt.
pub conflict-not_released :
    (i : KeyprovLifecycleInput) (wire : KeyProvProtocolError)
    → i.cloud_error ≡ keyprov_normalize_protocol_error wire
    → keyprov_is_idempotency_conflict wire ≡ true
    → releasable_unspecified i ≡ false
conflict-not_released i wire e h = elim (Bool-cases (releasable_unspecified i)) [
  | inl r ↦ absurd (no_conflict wire ((releasable_iff i wire e).0 r).1 h)
  | inr r ↦ r
]
