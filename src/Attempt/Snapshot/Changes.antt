-- ===== src/Attempt/Snapshot/Changes.antt =====
-- No change dimension is reported exactly for equal snapshots.
use iov_vehicle_tbox_tsp.Prelude.{
  ℕ, List, [], ◌∷◌, true, ◌≡◌, ◌↔◌, refl, eq_of_text_eq, text_eq_refl, arith,
}
use iov_vehicle_tbox_tsp.Attempt.Snapshot.{
  KeyprovAttemptSnapshot, no_change, versions_eq, keyprov_attempt_change_dimension,
}

versions_eq_refl : (xs : List (ℕ × ℕ)) → versions_eq xs xs ≡ true
unfolding versions_eq
versions_eq_refl [] = refl
versions_eq_refl ((a, v) ∷ xs) = ground (arith, versions_eq_refl xs)

eq_of_versions_eq : (xs ys : List (ℕ × ℕ)) → versions_eq xs ys ≡ true → xs ≡ ys
unfolding versions_eq
eq_of_versions_eq [] [] h = refl
eq_of_versions_eq ((a, v) ∷ xs) ((b, w) ∷ ys) h = ground (arith, eq_of_versions_eq xs ys)
eq_of_versions_eq [] (y ∷ ys) h = cc
eq_of_versions_eq (x ∷ xs) [] h = cc

change-eq :
    (f c : KeyprovAttemptSnapshot) → keyprov_attempt_change_dimension f c ≡ no_change → f ≡ c
unfolding keyprov_attempt_change_dimension
change-eq f c h = ground (
  arith,
  eq_of_text_eq f.business_domain c.business_domain,
  eq_of_text_eq f.purposes c.purposes,
  eq_of_versions_eq f.current_versions c.current_versions,
  eq_of_text_eq f.device_identity_digest c.device_identity_digest,
  eq_of_text_eq f.recipient_certificate_digest c.recipient_certificate_digest,
  eq_of_text_eq f.certificate_ref_digest c.certificate_ref_digest,
  eq_of_text_eq f.wrapping_suites c.wrapping_suites,
  eq_of_text_eq f.envelope_formats c.envelope_formats,
  eq_of_text_eq f.protocol_lock_digest c.protocol_lock_digest,
)

change_refl : (f : KeyprovAttemptSnapshot) → keyprov_attempt_change_dimension f f ≡ no_change
unfolding keyprov_attempt_change_dimension
change_refl f = simp (text_eq_refl, versions_eq_refl)

-- The classifier reports no change exactly when the frozen and the candidate snapshot are equal in
-- every field.
pub change_dimension_iff :
    (f c : KeyprovAttemptSnapshot) → (keyprov_attempt_change_dimension f c ≡ no_change) ↔ (f ≡ c)
change_dimension_iff f c = (change-eq f c, λ e. rw (← e) (change_refl f))
