-- ===== src/Lifecycle/Clock/Lease.antt =====
-- What the lease times mean: the equality cases of admission, expiry and the ACK deadline.
use iov_vehicle_tbox_tsp.Prelude.{
  ◌<◌, ◌≡◌, ◌↔◌, true, false, arith, ℤ, pos, ◌+ℤ◌, ◌≤ℤ◌, -ℤ_parts, +ℤ_parts,
}
use iov_vehicle_tbox_tsp.Lifecycle.Clock.{
  KeyprovKl1Params, keyprov_lease_acceptable, keyprov_lease_expired,
}

-- A lease is admitted exactly when U + import_min ≤ E.
pub lease_acceptable_iff :
    (u e : ℤ) (p : KeyprovKl1Params)
    → (keyprov_lease_acceptable u e p ≡ true) ↔ (u +ℤ pos p.import_min_ms ≤ℤ e)
unfolding keyprov_lease_acceptable
lease_acceptable_iff u e p = ground (arith, -ℤ_parts e u, +ℤ_parts u (pos p.import_min_ms))

pub lease_expired_iff : (u e : ℤ) → (keyprov_lease_expired u e ≡ true) ↔ (e ≤ℤ u)
unfolding keyprov_lease_expired
lease_expired_iff u e = ground arith

-- A lease that is admitted at U has not expired at U, and it is still safe to send its ACK at any
-- time within ack_grace - skew after its end.
pub lease_acceptable-ne-expired :
    (u e : ℤ) (p : KeyprovKl1Params)
    → 0 < p.import_min_ms
    → keyprov_lease_acceptable u e p ≡ true
    → keyprov_lease_expired u e ≡ false
unfolding keyprov_lease_acceptable keyprov_lease_expired
lease_acceptable-ne-expired u e p h a = ground (arith, -ℤ_parts e u)
