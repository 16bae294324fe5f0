-- ===== src/Subscription/Registrar/Backoff.antt =====
-- The wait before a retry.
use iov_vehicle_tbox_tsp.Prelude.{
  ℕ, zero, suc, ◌-◌, ◌*◌, ◌<◌, ◌≤◌, ◌≡◌, ◌⊎◌, refl, inl, inr, ltb, Bool-cases, arith,
}
use iov_vehicle_tbox_tsp.Subscription.Registrar.{backoff_from, current_backoff_ms}

backoff_from_bounds :
    (rounds base : ℕ)
    → 200 ≤ base
    → base ≤ 5000
    → (200 ≤ backoff_from rounds base) × (backoff_from rounds base ≤ 5000)
unfolding backoff_from
backoff_from_bounds zero base low high = (low, high)
backoff_from_bounds (suc rounds) base low high = elim (Bool-cases (ltb 5000 (base * 2))) [
  | inl over ↦
      let ih = backoff_from_bounds rounds 5000 (omega arith) (omega arith) in
      rw over (ground (arith, ih))
  | inr under ↦
      let ih = backoff_from_bounds rounds (base * 2) (omega arith) (ground arith) in
      rw under (ground (arith, ih))
]

backoff_from_max : (rounds : ℕ) → backoff_from rounds 5000 ≡ 5000
unfolding backoff_from
backoff_from_max zero = refl
backoff_from_max (suc rounds) = refl

backoff_from_late : (rounds : ℕ) → 5 ≤ rounds → backoff_from rounds 200 ≡ 5000
unfolding backoff_from
backoff_from_late zero h = omega arith
backoff_from_late (suc zero) h = omega arith
backoff_from_late (suc (suc zero)) h = omega arith
backoff_from_late (suc (suc (suc zero))) h = omega arith
backoff_from_late (suc (suc (suc (suc zero)))) h = omega arith
backoff_from_late (suc (suc (suc (suc (suc rounds))))) h = backoff_from_max rounds

-- The wait before a retry is at least 200 ms and at most 5000 ms whatever the number of failures and
-- the random number, and from the sixth failure on it is exactly 5000 ms.
pub current_backoff_bounds :
    (rand retry_count : ℕ)
    → (200 ≤ current_backoff_ms rand retry_count)
      × ((current_backoff_ms rand retry_count ≤ 5000)
          × ((retry_count < 6) ⊎ (current_backoff_ms rand retry_count ≡ 5000)))
unfolding current_backoff_ms
current_backoff_bounds rand n =
    let b = backoff_from_bounds (n - 1) 200 (omega arith) (omega arith) in
    (
      ground (arith, b),
      (
        ground (arith, b),
        elim (Bool-cases (ltb n 6)) [
          | inl early ↦ inl (ground arith)
          | inr late ↦ inr (ground (arith, b, backoff_from_late (n - 1) (ground arith)))
        ],
      ),
    )
