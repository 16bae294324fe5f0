-- ===== src/Subscription/Builder/Generation.antt =====
-- When a snapshot keeps the generation.
use iov_vehicle_tbox_tsp.Prelude.{ℕ, ◌+◌, ◌<◌, ◌^◌, List, ◌≡◌, ◌≢◌, ◌↔◌, Text, text_eq_iff, arith}
use iov_vehicle_tbox_tsp.Subscription.Types.{SubscriptionItem}
use iov_vehicle_tbox_tsp.Subscription.Builder.{compute_digest, build}

module _ (sha256_hex : Text → Text) (items : List SubscriptionItem) (owner : Text) where
  -- A snapshot built over generation g > 0 keeps g exactly when the digest is the stored one, and
  -- otherwise takes g + 1, as long as the 64-bit counter does not wrap.
  pub build_generation :
      (g : ℕ) (digest : Text)
      → 0 < g
      → g + 1 < 2 ^ 64
      → (((build sha256_hex items owner g digest).generation ≡ g)
          ↔ (compute_digest sha256_hex items ≡ digest))
        × (compute_digest sha256_hex items ≢ digest
            → (build sha256_hex items owner g digest).generation ≡ g + 1)
  unfolding build
  build_generation g digest p w =
      let e = text_eq_iff (compute_digest sha256_hex items) digest in
      ((λ h. ground (arith, e), λ h. ground (arith, e.1 h)), λ n. ground (arith, e))
