-- ===== src/Subscription/Builder/Digest.antt =====
-- The digest and the generation of a snapshot depend on the set of items, not on their order.
use mathlib.Core.List.{Permᴰ}
use iov_vehicle_tbox_tsp.Prelude.{ℕ, List, ◌≡◌, Text}
use iov_vehicle_tbox_tsp.Subscription.Types.{SubscriptionItem}
use iov_vehicle_tbox_tsp.Subscription.Catalog.Validity.{AllDistinct}
use iov_vehicle_tbox_tsp.Subscription.Builder.{compute_digest, build}
use iov_vehicle_tbox_tsp.Subscription.Builder.Order.{sorted_of_perm}

-- Whatever the hash function, a directory with distinct route ids and any reordering of it give the
-- same snapshot: items, digest and generation.
pub build_of_perm :
    (sha256_hex : Text → Text) (xs ys : List SubscriptionItem) (owner : Text)
    (current_generation : ℕ) (current_digest : Text)
    → Permᴰ xs ys
    → AllDistinct xs
    → build sha256_hex xs owner current_generation current_digest
      ≡ build sha256_hex ys owner current_generation current_digest
unfolding build compute_digest
build_of_perm sha256_hex xs ys owner g d p h = rw (sorted_of_perm p h)
