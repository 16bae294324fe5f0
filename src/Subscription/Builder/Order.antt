-- ===== src/Subscription/Builder/Order.antt =====
-- The order of route ids is total, so the sorted directory does not depend on the order of the items.
use mathlib.Core.List.{Permᴰ}
use mathlib.Core.Path.{ap₂, subst₂}
use native.Mathlib.Decide.{ℕ_discrete}
use iov_vehicle_tbox_tsp.Prelude.{
  List, [], ◌∷◌, true, false, not, ◌≡◌, ◌≢◌, refl, sym, ◌∙◌, subst, All, Text, arith,
}
use iov_vehicle_tbox_tsp.Subscription.Types.{SubscriptionItem}
use iov_vehicle_tbox_tsp.Subscription.Catalog.Validity.{AllDistinct}
use iov_vehicle_tbox_tsp.Subscription.Builder.{text_lt, insert_item, sorted_by_route_id}

text_lt_total : (s t : Text) → s ≢ t → text_lt s t ≡ not (text_lt t s)
unfolding text_lt
text_lt_total [] [] h = absurd (h refl)
text_lt_total [] (d ∷ t) h = refl
text_lt_total (c ∷ s) [] h = refl
text_lt_total (c ∷ s) (d ∷ t) h = elim (ℕ_discrete c d) [
  | yes same ↦ ground (arith, text_lt_total s t (λ k. h (cc (same, k))))
  | no other ↦ ground arith
]

text_lt_between : (z x y : Text) → text_lt z x ≡ false → text_lt z y ≡ true → text_lt x y ≡ true
unfolding text_lt
text_lt_between [] [] [] h k = cc
text_lt_between [] [] (d ∷ y) h k = refl
text_lt_between [] (c ∷ x) y h k = cc
text_lt_between (b ∷ z) [] [] h k = cc
text_lt_between (b ∷ z) [] (d ∷ y) h k = refl
text_lt_between (b ∷ z) (c ∷ x) [] h k = cc
text_lt_between (b ∷ z) (c ∷ x) (d ∷ y) h k = ground (arith, text_lt_between z x y)

insert_comm :
    (x y : SubscriptionItem) (zs : List SubscriptionItem)
    → x.route_id ≢ y.route_id
    → insert_item x (insert_item y zs) ≡ insert_item y (insert_item x zs)
unfolding insert_item
insert_comm x y [] h = ground (arith, text_lt_total x.route_id y.route_id h)
insert_comm x y (z ∷ zs) h = ground (
  arith,
  text_lt_total x.route_id y.route_id h,
  text_lt_between z.route_id x.route_id y.route_id,
  text_lt_between z.route_id y.route_id x.route_id,
  insert_comm x y zs h,
)

-- Distinctness does not depend on the order either.
All-perm :
    (r : Text) {xs ys : List SubscriptionItem}
    → Permᴰ xs ys
    → All (λ i. r ≢ i.route_id) xs
    → All (λ i. r ≢ i.route_id) ys
All-perm r Permᴰ.nil h = tt
All-perm r (Permᴰ.cons e p) h = (subst (λ i. r ≢ i.route_id) e h.0, All-perm r p h.1)
All-perm r (Permᴰ.swap e f) h =
    (subst (λ i. r ≢ i.route_id) f h.1.0, (subst (λ i. r ≢ i.route_id) e h.0, h.1.1))
All-perm r (Permᴰ.trans p q) h = All-perm r q (All-perm r p h)

AllDistinct-perm : {xs ys : List SubscriptionItem} → Permᴰ xs ys → AllDistinct xs → AllDistinct ys
AllDistinct-perm Permᴰ.nil h = tt
AllDistinct-perm (Permᴰ.cons {a = a} {b = b} {l₂ = ys} e p) h = (
  subst (λ i. All (λ j. i.route_id ≢ j.route_id) ys) e (All-perm a.route_id p h.0),
  AllDistinct-perm p h.1,
)
AllDistinct-perm (Permᴰ.swap {a = a} {b = b} {l = l} e f) h =
    subst₂ (λ u v. AllDistinct (u ∷ (v ∷ l))) f e ((λ k. h.0.0 (sym k), h.1.0), (h.0.1, h.1.1))
AllDistinct-perm (Permᴰ.trans p q) h = AllDistinct-perm q (AllDistinct-perm p h)

-- Reordering a directory with distinct route ids does not change its sorted form.
pub sorted_of_perm :
    {xs ys : List SubscriptionItem}
    → Permᴰ xs ys
    → AllDistinct xs
    → sorted_by_route_id xs ≡ sorted_by_route_id ys
unfolding sorted_by_route_id
sorted_of_perm Permᴰ.nil h = refl
sorted_of_perm (Permᴰ.cons e p) h = ap₂ insert_item e (sorted_of_perm p h.1)
sorted_of_perm (Permᴰ.swap {a = a} {b = b} {l = l} e f) h =
    rw (← e, ← f) (insert_comm a b (sorted_by_route_id l) h.0.0)
sorted_of_perm (Permᴰ.trans p q) h = sorted_of_perm p h ∙ sorted_of_perm q (AllDistinct-perm p h)
