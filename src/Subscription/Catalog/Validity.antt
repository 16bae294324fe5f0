-- ===== src/Subscription/Catalog/Validity.antt =====
-- What `validate` accepts.
use iov_vehicle_tbox_tsp.Prelude.{
  ◌≤◌, List, [], ◌∷◌, true, false, ◌≡◌, ◌≢◌, ◌↔◌, refl, inl, inr, none, All, Text, any, text_eq,
  text_eq_iff, is_empty, Bool-cases, arith, sym,
}
use iov_vehicle_tbox_tsp.Subscription.Types.{SubscriptionItem}
use iov_vehicle_tbox_tsp.Subscription.Catalog.{
  has_substring, deprecated_device_sn, validate_item, validate_from, validate,
}

-- An item with its fields in place.
pub record IsValidItem (item : SubscriptionItem) : Type 0 where
  pub route : item.route_id ≢ []
  pub topic : item.topic_template ≢ []
  pub no_device_sn : has_substring deprecated_device_sn item.topic_template ≡ false
  pub target : item.target ≢ []
  pub qos : item.qos ≤ 2

-- No two items share a route id.
abbrev pub AllDistinct : List SubscriptionItem → Type 0
AllDistinct [] = Unit {0}
AllDistinct (item ∷ items) = All (λ i. item.route_id ≢ i.route_id) items × AllDistinct items

abbrev Avoids : List Text → SubscriptionItem → Type 0
Avoids seen item = All (λ r. item.route_id ≢ r) seen

empty_iff : (s : Text) → (is_empty s ≡ true) ↔ (s ≡ [])
empty_iff [] = (λ h. refl, λ h. refl)
empty_iff (c ∷ s) = (λ h. cc, λ h. cc)

validate_item_iff : (item : SubscriptionItem) → (validate_item item ≡ none) ↔ IsValidItem item
unfolding validate_item
validate_item_iff item =
    let r = empty_iff item.route_id in
    let t = empty_iff item.topic_template in
    let g = empty_iff item.target in
    (
      λ h. record {
        route = λ e. ground (arith, r.1 e);
        topic = λ e. ground (arith, t.1 e);
        no_device_sn = ground arith;
        target = λ e. ground (arith, g.1 e);
        qos = ground arith;
      },
      λ v. ground (arith, r.0, t.0, g.0, v, v.route, v.topic, v.target, v.no_device_sn, v.qos),
    )

any-avoids : (r : Text) (seen : List Text) → any (text_eq r) seen ≡ false → All (λ s. r ≢ s) seen
any-avoids r [] h = tt
any-avoids r (s ∷ seen) h =
    (λ e. ground (arith, (text_eq_iff r s).1 e), any-avoids r seen (ground arith))

avoids-any : (r : Text) (seen : List Text) → All (λ s. r ≢ s) seen → any (text_eq r) seen ≡ false
avoids-any r [] h = refl
avoids-any r (s ∷ seen) h = elim (Bool-cases (text_eq r s)) [
  | inl same ↦ absurd (h.0 ((text_eq_iff r s).0 same))
  | inr other ↦ rw other (avoids-any r seen h.1)
]

abbrev Accepts : List Text → List SubscriptionItem → Type 0
Accepts seen items = All IsValidItem items × AllDistinct items × All (Avoids seen) items

All-tail :
    (r : Text) (seen : List Text) (items : List SubscriptionItem)
    → All (Avoids (r ∷ seen)) items
    → All (λ i. r ≢ i.route_id) items × All (Avoids seen) items
All-tail r seen [] h = (tt, tt)
All-tail r seen (i ∷ items) h =
    let rest = All-tail r seen items h.1 in ((λ e. h.0.0 (sym e), rest.0), (h.0.1, rest.1))

All-extend :
    (r : Text) (seen : List Text) (items : List SubscriptionItem)
    → All (λ i. r ≢ i.route_id) items
    → All (Avoids seen) items
    → All (Avoids (r ∷ seen)) items
All-extend r seen [] h k = tt
All-extend r seen (i ∷ items) h k = ((λ e. h.0 (sym e), k.0), All-extend r seen items h.1 k.1)

accepted-Accepts :
    (seen : List Text) (items : List SubscriptionItem)
    → validate_from seen items ≡ none
    → Accepts seen items
unfolding validate_from
accepted-Accepts seen [] h = (tt, tt, tt)
accepted-Accepts seen (item ∷ items) h =
    let rest = accepted-Accepts (item.route_id ∷ seen) items (ground arith) in
    let split = All-tail item.route_id seen items rest.2 in
    (
      ((validate_item_iff item).0 (ground arith), rest.0),
      (split.0, rest.1),
      (any-avoids item.route_id seen (ground arith), split.1),
    )

Accepts-accepted :
    (seen : List Text) (items : List SubscriptionItem)
    → Accepts seen items
    → validate_from seen items ≡ none
unfolding validate_from
Accepts-accepted seen [] h = refl
Accepts-accepted seen (item ∷ items) h = ground (
  arith,
  (validate_item_iff item).1 h.0.0,
  avoids-any item.route_id seen h.2.0,
  Accepts-accepted (item.route_id ∷ seen) items
      (h.0.1, h.1.1, All-extend item.route_id seen items h.1.0 h.2.1),
)

All-Avoids_none : (items : List SubscriptionItem) → All (Avoids []) items
All-Avoids_none [] = tt
All-Avoids_none (i ∷ items) = (tt, All-Avoids_none items)

-- A directory is accepted exactly when every item is complete (route, topic and target not empty, no
-- deprecated {device_sn}, QoS at most 2) and no two items share a route id.
pub validate_iff :
    (items : List SubscriptionItem)
    → (validate items ≡ none) ↔ (All IsValidItem items × AllDistinct items)
unfolding validate
validate_iff items = (
  λ h. let a = accepted-Accepts [] items h in (a.0, a.1),
  λ h. Accepts-accepted [] items (h.0, h.1, All-Avoids_none items),
)
