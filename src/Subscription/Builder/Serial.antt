-- ===== src/Subscription/Builder/Serial.antt =====
-- What the serialisation of an item keeps: with no separator inside the free texts it can be read
-- back, and with one it cannot.
use mathlib.Core.List.{append_assoc}
use iov_vehicle_tbox_tsp.Prelude.{
  ℕ, ◌≤◌, [], ◌∷◌, ◌++◌, Bool, true, false, ◌≡◌, ◌≢◌, refl, Option, none, some, Text, All, arith,
}
use iov_vehicle_tbox_tsp.Subscription.Types.{
  Direction, up, down, bidirectional, direction_to_string, SubscriptionCriticality,
  subscription_criticality_to_string, SubscriptionItem,
}
use iov_vehicle_tbox_tsp.Subscription.Builder.{
  bar, bool_to_string, enabled_to_string, uint8_to_string, serialize_item,
}

abbrev pub HasNoBar : Text → Type 0
HasNoBar = All (λ c. c ≢ bar)

-- A text up to its first bar.
bar_cancel :
    (a b r s : Text) → HasNoBar a → HasNoBar b → a ++ (bar ∷ r) ≡ b ++ (bar ∷ s) → (a ≡ b) × (r ≡ s)
bar_cancel [] [] r s ha hb h = (refl, ground arith)
bar_cancel [] (d ∷ b) r s ha hb h = absurd (hb.0 (ground arith))
bar_cancel (c ∷ a) [] r s ha hb h = absurd (ha.0 (ground arith))
bar_cancel (c ∷ a) (d ∷ b) r s ha hb h =
    let (e, t) = bar_cancel a b r s ha.1 hb.1 (ground arith) in
    let head : c ≡ d = ground arith in (cc (head, e), t)

direction-HasNoBar : (d : Direction) → HasNoBar (direction_to_string d)
direction-HasNoBar up = omega arith
direction-HasNoBar down = omega arith
direction-HasNoBar bidirectional = omega arith

bool-HasNoBar : (b : Bool) → HasNoBar (bool_to_string b)
bool-HasNoBar true = omega arith
bool-HasNoBar false = omega arith

enabled-HasNoBar : (o : Option Bool) → HasNoBar (enabled_to_string o)
enabled-HasNoBar none = omega arith
enabled-HasNoBar (some b) = bool-HasNoBar b

qos-HasNoBar : (n : ℕ) → n ≤ 2 → HasNoBar (uint8_to_string n)
unfolding uint8_to_string
qos-HasNoBar n h = ground arith

qos_eq : (m n : ℕ) → m ≤ 2 → n ≤ 2 → uint8_to_string m ≡ uint8_to_string n → m ≡ n
unfolding uint8_to_string
qos_eq m n h k e = ground arith

direction_eq : (d e : Direction) → direction_to_string d ≡ direction_to_string e → d ≡ e
direction_eq d e h = ground arith

enabled_eq : (o p : Option Bool) → enabled_to_string o ≡ enabled_to_string p → o ≡ p
enabled_eq o p h = ground arith

bool_eq : (a b : Bool) → bool_to_string a ≡ bool_to_string b → a ≡ b
bool_eq a b h = ground arith

criticality_eq :
    (a b : SubscriptionCriticality)
    → subscription_criticality_to_string a ≡ subscription_criticality_to_string b
    → a ≡ b
criticality_eq a b h = ground arith

-- The free texts of an item hold no separator, and its QoS is valid.
pub record IsPlain (item : SubscriptionItem) : Type 0 where
  pub route : HasNoBar item.route_id
  pub topic : HasNoBar item.topic_template
  pub target : HasNoBar item.target
  pub scope : HasNoBar item.readiness_scope
  pub qos : item.qos ≤ 2

-- Items whose texts hold no `|` and whose QoS is at most 2 are equal as soon as their serialisations
-- are.
pub serialize_injective :
    (x y : SubscriptionItem) → IsPlain x → IsPlain y → serialize_item x ≡ serialize_item y → x ≡ y
unfolding serialize_item
serialize_injective x y p q h =
    let (e1, h1) = bar_cancel x.route_id y.route_id _ _ p.route q.route h in
    let (e2, h2) = bar_cancel x.topic_template y.topic_template _ _ p.topic q.topic h1 in
    let (e3, h3) =
      bar_cancel _ _ _ _ (direction-HasNoBar x.direction) (direction-HasNoBar y.direction) h2 in
    let (e4, h4) = bar_cancel _ _ _ _ (qos-HasNoBar x.qos p.qos) (qos-HasNoBar y.qos q.qos) h3 in
    let (e5, h5) = bar_cancel x.target y.target _ _ p.target q.target h4 in
    let (e6, h6) = bar_cancel _ _ _ _ (bool-HasNoBar x.mandatory) (bool-HasNoBar y.mandatory) h5 in
    let (e7, h7) =
      bar_cancel _ _ _ _ (enabled-HasNoBar x.enabled) (enabled-HasNoBar y.enabled) h6 in
    let (e8, h8) = bar_cancel x.readiness_scope y.readiness_scope _ _ p.scope q.scope h7 in
    let d = direction_eq x.direction y.direction e3 in
    let n = qos_eq x.qos y.qos p.qos q.qos e4 in
    let m = bool_eq x.mandatory y.mandatory e6 in
    let o = enabled_eq x.enabled y.enabled e7 in
    let c = criticality_eq x.criticality y.criticality h8 in cc (e1, e2, d, n, e5, m, o, e8, c)

-- The separator is not escaped: an item whose route id ends in `|` and more is serialised like the one
-- whose topic begins with that part, for every text in between.
pub serialize_ambiguous :
    (item : SubscriptionItem) (a b c : Text)
    → serialize_item (record item { route_id = a ++ (bar ∷ b); topic_template = c })
      ≡ serialize_item (record item { route_id = a; topic_template = b ++ (bar ∷ c) })
unfolding serialize_item
serialize_ambiguous item a b c = simp append_assoc
