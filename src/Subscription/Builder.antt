-- ===== src/Subscription/Builder.antt =====
-- src/snapshot_builder.cpp: canonical serialisation, digest and generation of a snapshot. SHA-256 (as
-- hex) is the framework's: a parameter.
pub mod Order
pub mod Digest
pub mod Serial
pub mod Generation
use iov_vehicle_tbox_tsp.Prelude.{
  ℕ, zero, suc, ◌+◌, ◌/◌, ◌%◌, ◌++◌, List, [], ◌∷◌, Bool, true, false, ◌&&◌, ◌||◌, Option, none,
  some, Text, codes, text_eq, ◌==◌, ltb, u64, if◌then◌else◌,
}
use iov_vehicle_tbox_tsp.Subscription.Types.{
  direction_to_string, subscription_criticality_to_string, SubscriptionItem, SubscriptionSnapshot,
  subscription_contract_version,
}

-- `<` of std::string.
unfoldable pub text_lt : Text → Text → Bool
text_lt [] [] = false
text_lt [] (d ∷ t) = true
text_lt (c ∷ s) [] = false
text_lt (c ∷ s) (d ∷ t) = ltb c d || (c == d && text_lt s t)

-- `std::stable_sort` by route id: an item goes before those that are not smaller.
unfoldable pub insert_item : SubscriptionItem → List SubscriptionItem → List SubscriptionItem
insert_item x [] = x ∷ []
insert_item x (y ∷ ys) =
    let rest = insert_item x ys in if text_lt y.route_id x.route_id then y ∷ rest else x ∷ y ∷ ys

unfoldable pub sorted_by_route_id : List SubscriptionItem → List SubscriptionItem
sorted_by_route_id [] = []
sorted_by_route_id (x ∷ xs) = insert_item x (sorted_by_route_id xs)

-- `std::to_string` of a `uint8_t`.
unfoldable pub uint8_to_string : ℕ → Text
uint8_to_string n =
    if ltb n 10
    then (48 + n) ∷ []
    else if ltb n 100
    then (48 + n / 10) ∷ (48 + n % 10) ∷ []
    else (48 + n / 100) ∷ (48 + n / 10 % 10) ∷ (48 + n % 10) ∷ []

abbrev pub bar : ℕ
bar = b'|'

abbrev pub bool_to_string : Bool → Text
bool_to_string true = codes "1"
bool_to_string false = codes "0"

abbrev pub enabled_to_string : Option Bool → Text
enabled_to_string none = codes "-"
enabled_to_string (some b) = bool_to_string b

unfoldable pub serialize_item : SubscriptionItem → Text
serialize_item item =
    item.route_id
    ++ (bar
        ∷ (item.topic_template
            ++ (bar
                ∷ (direction_to_string item.direction
                    ++ (bar
                        ∷ (uint8_to_string item.qos
                            ++ (bar
                                ∷ (item.target
                                    ++ (bar
                                        ∷ (bool_to_string item.mandatory
                                            ++ (bar
                                                ∷ (enabled_to_string item.enabled
                                                    ++ (bar
                                                        ∷ (item.readiness_scope
                                                            ++ (bar
                                                            ∷ subscription_criticality_to_string
                                                            item.criticality)))))))))))))))

-- The loop of `compute_digest`: each item and a line feed.
unfoldable pub canonical_text : List SubscriptionItem → Text
canonical_text [] = []
canonical_text (x ∷ xs) = serialize_item x ++ (10 ∷ canonical_text xs)

module _ (sha256_hex : Text → Text) where
  unfoldable pub compute_digest : List SubscriptionItem → Text
  compute_digest items = sha256_hex (canonical_text (sorted_by_route_id items))

  unfoldable pub build : List SubscriptionItem → Text → ℕ → Text → SubscriptionSnapshot
  build items owner current_generation current_digest = record {
    owner = owner;
    items = sorted_by_route_id items;
    content_digest = compute_digest items;
    generation =
        if ltb 0 current_generation && text_eq (compute_digest items) current_digest
        then current_generation
        else u64 (current_generation + 1);
    registration_complete = true;
    contract_version = subscription_contract_version;
  }
