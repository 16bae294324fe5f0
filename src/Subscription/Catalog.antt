-- ===== src/Subscription/Catalog.antt =====
-- src/subscription_catalog.cpp: validation, loading and replacing of the subscription directory.
pub mod Validity
pub mod Loading
use iov_vehicle_tbox_tsp.Prelude.{
  ℕ, zero, suc, ◌+◌, ◌-◌, ◌%◌, ◌++◌, List, [], ◌∷◌, Bool, true, false, not, ◌&&◌, ◌||◌, Option,
  none, some, Text, codes, text_eq, ◌==◌, ltb, is_empty, any, u32, ℤ, pos, negsuc, leb_ℤ, ltb_ℤ,
  ◌^◌, if◌then◌else◌,
}
use iov_vehicle_tbox_tsp.Subscription.Types.{
  Direction, direction_from_string, SubscriptionCriticality, optional,
  subscription_criticality_from_string, SubscriptionItem,
}

unfoldable pub starts_with : Text → Text → Bool
starts_with [] s = true
starts_with (c ∷ p) [] = false
starts_with (c ∷ p) (d ∷ s) = c == d && starts_with p s

-- `s.find(needle) != npos`.
unfoldable pub has_substring : Text → Text → Bool
has_substring needle [] = is_empty needle
has_substring needle (c ∷ s) = starts_with needle (c ∷ s) || has_substring needle s

abbrev pub deprecated_device_sn : Text
deprecated_device_sn = codes "{device_sn}"

-- The error of an item, if it has one.
unfoldable pub validate_item : SubscriptionItem → Option Text
validate_item item =
    if is_empty item.route_id
    then some (codes "route_id is empty")
    else if is_empty item.topic_template
    then some (codes "topic_template is empty for route_id=" ++ item.route_id)
    else if has_substring deprecated_device_sn item.topic_template
    then some (
        codes "topic_template uses deprecated {device_sn} for route_id="
        ++ (item.route_id ++ codes ", use {ecu_uid}"))
    else if is_empty item.target
    then some (codes "target is empty for route_id=" ++ item.route_id)
    else if ltb 2 item.qos
    then some (codes "qos out of range [0,2] for route_id=" ++ item.route_id)
    else none

-- The loop of `validate`; `seen` is the set of the route ids before.
unfoldable pub validate_from : List Text → List SubscriptionItem → Option Text
validate_from seen [] = none
validate_from seen (item ∷ items) =
    let rest = validate_from (item.route_id ∷ seen) items in
    elim (validate_item item) [
      | some error ↦ some error
      | none ↦
          if any (text_eq item.route_id) seen
          then some (codes "duplicate route_id=" ++ item.route_id)
          else rest
    ]

unfoldable pub validate : List SubscriptionItem → Option Text
validate items = validate_from [] items

pub record SubscriptionCatalog : Type 0 where
  pub items : List SubscriptionItem
  pub mandatory_count : ℕ

unfoldable pub count_mandatory : List SubscriptionItem → ℕ
count_mandatory [] = 0
count_mandatory (item ∷ items) =
    let rest = count_mandatory items in if item.mandatory then suc rest else rest

unfoldable pub replace : List SubscriptionItem → SubscriptionCatalog
replace items = record { items = items; mandatory_count = u32 (count_mandatory items) }

-- One entry of the YAML sequence: what its accessors `as<T>(default)` return, except for `qos`, which is
-- the integer written there, if one is; and for `enabled`, which may be absent, and where a value that
-- is no Boolean is `some none`.
pub record YamlEntry : Type 0 where
  pub route_id : Text
  pub topic_template : Text
  pub direction : Text
  pub qos : Option ℤ
  pub target : Text
  pub mandatory : Bool
  pub enabled : Option (Option Bool)
  pub readiness_scope : Text
  pub criticality : Text

-- `as<int>(fallback)`: an integer outside of `int` is not converted.
unfoldable pub as_int : ℤ → Option ℤ → ℤ
as_int fallback none = fallback
as_int fallback (some z) =
    if leb_ℤ (negsuc (2 ^ 31 - 1)) z && ltb_ℤ z (pos (2 ^ 31)) then z else fallback

-- `static_cast<uint8_t>(int)`.
unfoldable pub to_uint8 : ℤ → ℕ
to_uint8 (pos n) = n % 256
to_uint8 (negsuc n) = 255 - n % 256

unfoldable pub parse_criticality : Text → Option SubscriptionCriticality
parse_criticality s = if is_empty s then some optional else subscription_criticality_from_string s

-- How reading ends: with a value, with an error, or with an exception of the YAML library.
pub data Parsed {ℓ} (A : Type ℓ) : Type ℓ where
  parsed : A → Parsed A
  unreadable : Text → Parsed A
  thrown : Parsed A

unfoldable pub item_of :
    YamlEntry → Direction → Option Bool → SubscriptionCriticality → SubscriptionItem
item_of entry direction enabled criticality = record {
  route_id = entry.route_id;
  topic_template = entry.topic_template;
  direction = direction;
  qos = to_uint8 (as_int (pos 1) entry.qos);
  target = entry.target;
  mandatory = entry.mandatory;
  enabled = enabled;
  readiness_scope = entry.readiness_scope;
  criticality = criticality;
}

unfoldable pub with_criticality :
    YamlEntry → Direction → Option Bool → Option SubscriptionCriticality → Parsed SubscriptionItem
with_criticality entry direction enabled none = unreadable (
    codes "invalid criticality '"
    ++ (entry.criticality ++ (codes "' for route_id=" ++ entry.route_id)))
with_criticality entry direction enabled (some criticality) =
    parsed (item_of entry direction enabled criticality)

-- The end of an entry, once its direction and `enabled` are known.
unfoldable pub parse_rest : YamlEntry → Direction → Option Bool → Parsed SubscriptionItem
parse_rest entry direction enabled =
    with_criticality entry direction enabled (parse_criticality entry.criticality)

-- `as<bool>()` has no default.
unfoldable pub parse_enabled :
    YamlEntry → Direction → Option (Option Bool) → Parsed SubscriptionItem
parse_enabled entry direction none = parse_rest entry direction none
parse_enabled entry direction (some none) = thrown
parse_enabled entry direction (some (some flag)) = parse_rest entry direction (some flag)

unfoldable pub with_direction : YamlEntry → Option Direction → Parsed SubscriptionItem
with_direction entry none = unreadable (
    codes "invalid direction '" ++ (entry.direction ++ (codes "' for route_id=" ++ entry.route_id)))
with_direction entry (some direction) = parse_enabled entry direction entry.enabled

unfoldable pub parse_entry : YamlEntry → Parsed SubscriptionItem
parse_entry entry = with_direction entry (direction_from_string entry.direction)

-- An entry that is a scalar, `none`, throws at its first subscript.
unfoldable pub parse_node : Option YamlEntry → Parsed SubscriptionItem
parse_node none = thrown
parse_node (some entry) = parse_entry entry

-- The first entry that is not read ends the loop.
unfoldable pub and_items :
    Parsed SubscriptionItem → Parsed (List SubscriptionItem) → Parsed (List SubscriptionItem)
and_items (unreadable error) rest = unreadable error
and_items thrown rest = thrown
and_items (parsed item) (unreadable error) = unreadable error
and_items (parsed item) thrown = thrown
and_items (parsed item) (parsed items) = parsed (item ∷ items)

unfoldable pub parse_entries : List (Option YamlEntry) → Parsed (List SubscriptionItem)
parse_entries [] = parsed []
parse_entries (entry ∷ entries) = and_items (parse_node entry) (parse_entries entries)

-- What `load_from_yaml` answers: true, false with its error, or the exception it passes on.
pub data LoadAnswer : Type 0 where
  loaded load_threw : LoadAnswer
  load_failed : Text → LoadAnswer

unfoldable pub store_items :
    SubscriptionCatalog → List SubscriptionItem → SubscriptionCatalog × LoadAnswer
store_items c items = elim (validate items) [
  | some error ↦ (c, load_failed error)
  | none ↦ (replace items, loaded)
]

unfoldable pub store_parsed :
    SubscriptionCatalog → Parsed (List SubscriptionItem) → SubscriptionCatalog × LoadAnswer
store_parsed c (unreadable error) = (c, load_failed error)
store_parsed c thrown = (c, load_threw)
store_parsed c (parsed items) = store_items c items

-- `load_from_yaml`: the catalog after the call, and its answer. A node that is no sequence gives no
-- item.
unfoldable pub load_from_yaml :
    SubscriptionCatalog → Option (List (Option YamlEntry)) → SubscriptionCatalog × LoadAnswer
load_from_yaml c none = store_items c []
load_from_yaml c (some entries) = store_parsed c (parse_entries entries)
