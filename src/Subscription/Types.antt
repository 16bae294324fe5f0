-- ===== src/Subscription/Types.antt =====
-- include/subscription_types.h. `uint8_t` and `uint64_t` fields are natural numbers.
use iov_vehicle_tbox_tsp.Prelude.{
  ℕ, ◌-◌, List, [], map, Bool, true, false, ◌&&◌, ◌||◌, Option, none, some, Text, codes, text_eq,
  leb, if◌then◌else◌,
}

pub data Direction : Type 0 where
  up down bidirectional : Direction

abbrev pub direction_to_string : Direction → Text
direction_to_string up = codes "UP"
direction_to_string down = codes "DOWN"
direction_to_string bidirectional = codes "BIDIRECTIONAL"

-- `std::toupper` in the C locale.
unfoldable pub to_upper : ℕ → ℕ
to_upper c = if leb b'a' c && leb c b'z' then c - 32 else c

unfoldable pub direction_from_string : Text → Option Direction
direction_from_string s =
    let upper = map to_upper s in
    if text_eq upper (codes "UP")
    then some up
    else if text_eq upper (codes "DOWN")
    then some down
    else if text_eq upper (codes "BIDIRECTIONAL") || text_eq upper (codes "BIDI")
    then some bidirectional
    else none

pub data SubscriptionCriticality : Type 0 where
  optional global_mandatory capability_mandatory : SubscriptionCriticality

abbrev pub subscription_criticality_to_string : SubscriptionCriticality → Text
subscription_criticality_to_string optional = codes "OPTIONAL"
subscription_criticality_to_string global_mandatory = codes "GLOBAL_MANDATORY"
subscription_criticality_to_string capability_mandatory = codes "CAPABILITY_MANDATORY"

unfoldable pub subscription_criticality_from_string : Text → Option SubscriptionCriticality
subscription_criticality_from_string s =
    if text_eq s (codes "OPTIONAL")
    then some optional
    else if text_eq s (codes "GLOBAL_MANDATORY")
    then some global_mandatory
    else if text_eq s (codes "CAPABILITY_MANDATORY")
    then some capability_mandatory
    else none

pub record SubscriptionItem : Type 0 where
  pub route_id : Text
  pub topic_template : Text
  pub direction : Direction
  pub qos : ℕ
  pub target : Text
  pub mandatory : Bool
  pub enabled : Option Bool
  pub readiness_scope : Text
  pub criticality : SubscriptionCriticality

pub record SubscriptionSnapshot : Type 0 where
  pub owner : Text
  pub generation : ℕ
  pub content_digest : Text
  pub registration_complete : Bool
  pub contract_version : ℕ
  pub items : List SubscriptionItem

abbrev pub subscription_contract_version : ℕ
subscription_contract_version = 1

abbrev pub empty_snapshot : SubscriptionSnapshot
empty_snapshot = record {
  owner = [];
  generation = 0;
  content_digest = [];
  registration_complete = false;
  contract_version = subscription_contract_version;
  items = [];
}

pub data SnapshotStatus : Type 0 where
  accepted rejected unknown : SnapshotStatus

abbrev pub is_accepted : SnapshotStatus → Bool
is_accepted accepted = true
is_accepted _ = false

pub record ReplaceSnapshotResult : Type 0 where
  pub status : SnapshotStatus
  pub accepted_generation : ℕ
  pub rejected_route_ids : List Text
  pub reason_code : Text

pub data RegistrationState : Type 0 where
  not_registered registering registered degraded : RegistrationState

abbrev pub is_registered : RegistrationState → Bool
is_registered registered = true
is_registered _ = false

pub record RegistrationStatus : Type 0 where
  pub state : RegistrationState
  pub generation : ℕ
  pub content_digest_hash : Text
  pub mandatory_count : ℕ
  pub item_count : ℕ
  pub last_result : SnapshotStatus
  pub last_error : Text
  pub retry_count : ℕ
  pub updated_at_ms : ℕ
