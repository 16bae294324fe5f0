-- ===== src/Tests/SubscriptionTests.antt =====
-- The subscription theorems at concrete inputs; the identity stands for SHA-256.
use mathlib.Core.List.{Permᴰ}
use iov_vehicle_tbox_tsp.Prelude.{
  ◌+◌, ◌++◌, List, [], ◌∷◌, true, false, ◌≡◌, ◌≢◌, ◌↔◌, ◌⊎◌, refl, none, some, All, Text, codes,
  ltb, arith, pos,
}
use iov_vehicle_tbox_tsp.Subscription.Types.{
  up, down, optional, SubscriptionItem, SnapshotStatus, accepted, rejected, unknown, degraded,
}
use iov_vehicle_tbox_tsp.Subscription.Catalog.{
  SubscriptionCatalog, YamlEntry, validate, validate_from, validate_item, has_substring,
  starts_with, load_from_yaml,
}
use iov_vehicle_tbox_tsp.Subscription.Catalog.Validity.{IsValidItem, AllDistinct, validate_iff}
use iov_vehicle_tbox_tsp.Subscription.Catalog.Loading.{IsAtomic, load-IsAtomic}
use iov_vehicle_tbox_tsp.Subscription.Builder.{
  build, compute_digest, canonical_text, sorted_by_route_id, insert_item, text_lt, serialize_item,
  bar,
}
use iov_vehicle_tbox_tsp.Subscription.Builder.Digest.{build_of_perm}
use iov_vehicle_tbox_tsp.Subscription.Builder.Serial.{
  IsPlain, serialize_injective, serialize_ambiguous,
}
use iov_vehicle_tbox_tsp.Subscription.Store.{SubscriptionStore, load_values, load, save}
use iov_vehicle_tbox_tsp.Subscription.Store.RoundTrip.{load-save}
use iov_vehicle_tbox_tsp.Subscription.Registrar.{
  Moment, Registrar, new_registrar, start, apply_catalog_change, no_result,
}
use iov_vehicle_tbox_tsp.Subscription.Registrar.Changes.{Refusal, SameDirectory, change_rejected}
use iov_vehicle_tbox_tsp.Subscription.Registrar.Submission.{IsConsistent}
use iov_vehicle_tbox_tsp.Subscription.Registrar.Runs.{
  do_tick, do_change, run_all, run_all-IsConsistent,
}
use iov_vehicle_tbox_tsp.Subscription.Registrar.Restart.{restart_generation, unready_store_refuses}

abbrev identity : Text → Text
identity text = text

abbrev uplink : SubscriptionItem
uplink = record {
  route_id = codes "fota.uplink";
  topic_template = codes "up/{ecu_uid}";
  direction = up;
  qos = 1;
  target = codes "tsp.fota";
  mandatory = true;
  enabled = none;
  readiness_scope = [];
  criticality = optional;
}

abbrev downlink : SubscriptionItem
downlink = record uplink {
  route_id = codes "fota.downlink";
  topic_template = codes "down/{ecu_uid}";
  direction = down;
}

abbrev two_items : List SubscriptionItem
two_items = uplink ∷ downlink ∷ []

abbrev two_catalog : SubscriptionCatalog
two_catalog = record { items = two_items; mandatory_count = 2 }

abbrev empty_catalog : SubscriptionCatalog
empty_catalog = record { items = []; mandatory_count = 0 }

abbrev ready_store : SubscriptionStore
ready_store = record { ready = true; generation_value = none; digest_value = none }

abbrev broken_store : SubscriptionStore
broken_store = record { ready = false; generation_value = none; digest_value = none }

abbrev uplink_entry : YamlEntry
uplink_entry = record {
  route_id = codes "fota.uplink";
  topic_template = codes "up";
  direction = codes "up";
  qos = some (pos 1);
  target = codes "tsp.fota";
  mandatory = true;
  enabled = none;
  readiness_scope = [];
  criticality = [];
}

abbrev answered : SnapshotStatus → Moment
answered status = record {
  now = 1000;
  rand = 7;
  connected = true;
  reply = record no_result { status = status };
}

abbrev fresh : Registrar
fresh = new_registrar two_catalog ready_store

validate_iff_example :
    (validate two_items ≡ none) ↔ (All IsValidItem two_items × AllDistinct two_items)
validate_iff_example = validate_iff two_items

load-IsAtomic_example :
    IsAtomic empty_catalog
      (some (some uplink_entry ∷ some (record uplink_entry { enabled = some none }) ∷ []))
      (load_from_yaml empty_catalog
        (some (some uplink_entry ∷ some (record uplink_entry { enabled = some none }) ∷ [])))
load-IsAtomic_example =
    load-IsAtomic empty_catalog
      (some (some uplink_entry ∷ some (record uplink_entry { enabled = some none }) ∷ []))

build_of_perm_example :
    build identity (uplink ∷ downlink ∷ []) (codes "tsp") 4 (codes "x")
    ≡ build identity (downlink ∷ uplink ∷ []) (codes "tsp") 4 (codes "x")
build_of_perm_example =
    build_of_perm identity (uplink ∷ downlink ∷ []) (downlink ∷ uplink ∷ []) (codes "tsp") 4
      (codes "x") (Permᴰ.swap refl refl) ((λ e. cc, tt), (tt, tt))

uplink-IsPlain : IsPlain uplink
uplink-IsPlain = record {
  route = omega arith;
  topic = omega arith;
  target = omega arith;
  scope = tt;
  qos = omega arith;
}

serialize_injective_example : uplink ≡ uplink
serialize_injective_example = serialize_injective uplink uplink uplink-IsPlain uplink-IsPlain refl

serialize_ambiguous_example :
    serialize_item
      (record uplink { route_id = codes "a" ++ (bar ∷ codes "b"); topic_template = codes "c" })
    ≡ serialize_item
        (record uplink { route_id = codes "a"; topic_template = codes "b" ++ (bar ∷ codes "c") })
serialize_ambiguous_example = serialize_ambiguous uplink (codes "a") (codes "b") (codes "c")

load-save_example :
    load (save ready_store 12 (codes "ab"))
    ≡ record { generation = 12; digest = codes "ab"; found = ltb 0 12 }
load-save_example = load-save ready_store 12 (codes "ab") refl (omega arith)

change_rejected_example :
    SameDirectory fresh (apply_catalog_change identity (answered rejected) (uplink ∷ []) fresh).0
    × Refusal identity (answered rejected) (uplink ∷ []) fresh
change_rejected_example = change_rejected identity (answered rejected) (uplink ∷ []) fresh refl

run_all-IsConsistent_example : IsConsistent (
    run_all identity
      (do_change (answered unknown) (uplink ∷ []) ∷ do_tick (answered accepted) ∷ [])
      (start identity (answered rejected) false fresh))
run_all-IsConsistent_example =
    run_all-IsConsistent identity (answered rejected) false
      (do_change (answered unknown) (uplink ∷ []) ∷ do_tick (answered accepted) ∷ []) fresh

restart_generation_example :
    ((compute_digest identity [] ≡ compute_digest identity two_items)
      × ((start identity (answered accepted) true (
            new_registrar empty_catalog
              (start identity (answered unknown) true fresh).store)).current_snapshot.generation
          ≡ (start identity (answered unknown) true fresh).current_snapshot.generation))
    ⊎ ((compute_digest identity [] ≢ compute_digest identity two_items)
        × ((start identity (answered accepted) true (
              new_registrar empty_catalog
                (start identity (answered unknown) true fresh).store)).current_snapshot.generation
            ≡ (start identity (answered unknown) true fresh).current_snapshot.generation + 1))
restart_generation_example =
    restart_generation identity (answered unknown) (answered accepted) true true two_catalog
      ready_store empty_catalog refl (unfold load load_values in omega arith)

uplink_valid : validate (uplink ∷ []) ≡ none
unfolding validate validate_from validate_item has_substring starts_with
uplink_valid = refl

other_digest : compute_digest identity (uplink ∷ []) ≢ compute_digest identity two_items
unfolding compute_digest canonical_text sorted_by_route_id insert_item text_lt serialize_item
other_digest e = cc

unready_store_refuses_example :
    let r = start identity (answered accepted) true (new_registrar two_catalog broken_store) in
    SameDirectory r (apply_catalog_change identity (answered accepted) (uplink ∷ []) r).0
    × ((apply_catalog_change identity (answered accepted) (uplink ∷ []) r).0.status.state
        ≡ degraded)
unready_store_refuses_example =
    unready_store_refuses identity (answered accepted) (answered accepted) true true two_catalog
      broken_store (uplink ∷ []) refl refl uplink_valid other_digest
