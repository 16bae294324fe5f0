-- ===== src/Subscription/Catalog/Loading.antt =====
-- Loading replaces the directory as a whole or leaves it alone; and the QoS that validation sees.
use iov_vehicle_tbox_tsp.Prelude.{
  ℕ, ◌+◌, ◌*◌, ◌<◌, List, [], ◌≡◌, ◌≢◌, ◌⊎◌, ◌∷◌, refl, inl, inr, Option, none, some, All, pos,
  Bool, Text, Option-cases, arith, u32,
}
use iov_vehicle_tbox_tsp.Subscription.Types.{
  Direction, SubscriptionCriticality, SubscriptionItem, direction_from_string,
}
use iov_vehicle_tbox_tsp.Subscription.Catalog.{
  SubscriptionCatalog, YamlEntry, validate, replace, count_mandatory, parse_entry, parse_entries,
  LoadAnswer, loaded, load_threw, load_failed, Parsed, parsed, unreadable, thrown, parse_rest,
  parse_enabled, parse_node, with_criticality, with_direction, and_items, load_from_yaml, to_uint8,
  store_items, store_parsed,
}
use iov_vehicle_tbox_tsp.Subscription.Catalog.Validity.{IsValidItem, AllDistinct, validate_iff}

-- The directory's own invariant.
pub record IsSound (c : SubscriptionCatalog) : Type 0 where
  pub items : All IsValidItem c.items
  pub distinct : AllDistinct c.items
  pub counted : c.mandatory_count ≡ u32 (count_mandatory c.items)

replace-IsSound : (items : List SubscriptionItem) → validate items ≡ none → IsSound (replace items)
unfolding replace
replace-IsSound items h =
    let v = (validate_iff items).0 h in record { items = v.0; distinct = v.1; counted = refl }

-- An entry whose reading throws.
abbrev pub IsThrowing : Option YamlEntry → Type 0
IsThrowing none = Unit {0}
IsThrowing (some entry) = entry.enabled ≡ some none

abbrev pub HasThrowing : List (Option YamlEntry) → Type 0
HasThrowing [] = ⊥
HasThrowing (entry ∷ entries) = IsThrowing entry ⊎ HasThrowing entries

abbrev pub nodes_of : Option (List (Option YamlEntry)) → List (Option YamlEntry)
nodes_of none = []
nodes_of (some entries) = entries

with_criticality-ne-thrown :
    (entry : YamlEntry) (d : Direction) (flag : Option Bool) (o : Option SubscriptionCriticality)
    → with_criticality entry d flag o ≢ thrown
unfolding with_criticality
with_criticality-ne-thrown entry d flag none h = cc
with_criticality-ne-thrown entry d flag (some criticality) h = cc

parse_enabled-throws :
    (entry : YamlEntry) (d : Direction) (flag : Option (Option Bool))
    → parse_enabled entry d flag ≡ thrown
    → flag ≡ some none
unfolding parse_enabled parse_rest
parse_enabled-throws entry d none h = absurd (with_criticality-ne-thrown entry d none _ h)
parse_enabled-throws entry d (some none) h = refl
parse_enabled-throws entry d (some (some flag)) h =
    absurd (with_criticality-ne-thrown entry d (some flag) _ h)

with_direction-throws :
    (entry : YamlEntry) (o : Option Direction)
    → with_direction entry o ≡ thrown
    → entry.enabled ≡ some none
unfolding with_direction
with_direction-throws entry none h = cc
with_direction-throws entry (some d) h = parse_enabled-throws entry d entry.enabled h

parse_node-throws : (entry : Option YamlEntry) → parse_node entry ≡ thrown → IsThrowing entry
unfolding parse_node parse_entry
parse_node-throws none h = tt
parse_node-throws (some entry) h =
    with_direction-throws entry (direction_from_string entry.direction) h

and_items-throws :
    (first : Parsed SubscriptionItem) (rest : Parsed (List SubscriptionItem))
    → and_items first rest ≡ thrown
    → (first ≡ thrown) ⊎ (rest ≡ thrown)
unfolding and_items
and_items-throws (unreadable error) rest h = cc
and_items-throws thrown rest h = inl refl
and_items-throws (parsed item) (unreadable error) h = cc
and_items-throws (parsed item) thrown h = inr refl
and_items-throws (parsed item) (parsed items) h = cc

parse_entries-throws :
    (entries : List (Option YamlEntry)) → parse_entries entries ≡ thrown → HasThrowing entries
unfolding parse_entries
parse_entries-throws [] h = cc
parse_entries-throws (entry ∷ entries) h =
    elim (and_items-throws (parse_node entry) (parse_entries entries) h) [
      | inl first ↦ inl (parse_node-throws entry first)
      | inr rest ↦ inr (parse_entries-throws entries rest)
    ]

-- What an answer says of the directory before and after, and of the nodes that were read.
pub data IsAtomic (c : SubscriptionCatalog) (source : Option (List (Option YamlEntry)))
    : SubscriptionCatalog × LoadAnswer → Type 0 where
  took : {after : SubscriptionCatalog} → IsSound after → IsAtomic c source (after, loaded)
  kept_failed : (error : Text) → IsAtomic c source (c, load_failed error)
  kept_thrown : HasThrowing (nodes_of source) → IsAtomic c source (c, load_threw)

store_items-IsAtomic :
    (c : SubscriptionCatalog) (source : Option (List (Option YamlEntry)))
    (items : List SubscriptionItem)
    → IsAtomic c source (store_items c items)
unfolding store_items
store_items-IsAtomic c source items = elim (Option-cases (validate items)) [
  | inl fine ↦ rw (fine, store_items) (took (replace-IsSound items fine))
  | inr (e, bad) ↦ rw (bad, store_items) (kept_failed e)
]

store_parsed-IsAtomic :
    (c : SubscriptionCatalog) (source : Option (List (Option YamlEntry)))
    (p : Parsed (List SubscriptionItem))
    → (p ≡ thrown → HasThrowing (nodes_of source))
    → IsAtomic c source (store_parsed c p)
unfolding store_parsed
store_parsed-IsAtomic c source (unreadable error) h = kept_failed error
store_parsed-IsAtomic c source thrown h = kept_thrown (h refl)
store_parsed-IsAtomic c source (parsed items) h = store_items-IsAtomic c source items

-- Loading succeeds with a directory that is valid as a whole, with its mandatory items counted, or it
-- leaves the directory as it was: it fails with an error, or passes on an exception, which only an
-- entry that is a scalar, or whose `enabled` is no Boolean, makes it throw.
pub load-IsAtomic :
    (c : SubscriptionCatalog) (source : Option (List (Option YamlEntry)))
    → IsAtomic c source (load_from_yaml c source)
unfolding load_from_yaml
load-IsAtomic c none = store_items-IsAtomic c none []
load-IsAtomic c (some entries) =
    store_parsed-IsAtomic c (some entries) (parse_entries entries) (parse_entries-throws entries)

to_uint8_wraps : (k q : ℕ) → q < 256 → to_uint8 (pos (256 * k + q)) ≡ to_uint8 (pos q)
unfolding to_uint8
to_uint8_wraps k q h = omega arith
