-- ===== src/Subscription/Store.antt =====
-- src/subscription_store.cpp over the framework's key-value store, of which TSP uses two string keys:
-- a store that is ready holds what was saved last, and one that is not ready holds nothing.
pub mod RoundTrip
use iov_vehicle_tbox_tsp.Prelude.{
  ℕ, zero, suc, ◌+◌, ◌-◌, ◌*◌, ◌/◌, ◌%◌, ◌^◌, ◌++◌, List, [], ◌∷◌, Bool, true, false, ◌&&◌, Option,
  none, some, Text, ltb, leb, if◌then◌else◌,
}

-- `std::to_string` of a `uint64_t`, which has at most 20 digits.
unfoldable pub digits : ℕ → ℕ → Text
digits zero n = []
digits (suc fuel) n =
    let rest = digits fuel (n / 10) in
    if ltb n 10 then (48 + n) ∷ [] else rest ++ ((48 + n % 10) ∷ [])

unfoldable pub uint64_to_string : ℕ → Text
uint64_to_string n = digits 20 n

abbrev pub is_digit : ℕ → Bool
is_digit c = leb b'0' c && leb c b'9'

-- The digits that `std::stoull` reads, up to the first other character.
unfoldable pub read_digits : ℕ → Text → ℕ
read_digits acc [] = acc
read_digits acc (c ∷ s) =
    let rest = read_digits (acc * 10 + (c - 48)) s in if is_digit c then rest else acc

-- `std::stoull` on a text with no leading space or sign: `none` is its exception.
unfoldable pub stoull : Text → Option ℕ
stoull [] = none
stoull (c ∷ s) =
    if is_digit c
    then (if ltb (read_digits 0 (c ∷ s)) (2 ^ 64) then some (read_digits 0 (c ∷ s)) else none)
    else none

pub record SubscriptionStore : Type 0 where
  pub ready : Bool
  pub generation_value : Option Text
  pub digest_value : Option Text

pub record Loaded : Type 0 where
  pub generation : ℕ
  pub digest : Text
  pub found : Bool

abbrev pub nothing_loaded : Loaded
nothing_loaded = record { generation = 0; digest = []; found = false }

unfoldable pub load_values : Option Text → Option Text → Loaded
load_values none digest = nothing_loaded
load_values (some text) none = nothing_loaded
load_values (some []) (some digest) = record { generation = 0; digest = digest; found = false }
load_values (some (c ∷ s)) (some digest) = elim (stoull (c ∷ s)) [
  | none ↦ nothing_loaded
  | some n ↦ record { generation = n; digest = digest; found = ltb 0 n }
]

unfoldable pub load : SubscriptionStore → Loaded
load s = if s.ready then load_values s.generation_value s.digest_value else nothing_loaded

unfoldable pub save : SubscriptionStore → ℕ → Text → SubscriptionStore
save s generation digest =
    if s.ready
    then record s {
      generation_value = some (uint64_to_string generation);
      digest_value = some digest;
    }
    else s
