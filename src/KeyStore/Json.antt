-- ===== src/KeyStore/Json.antt =====
-- The JSON library as the store uses it: a parameter. A conversion that throws gives `none`.
use iov_vehicle_tbox_tsp.Prelude.{
  ℕ, ◌-◌, ◌<◌, ◌^◌, ◌≡◌, ◌≢◌, refl, All, List, [], ◌∷◌, map, Bool, true, Option, none, some, ◌>>=◌,
  Text, text_eq, ℤ, pos, negsuc, ◌≤ℤ◌, ◌<ℤ◌, if◌then◌else◌,
}

pub record JsonLibrary : Type 1 where
  pub Json : Type 0
  pub of_object : List (Text × Json) → Json
  pub of_array : List Json → Json
  pub of_number : ℤ → Json
  pub of_text : Text → Json
  pub of_flag : Bool → Json
  pub lookup : Json → Text → Option Json
  pub is_object : Json → Bool
  -- `get<uint32_t>`, `get<uint64_t>`, `get<int64_t>`, `get<int>`, and `get<int>` of the value of an
  -- enumeration, which is not negative.
  pub to_u32 : Json → Option ℕ
  pub to_u64 : Json → Option ℕ
  pub to_i64 : Json → Option ℤ
  pub to_i32 : Json → Option ℤ
  pub to_enum : Json → Option ℕ
  pub to_text : Json → Option Text
  pub to_flag : Json → Option Bool
  pub to_array : Json → Option (List Json)
  -- `none` is the exception on a text that is not UTF-8.
  pub dump : Json → Option Text
  pub parse : Text → Option Json

abbrev pub find_field {ℓ} : {A : Type ℓ} → Text → List (Text × A) → Option A
find_field key [] = none
find_field key ((name, value) ∷ fields) =
    let rest = find_field key fields in if text_eq name key then some value else rest

abbrev pub IsI64 : ℤ → Type 0
IsI64 z = (negsuc (2 ^ 63 - 1) ≤ℤ z) × (z <ℤ pos (2 ^ 63))

-- What the library documents: values are read back as written, at the width they are written with,
-- and the text of a value, where it can be written, is not empty and parses to that value.
pub record IsFaithful (lib : JsonLibrary) : Type 0 where
  pub object_lookup :
      (fields : List (Text × lib.Json)) (key : Text)
      → lib.lookup (lib.of_object fields) key ≡ find_field key fields
  pub object : (fields : List (Text × lib.Json)) → lib.is_object (lib.of_object fields) ≡ true
  pub u32 : (n : ℕ) → n < 2 ^ 32 → lib.to_u32 (lib.of_number (pos n)) ≡ some n
  pub u64 : (n : ℕ) → n < 2 ^ 64 → lib.to_u64 (lib.of_number (pos n)) ≡ some n
  pub i64 : (z : ℤ) → IsI64 z → lib.to_i64 (lib.of_number z) ≡ some z
  pub i32 : (n : ℕ) → n < 2 ^ 31 → lib.to_i32 (lib.of_number (pos n)) ≡ some (pos n)
  pub enum : (n : ℕ) → n < 2 ^ 31 → lib.to_enum (lib.of_number (pos n)) ≡ some n
  pub text : (s : Text) → lib.to_text (lib.of_text s) ≡ some s
  pub flag : (b : Bool) → lib.to_flag (lib.of_flag b) ≡ some b
  pub array : (items : List lib.Json) → lib.to_array (lib.of_array items) ≡ some items
  pub text_back : (j : lib.Json) (t : Text) → lib.dump j ≡ some t → lib.parse t ≡ some j
  pub dumped : (j : lib.Json) → lib.dump j ≢ some []

-- `j.value(key, default)`.
abbrev pub value_or {ℓ κ} : {A : Type ℓ} {J : Type κ} → (J → Option A) → A → Option J → Option A
value_or convert default none = some default
value_or convert default (some j) = convert j

-- Every item of an array, or the exception of the first that is not convertible.
abbrev pub each {ℓ κ} : {A : Type ℓ} {J : Type κ} → (J → Option A) → List J → Option (List A)
each convert [] = some []
each convert (j ∷ js) = convert j >>= λ a. each convert js >>= λ rest. some (a ∷ rest)

pub each-map {ℓ κ} :
    {A : Type ℓ} {J : Type κ} (P : A → Type 0) (write : A → J) (read : J → Option A)
    → ((a : A) → P a → read (write a) ≡ some a)
    → (items : List A) → All P items
    → each read (map write items) ≡ some items
each-map P write read h [] p = refl
each-map P write read h (a ∷ items) p = rw (h a p.0, each-map P write read h items p.1) refl
