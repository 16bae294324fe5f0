-- ===== src/Tests/JsonData.antt =====
-- A small JSON library for the tests: a value is its own text, and the parts of an array or of an object
-- end in 0, with every number in them one higher.
use iov_vehicle_tbox_tsp.Prelude.{
  ℕ, zero, suc, ◌≡◌, refl, sym, ap, ◌∙◌, List, [], ◌∷◌, ◌++◌, map, Bool, true, false, Option, none,
  some, Text, text_eq, ℤ, pos, pos_part, neg_part, sub_ℕ, arith, eq_of_parts, if◌then◌else◌,
}
use iov_vehicle_tbox_tsp.KeyStore.Json.{JsonLibrary, IsFaithful, find_field}

unfoldable pub join_parts : List Text → Text
join_parts [] = []
join_parts (x ∷ xs) = map suc x ++ (0 ∷ join_parts xs)

unfoldable pub parts_after : Text → Text → List Text
parts_after cur [] = []
parts_after cur (zero ∷ s) = cur ∷ parts_after [] s
parts_after cur (suc n ∷ s) = parts_after (cur ++ (n ∷ [])) s

append_nil : (xs : Text) → xs ++ [] ≡ xs
append_nil [] = refl
append_nil (x ∷ xs) = ap (λ ys. x ∷ ys) (append_nil xs)

append_assoc : (xs ys zs : Text) → (xs ++ ys) ++ zs ≡ xs ++ (ys ++ zs)
append_assoc [] ys zs = refl
append_assoc (x ∷ xs) ys zs = ap (λ s. x ∷ s) (append_assoc xs ys zs)

parts_after-part :
    (cur x rest : Text)
    → parts_after cur (map suc x ++ (0 ∷ rest)) ≡ (cur ++ x) ∷ parts_after [] rest
unfolding parts_after
parts_after-part cur [] rest = ap (λ c. c ∷ parts_after [] rest) (sym (append_nil cur))
parts_after-part cur (n ∷ x) rest =
    parts_after-part (cur ++ (n ∷ [])) x rest
    ∙ ap (λ c. c ∷ parts_after [] rest) (append_assoc cur (n ∷ []) x)

parts_after-join_parts : (xs : List Text) → parts_after [] (join_parts xs) ≡ xs
unfolding join_parts parts_after
parts_after-join_parts [] = refl
parts_after-join_parts (x ∷ xs) =
    parts_after-part [] x (join_parts xs) ∙ ap (λ ys. x ∷ ys) (parts_after-join_parts xs)

unfoldable pub flatten : List (Text × Text) → List Text
flatten [] = []
flatten ((key, value) ∷ fields) = key ∷ value ∷ flatten fields

unfoldable pub find_part : Text → List Text → Option Text
find_part key (name ∷ value ∷ parts) =
    let rest = find_part key parts in if text_eq name key then some value else rest
find_part key _ = none

find_part-flatten :
    (fields : List (Text × Text)) (key : Text)
    → find_part key (flatten fields) ≡ find_field key fields
unfolding flatten find_part
find_part-flatten [] key = refl
find_part-flatten ((name, value) ∷ fields) key =
    ap (λ (o : Option Text). if text_eq name key then some value else o)
      (find_part-flatten fields key)

unfoldable pub read_number : Text → Option ℤ
read_number (p ∷ n ∷ []) = some (sub_ℕ p n)
read_number _ = none

abbrev pub natural : Option ℤ → Option ℕ
natural none = none
natural (some z) = some (pos_part z)

abbrev pub flag_of : Text → Option Bool
flag_of (zero ∷ []) = some false
flag_of (suc zero ∷ []) = some true
flag_of _ = none

abbrev pub parse_text : Text → Option Text
parse_text [] = none
parse_text (c ∷ s) = some s

abbrev parse_dumped : Option Text → Option Text
parse_dumped none = none
parse_dumped (some t) = parse_text t

abbrev pub json : JsonLibrary
json = record {
  Json = Text;
  of_object = λ fields. join_parts (flatten fields);
  of_array = join_parts;
  of_number = λ z. pos_part z ∷ neg_part z ∷ [];
  of_text = λ s. s;
  of_flag = λ b. (if b then 1 else 0) ∷ [];
  lookup = λ j key. find_part key (parts_after [] j);
  is_object = λ j. true;
  to_u32 = λ j. natural (read_number j);
  to_u64 = λ j. natural (read_number j);
  to_i64 = read_number;
  to_i32 = read_number;
  to_enum = λ j. natural (read_number j);
  to_text = λ j. some j;
  to_flag = flag_of;
  to_array = λ j. some (parts_after [] j);
  dump = λ j. some (0 ∷ j);
  parse = parse_text;
}

number_back : (z : ℤ) → read_number (pos_part z ∷ neg_part z ∷ []) ≡ some z
unfolding read_number
number_back z = ap some (eq_of_parts _ z (ground arith))

flag_back : (b : Bool) → flag_of ((if b then 1 else 0) ∷ []) ≡ some b
flag_back true = refl
flag_back false = refl

pub json-IsFaithful : IsFaithful json
json-IsFaithful = record {
  object_lookup = λ fields key.
      ap (find_part key) (parts_after-join_parts (flatten fields)) ∙ find_part-flatten fields key;
  object = λ fields. refl;
  u32 = λ n h. ap natural (number_back (pos n));
  u64 = λ n h. ap natural (number_back (pos n));
  i64 = λ z h. number_back z;
  i32 = λ n h. number_back (pos n);
  enum = λ n h. ap natural (number_back (pos n));
  text = λ s. refl;
  flag = flag_back;
  array = λ items. ap some (parts_after-join_parts items);
  text_back = λ j t e. sym (ap parse_dumped e);
  dumped = λ j e. cc;
}
