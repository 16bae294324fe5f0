-- ===== src/Attempt/Canonical/Sets.antt =====
-- `sort_dedup_int` gives one list for each set: it is strictly increasing, has the same members, and
-- such a list is decided by its members.
use iov_vehicle_tbox_tsp.Prelude.{
  ℕ, ◌<◌, ◌≤◌, List, [], ◌∷◌, ◌≡◌, refl, sym, ◌∙◌, Bool, false, ◌||◌, inl, inr, ◌==◌, ==_iff, leb,
  arith, Bool-cases,
}
use iov_vehicle_tbox_tsp.Attempt.Canonical.{insert, sort, unique, unique_after, sort_dedup_int}

-- Membership as the test `std::find(…) != end()`.
unfoldable pub contains : List ℕ → ℕ → Bool
contains [] a = false
contains (x ∷ xs) a = a == x || contains xs a

contains-insert : (x a : ℕ) (ys : List ℕ) → contains (insert x ys) a ≡ (a == x || contains ys a)
unfolding contains insert
contains-insert x a [] = refl
contains-insert x a (y ∷ ys) = ground (arith, contains-insert x a ys)

contains-sort : (a : ℕ) (xs : List ℕ) → contains (sort xs) a ≡ contains xs a
unfolding contains sort
contains-sort a [] = refl
contains-sort a (x ∷ xs) = ground (arith, contains-insert x a (sort xs), contains-sort a xs)

contains-unique_after :
    (b a : ℕ) (xs : List ℕ) → (a == b || contains (unique_after b xs) a) ≡ (a == b || contains xs a)
unfolding contains unique_after
contains-unique_after b a [] = refl
contains-unique_after b a (x ∷ xs) = ground (arith, contains-unique_after x a xs)

contains-unique : (a : ℕ) (xs : List ℕ) → contains (unique xs) a ≡ contains xs a
unfolding contains unique
contains-unique a [] = refl
contains-unique a (x ∷ xs) = contains-unique_after x a xs

-- The members of the normalised list are those of the list.
pub contains-sort_dedup : (a : ℕ) (xs : List ℕ) → contains (sort_dedup_int xs) a ≡ contains xs a
unfolding sort_dedup_int
contains-sort_dedup a xs = ground (arith, contains-unique a (sort xs), contains-sort a xs)

abbrev pub AtLeast : ℕ → List ℕ → Type 0
AtLeast b [] = Unit {0}
AtLeast b (x ∷ xs) = (b ≤ x) × AtLeast x xs

abbrev pub Above : ℕ → List ℕ → Type 0
Above b [] = Unit {0}
Above b (x ∷ xs) = (b < x) × Above x xs

abbrev pub IsIncreasing : List ℕ → Type 0
IsIncreasing [] = Unit {0}
IsIncreasing (x ∷ xs) = Above x xs

insert-AtLeast : (b x : ℕ) (ys : List ℕ) → b ≤ x → AtLeast b ys → AtLeast b (insert x ys)
unfolding insert
insert-AtLeast b x [] h s = (h, tt)
insert-AtLeast b x (y ∷ ys) h s = elim (Bool-cases (leb x y)) [
  | inl le ↦ rw le (h, (ground arith, s.1))
  | inr gt ↦ rw gt (s.0, insert-AtLeast y x ys (ground arith) s.1)
]

sort-AtLeast : (xs : List ℕ) → AtLeast 0 (sort xs)
unfolding sort
sort-AtLeast [] = tt
sort-AtLeast (x ∷ xs) = insert-AtLeast 0 x (sort xs) (omega arith) (sort-AtLeast xs)

unique_after-Above : (b : ℕ) (xs : List ℕ) → AtLeast b xs → Above b (unique_after b xs)
unfolding unique_after
unique_after-Above b [] s = tt
unique_after-Above b (x ∷ xs) s = elim (Bool-cases (x == b)) [
  | inl same ↦ rw same (rw (← (==_iff x b).0 same) (unique_after-Above x xs s.1))
  | inr other ↦ rw other (ground arith, unique_after-Above x xs s.1)
]

pub sort_dedup-IsIncreasing : (xs : List ℕ) → IsIncreasing (sort_dedup_int xs)
unfolding sort_dedup_int unique
sort_dedup-IsIncreasing xs = go (sort xs) (sort-AtLeast xs)
  where
    go : (ys : List ℕ) → AtLeast 0 ys → IsIncreasing (unique ys)
    go [] h = tt
    go (y ∷ ys) h = unique_after-Above y ys h.1

not_below : (b a : ℕ) (xs : List ℕ) → Above b xs → a ≤ b → contains xs a ≡ false
unfolding contains
not_below b a [] s h = refl
not_below b a (x ∷ xs) s h = ground (arith, not_below x a xs s.1)

-- Strictly increasing lists with the same members are equal.
pub eq_of_members_from :
    (b c : ℕ) (xs ys : List ℕ)
    → Above b xs
    → Above c ys
    → ((a : ℕ) → contains xs a ≡ contains ys a)
    → xs ≡ ys
unfolding contains
eq_of_members_from b c [] [] s t h = refl
eq_of_members_from b c [] (y ∷ ys) s t h = ground (arith, h y)
eq_of_members_from b c (x ∷ xs) [] s t h = ground (arith, h x)
eq_of_members_from b c (x ∷ xs) (y ∷ ys) s t h =
    let heads : x ≡ y = ground (arith, h x, h y, not_below y x ys t.1, not_below x y xs s.1) in
    let rest : xs ≡ ys =
      eq_of_members_from x y xs ys s.1 t.1
        (λ a. ground (arith, heads, h a, not_below x a xs s.1, not_below y a ys t.1)) in
    cc (heads, rest)

eq_of_members :
    (xs ys : List ℕ)
    → IsIncreasing xs
    → IsIncreasing ys
    → ((a : ℕ) → contains xs a ≡ contains ys a)
    → xs ≡ ys
unfolding contains
eq_of_members [] [] s t h = refl
eq_of_members [] (y ∷ ys) s t h = ground (arith, h y)
eq_of_members (x ∷ xs) [] s t h = ground (arith, h x)
eq_of_members (x ∷ xs) (y ∷ ys) s t h =
    let heads : x ≡ y = ground (arith, h x, h y, not_below y x ys t, not_below x y xs s) in
    let rest : xs ≡ ys =
      eq_of_members_from x y xs ys s t
        (λ a. ground (arith, heads, h a, not_below x a xs s, not_below y a ys t)) in
    cc (heads, rest)

-- The normal form of a list of values depends on the set of its members only: neither the order nor
-- repetitions matter.
pub sort_dedup_canonical :
    (xs ys : List ℕ)
    → ((a : ℕ) → contains xs a ≡ contains ys a)
    → sort_dedup_int xs ≡ sort_dedup_int ys
sort_dedup_canonical xs ys h =
    eq_of_members (sort_dedup_int xs) (sort_dedup_int ys) (sort_dedup-IsIncreasing xs)
      (sort_dedup-IsIncreasing ys)
      (λ a. contains-sort_dedup a xs ∙ h a ∙ sym (contains-sort_dedup a ys))
