-- ===== src/Attempt/Canonical/Sizes.antt =====
-- Sorting and removing repetitions keep a predicate of the members and make no list longer.
use iov_vehicle_tbox_tsp.Prelude.{
  ℕ, ◌≤◌, List, [], ◌∷◌, ◌==◌, leb, All, length, refl, inl, inr, Bool-cases, ◌≡◌, suc, ap, arith,
}
use iov_vehicle_tbox_tsp.Attempt.Canonical.{
  insert, sort, unique, unique_after, sort_dedup_int, version_le, insert_version, sort_versions,
  merge_versions, dedup_versions, sort_dedup_versions,
}

module _ (P : ℕ → Type 0) where
  All-insert : (x : ℕ) (ys : List ℕ) → P x → All P ys → All P (insert x ys)
  unfolding insert
  All-insert x [] h k = (h, tt)
  All-insert x (y ∷ ys) h k = elim (Bool-cases (leb x y)) [
    | inl le ↦ rw le (h, (k.0, k.1))
    | inr gt ↦ rw gt (k.0, All-insert x ys h k.1)
  ]

  All-sort : (xs : List ℕ) → All P xs → All P (sort xs)
  unfolding sort
  All-sort [] h = tt
  All-sort (x ∷ xs) h = All-insert x (sort xs) h.0 (All-sort xs h.1)

  All-unique_after : (b : ℕ) (xs : List ℕ) → All P xs → All P (unique_after b xs)
  unfolding unique_after
  All-unique_after b [] h = tt
  All-unique_after b (x ∷ xs) h = elim (Bool-cases (x == b)) [
    | inl same ↦ rw same (All-unique_after x xs h.1)
    | inr other ↦ rw other (h.0, All-unique_after x xs h.1)
  ]

  All-unique : (xs : List ℕ) → All P xs → All P (unique xs)
  unfolding unique
  All-unique [] h = tt
  All-unique (x ∷ xs) h = (h.0, All-unique_after x xs h.1)

  pub All-sort_dedup : (xs : List ℕ) → All P xs → All P (sort_dedup_int xs)
  unfolding sort_dedup_int
  All-sort_dedup xs h = All-unique (sort xs) (All-sort xs h)

module _ (P : ℕ × ℕ → Type 0) where
  All-insert_version :
      (x : ℕ × ℕ) (ys : List (ℕ × ℕ)) → P x → All P ys → All P (insert_version x ys)
  unfolding insert_version
  All-insert_version x [] h k = (h, tt)
  All-insert_version x (y ∷ ys) h k = elim (Bool-cases (version_le x y)) [
    | inl le ↦ rw le (h, (k.0, k.1))
    | inr gt ↦ rw gt (k.0, All-insert_version x ys h k.1)
  ]

  All-sort_versions : (xs : List (ℕ × ℕ)) → All P xs → All P (sort_versions xs)
  unfolding sort_versions
  All-sort_versions [] h = tt
  All-sort_versions (x ∷ xs) h =
      All-insert_version x (sort_versions xs) h.0 (All-sort_versions xs h.1)

  All-merge_versions :
      (b : ℕ × ℕ) (xs : List (ℕ × ℕ)) → P b → All P xs → All P (merge_versions b xs)
  unfolding merge_versions
  All-merge_versions b [] k h = (k, tt)
  All-merge_versions b (x ∷ xs) k h = elim (Bool-cases (b.0 == x.0)) [
    | inl same ↦ rw same (All-merge_versions x xs h.0 h.1)
    | inr other ↦ rw other (k, All-merge_versions x xs h.0 h.1)
  ]

  All-dedup_versions : (xs : List (ℕ × ℕ)) → All P xs → All P (dedup_versions xs)
  unfolding dedup_versions
  All-dedup_versions [] h = tt
  All-dedup_versions (x ∷ xs) h = All-merge_versions x xs h.0 h.1

  pub All-sort_dedup_versions : (xs : List (ℕ × ℕ)) → All P xs → All P (sort_dedup_versions xs)
  unfolding sort_dedup_versions
  All-sort_dedup_versions xs h = All-dedup_versions (sort_versions xs) (All-sort_versions xs h)

length-insert : (x : ℕ) (ys : List ℕ) → length (insert x ys) ≡ suc (length ys)
unfolding insert
length-insert x [] = refl
length-insert x (y ∷ ys) = ground (arith, length-insert x ys)

length-sort : (xs : List ℕ) → length (sort xs) ≡ length xs
unfolding sort
length-sort [] = refl
length-sort (x ∷ xs) = omega (arith, length-insert x (sort xs), length-sort xs)

length-unique_after-le : (b : ℕ) (xs : List ℕ) → length (unique_after b xs) ≤ length xs
unfolding unique_after
length-unique_after-le b [] = omega arith
length-unique_after-le b (x ∷ xs) = ground (arith, length-unique_after-le x xs)

length-unique-le : (xs : List ℕ) → length (unique xs) ≤ length xs
unfolding unique
length-unique-le [] = omega arith
length-unique-le (x ∷ xs) = omega (arith, length-unique_after-le x xs)

pub length-sort_dedup-le : (xs : List ℕ) → length (sort_dedup_int xs) ≤ length xs
unfolding sort_dedup_int
length-sort_dedup-le xs = omega (arith, length-unique-le (sort xs), length-sort xs)

length-insert_version :
    (x : ℕ × ℕ) (ys : List (ℕ × ℕ)) → length (insert_version x ys) ≡ suc (length ys)
unfolding insert_version
length-insert_version x [] = refl
length-insert_version x (y ∷ ys) = elim (Bool-cases (version_le x y)) [
  | inl le ↦ rw le
  | inr gt ↦ rw gt (ap suc (length-insert_version x ys))
]

length-sort_versions : (xs : List (ℕ × ℕ)) → length (sort_versions xs) ≡ length xs
unfolding sort_versions
length-sort_versions [] = refl
length-sort_versions (x ∷ xs) =
    omega (arith, length-insert_version x (sort_versions xs), length-sort_versions xs)

length-merge_versions-le :
    (b : ℕ × ℕ) (xs : List (ℕ × ℕ)) → length (merge_versions b xs) ≤ suc (length xs)
unfolding merge_versions
length-merge_versions-le b [] = omega arith
length-merge_versions-le b (x ∷ xs) = ground (arith, length-merge_versions-le x xs)

length-dedup_versions-le : (xs : List (ℕ × ℕ)) → length (dedup_versions xs) ≤ length xs
unfolding dedup_versions
length-dedup_versions-le [] = omega arith
length-dedup_versions-le (x ∷ xs) = length-merge_versions-le x xs

pub length-sort_dedup_versions-le :
    (xs : List (ℕ × ℕ)) → length (sort_dedup_versions xs) ≤ length xs
unfolding sort_dedup_versions
length-sort_dedup_versions-le xs =
    omega (arith, length-dedup_versions-le (sort_versions xs), length-sort_versions xs)
