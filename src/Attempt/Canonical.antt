-- ===== src/Attempt/Canonical.antt =====
-- The canonical encoding helpers of src/keyprov_attempt.cpp: big-endian words, length prefixes, sorted
-- sets and versions. `int` values are enumeration values, so natural numbers.
pub mod Words
pub mod Sets
pub mod Sizes
use iov_vehicle_tbox_tsp.Prelude.{
  ℕ, zero, suc, ◌*◌, ◌/◌, ◌%◌, ◌^◌, List, [], ◌∷◌, ◌++◌, Bool, ◌&&◌, ◌||◌, leb, ltb, ◌==◌, length,
  u32, u64, if◌then◌else◌,
}

-- The low k bytes of v, the highest first: `(v >> 8 * i) & 0xFF` for i = k - 1 down to 0.
unfoldable pub be_bytes : ℕ → ℕ → List ℕ
be_bytes zero v = []
be_bytes (suc k) v = (v / 2 ^ (8 * k)) % 256 ∷ be_bytes k v

unfoldable pub append_u32 : List ℕ → ℕ → List ℕ
unfolding be_bytes
append_u32 b v = b ++ be_bytes 4 v

unfoldable pub append_u64 : List ℕ → ℕ → List ℕ
unfolding be_bytes
append_u64 b v = b ++ be_bytes 8 v

unfoldable pub append_bytes : List ℕ → List ℕ → List ℕ
append_bytes b v = append_u64 b (u64 (length v)) ++ v

unfoldable pub append_str : List ℕ → List ℕ → List ℕ
append_str b s = append_bytes b s

-- `std::sort` on integers.
unfoldable pub insert : ℕ → List ℕ → List ℕ
insert x [] = x ∷ []
insert x (y ∷ ys) = if leb x y then x ∷ y ∷ ys else y ∷ insert x ys

unfoldable pub sort : List ℕ → List ℕ
sort [] = []
sort (x ∷ xs) = insert x (sort xs)

-- `std::unique`: of a run of equal values the first stays. `last` is the value kept before.
unfoldable pub unique_after : ℕ → List ℕ → List ℕ
unique_after last [] = []
unique_after last (x ∷ xs) = let rest = unique_after x xs in if x == last then rest else x ∷ rest

unfoldable pub unique : List ℕ → List ℕ
unique [] = []
unique (x ∷ xs) = x ∷ unique_after x xs

unfoldable pub sort_dedup_int : List ℕ → List ℕ
sort_dedup_int v = unique (sort v)

-- Versions are ordered by purpose, then by version.
abbrev pub version_le : ℕ × ℕ → ℕ × ℕ → Bool
version_le a b = if a.0 == b.0 then leb a.1 b.1 else leb a.0 b.0

unfoldable pub insert_version : ℕ × ℕ → List (ℕ × ℕ) → List (ℕ × ℕ)
insert_version x [] = x ∷ []
insert_version x (y ∷ ys) = if version_le x y then x ∷ y ∷ ys else y ∷ insert_version x ys

unfoldable pub sort_versions : List (ℕ × ℕ) → List (ℕ × ℕ)
sort_versions [] = []
sort_versions (x ∷ xs) = insert_version x (sort_versions xs)

-- The last version of a purpose overwrites the one kept before.
unfoldable pub merge_versions : ℕ × ℕ → List (ℕ × ℕ) → List (ℕ × ℕ)
merge_versions back [] = back ∷ []
merge_versions back (x ∷ xs) =
    let rest = merge_versions x xs in if back.0 == x.0 then rest else back ∷ rest

unfoldable pub dedup_versions : List (ℕ × ℕ) → List (ℕ × ℕ)
dedup_versions [] = []
dedup_versions (x ∷ xs) = merge_versions x xs

unfoldable pub sort_dedup_versions : List (ℕ × ℕ) → List (ℕ × ℕ)
sort_dedup_versions v = dedup_versions (sort_versions v)
