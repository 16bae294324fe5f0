-- ===== src/Attempt/Fingerprint/Encoding.antt =====
-- The encoded sets as plain concatenations, and how they split off a text.
use mathlib.Core.List.{append_assoc, append-nil}
use iov_vehicle_tbox_tsp.Prelude.{
  ℕ, ◌^◌, ◌<◌, List, [], ◌∷◌, ◌++◌, ◌≡◌, refl, sym, ◌∙◌, All, length, u32, arith,
}
use iov_vehicle_tbox_tsp.Attempt.Canonical.{be_bytes, append_u32, append_u64}
use iov_vehicle_tbox_tsp.Attempt.Canonical.Words.{u32_cancel, u64_cancel}
use iov_vehicle_tbox_tsp.Attempt.Fingerprint.{
  append_ints, append_versions, append_set, append_version_set,
}

pub encode_ints : List ℕ → List ℕ
encode_ints [] = []
encode_ints (x ∷ xs) = be_bytes 4 (u32 x) ++ encode_ints xs

pub encode_versions : List (ℕ × ℕ) → List ℕ
encode_versions [] = []
encode_versions ((a, v) ∷ xs) = be_bytes 4 (u32 a) ++ (be_bytes 8 v ++ encode_versions xs)

append_ints_eq : (b xs : List ℕ) → append_ints b xs ≡ b ++ encode_ints xs
unfolding append_ints encode_ints append_u32
append_ints_eq b [] = sym (append-nil b)
append_ints_eq b (x ∷ xs) =
    append_ints_eq (append_u32 b (u32 x)) xs ∙ append_assoc b (be_bytes 4 (u32 x)) (encode_ints xs)

append_versions_eq :
    (b : List ℕ) (xs : List (ℕ × ℕ)) → append_versions b xs ≡ b ++ encode_versions xs
unfolding append_versions encode_versions append_u32 append_u64
append_versions_eq b [] = sym (append-nil b)
append_versions_eq b ((a, v) ∷ xs) =
    append_versions_eq (append_u64 (append_u32 b (u32 a)) v) xs
    ∙ (append_assoc (b ++ be_bytes 4 (u32 a)) (be_bytes 8 v) (encode_versions xs)
        ∙ append_assoc b (be_bytes 4 (u32 a)) (be_bytes 8 v ++ encode_versions xs))

pub counted_ints : List ℕ → List ℕ
counted_ints xs = be_bytes 4 (u32 (length xs)) ++ encode_ints xs

pub counted_versions : List (ℕ × ℕ) → List ℕ
counted_versions xs = be_bytes 4 (u32 (length xs)) ++ encode_versions xs

pub append_set_eq : (b xs : List ℕ) → append_set b xs ≡ b ++ counted_ints xs
unfolding append_set append_u32 counted_ints
append_set_eq b xs =
    append_ints_eq (append_u32 b (u32 (length xs))) xs
    ∙ append_assoc b (be_bytes 4 (u32 (length xs))) (encode_ints xs)

pub append_version_set_eq :
    (b : List ℕ) (xs : List (ℕ × ℕ)) → append_version_set b xs ≡ b ++ counted_versions xs
unfolding append_version_set append_u32 counted_versions
append_version_set_eq b xs =
    append_versions_eq (append_u32 b (u32 (length xs))) xs
    ∙ append_assoc b (be_bytes 4 (u32 (length xs))) (encode_versions xs)

abbrev pub IsWord : ℕ → Type 0
IsWord x = x < 2 ^ 32

abbrev pub IsVersion : ℕ × ℕ → Type 0
IsVersion x = (x.0 < 2 ^ 32) × (x.1 < 2 ^ 64)

encode_ints_cancel :
    (xs ys r s : List ℕ)
    → All IsWord xs
    → All IsWord ys
    → length xs ≡ length ys
    → encode_ints xs ++ r ≡ encode_ints ys ++ s
    → (xs ≡ ys) × (r ≡ s)
unfolding encode_ints
encode_ints_cancel [] [] r s a b l h = (refl, h)
encode_ints_cancel [] (y ∷ ys) r s a b l h = absurd (omega arith)
encode_ints_cancel (x ∷ xs) [] r s a b l h = absurd (omega arith)
encode_ints_cancel (x ∷ xs) (y ∷ ys) r s a b l h =
    let h' =
      sym (append_assoc (be_bytes 4 (u32 x)) (encode_ints xs) r)
      ∙ (h ∙ append_assoc (be_bytes 4 (u32 y)) (encode_ints ys) s) in
    let (hx, ht) =
      u32_cancel (u32 x) (u32 y) (encode_ints xs ++ r) (encode_ints ys ++ s) (omega arith)
        (omega arith) h' in
    let (hxs, hr) = encode_ints_cancel xs ys r s a.1 b.1 (omega arith) ht in
    let head : x ≡ y = omega arith in (cc (head, hxs), hr)

encode_versions_cancel :
    (xs ys : List (ℕ × ℕ)) (r s : List ℕ)
    → All IsVersion xs
    → All IsVersion ys
    → length xs ≡ length ys
    → encode_versions xs ++ r ≡ encode_versions ys ++ s
    → (xs ≡ ys) × (r ≡ s)
unfolding encode_versions
encode_versions_cancel [] [] r s a b l h = (refl, h)
encode_versions_cancel [] (y ∷ ys) r s a b l h = absurd (omega arith)
encode_versions_cancel (x ∷ xs) [] r s a b l h = absurd (omega arith)
encode_versions_cancel ((p, v) ∷ xs) ((q, w) ∷ ys) r s a b l h =
    let h' =
      sym (append_assoc (be_bytes 4 (u32 p)) (be_bytes 8 v ++ encode_versions xs) r)
      ∙ (h ∙ append_assoc (be_bytes 4 (u32 q)) (be_bytes 8 w ++ encode_versions ys) s) in
    let (hp, ht) =
      u32_cancel (u32 p) (u32 q) ((be_bytes 8 v ++ encode_versions xs) ++ r)
        ((be_bytes 8 w ++ encode_versions ys) ++ s) (omega arith) (omega arith) h' in
    let t' =
      sym (append_assoc (be_bytes 8 v) (encode_versions xs) r)
      ∙ (ht ∙ append_assoc (be_bytes 8 w) (encode_versions ys) s) in
    let (hv, hu) =
      u64_cancel v w (encode_versions xs ++ r) (encode_versions ys ++ s) a.0.1 b.0.1 t' in
    let (hxs, hr) = encode_versions_cancel xs ys r s a.1 b.1 (omega arith) hu in
    let head : p ≡ q = omega arith in (cc (head, hv, hxs), hr)

-- A counted set splits off a text in one way.
pub set_cancel :
    (xs ys r s : List ℕ)
    → All IsWord xs
    → All IsWord ys
    → length xs < 2 ^ 32
    → length ys < 2 ^ 32
    → counted_ints xs ++ r ≡ counted_ints ys ++ s
    → (xs ≡ ys) × (r ≡ s)
unfolding counted_ints
set_cancel xs ys r s a b k l h =
    let cx = be_bytes 4 (u32 (length xs)) in
    let cy = be_bytes 4 (u32 (length ys)) in
    let (n, t) =
      u32_cancel (u32 (length xs)) (u32 (length ys)) (encode_ints xs ++ r) (encode_ints ys ++ s)
        (omega arith) (omega arith)
        (sym (append_assoc cx (encode_ints xs) r) ∙ (h ∙ append_assoc cy (encode_ints ys) s)) in
    encode_ints_cancel xs ys r s a b (omega arith) t

pub version_set_cancel :
    (xs ys : List (ℕ × ℕ)) (r s : List ℕ)
    → All IsVersion xs
    → All IsVersion ys
    → length xs < 2 ^ 32
    → length ys < 2 ^ 32
    → counted_versions xs ++ r ≡ counted_versions ys ++ s
    → (xs ≡ ys) × (r ≡ s)
unfolding counted_versions
version_set_cancel xs ys r s a b k l h =
    let cx = be_bytes 4 (u32 (length xs)) in
    let cy = be_bytes 4 (u32 (length ys)) in
    let (n, t) =
      u32_cancel (u32 (length xs)) (u32 (length ys)) (encode_versions xs ++ r)
        (encode_versions ys ++ s) (omega arith) (omega arith)
        (sym (append_assoc cx (encode_versions xs) r)
          ∙ (h ∙ append_assoc cy (encode_versions ys) s)) in
    encode_versions_cancel xs ys r s a b (omega arith) t
