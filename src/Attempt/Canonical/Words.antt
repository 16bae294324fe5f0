-- ===== src/Attempt/Canonical/Words.antt =====
-- Fixed-width words and length prefixes can be split off again: the parts of an encoding are decided
-- by the whole.
use iov_vehicle_tbox_tsp.Prelude.{
  ℕ, zero, suc, ◌^◌, ◌<◌, List, [], ◌∷◌, ◌++◌, ◌≡◌, refl, ap, length, arith,
}
use iov_vehicle_tbox_tsp.Attempt.Canonical.{be_bytes}

module _ {ℓ} {A : Type ℓ} where
  pub cons_eq : {x y : A} {xs ys : List A} → x ∷ xs ≡ y ∷ ys → (x ≡ y) × (xs ≡ ys)
  cons_eq h = (cc, cc)

  -- Two texts with equal first parts of one length split alike.
  pub append_cancel : (a b r s : List A) → length a ≡ length b → a ++ r ≡ b ++ s → (a ≡ b) × (r ≡ s)
  append_cancel [] [] r s l h = (refl, h)
  append_cancel [] (y ∷ b) r s l h = absurd (omega arith)
  append_cancel (x ∷ a) [] r s l h = absurd (omega arith)
  append_cancel (x ∷ a) (y ∷ b) r s l h =
      let (hx, ht) = cons_eq h in
      let (ha, hr) = append_cancel a b r s (omega arith) ht in (cc (hx, ha), hr)

pub length-be_bytes : (k v : ℕ) → length (be_bytes k v) ≡ k
unfolding be_bytes
length-be_bytes zero v = refl
length-be_bytes (suc k) v = ap suc (length-be_bytes k v)

u32_eq : (a b : ℕ) → a < 2 ^ 32 → b < 2 ^ 32 → be_bytes 4 a ≡ be_bytes 4 b → a ≡ b
unfolding be_bytes
u32_eq a b ha hb h =
    let (e3, t3) = cons_eq h in
    let (e2, t2) = cons_eq t3 in
    let (e1, t1) = cons_eq t2 in let (e0, t0) = cons_eq t1 in omega arith

u64_eq : (a b : ℕ) → a < 2 ^ 64 → b < 2 ^ 64 → be_bytes 8 a ≡ be_bytes 8 b → a ≡ b
unfolding be_bytes
u64_eq a b ha hb h =
    let (e7, t7) = cons_eq h in
    let (e6, t6) = cons_eq t7 in
    let (e5, t5) = cons_eq t6 in
    let (e4, t4) = cons_eq t5 in
    let (e3, t3) = cons_eq t4 in
    let (e2, t2) = cons_eq t3 in
    let (e1, t1) = cons_eq t2 in let (e0, t0) = cons_eq t1 in omega arith

pub u32_cancel :
    (a b : ℕ) (r s : List ℕ)
    → a < 2 ^ 32
    → b < 2 ^ 32
    → be_bytes 4 a ++ r ≡ be_bytes 4 b ++ s
    → (a ≡ b) × (r ≡ s)
u32_cancel a b r s ha hb h =
    let (e, t) =
      append_cancel (be_bytes 4 a) (be_bytes 4 b) r s
        (omega (arith, length-be_bytes 4 a, length-be_bytes 4 b)) h in
    (u32_eq a b ha hb e, t)

pub u64_cancel :
    (a b : ℕ) (r s : List ℕ)
    → a < 2 ^ 64
    → b < 2 ^ 64
    → be_bytes 8 a ++ r ≡ be_bytes 8 b ++ s
    → (a ≡ b) × (r ≡ s)
u64_cancel a b r s ha hb h =
    let (e, t) =
      append_cancel (be_bytes 8 a) (be_bytes 8 b) r s
        (omega (arith, length-be_bytes 8 a, length-be_bytes 8 b)) h in
    (u64_eq a b ha hb e, t)
