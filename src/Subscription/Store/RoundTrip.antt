-- ===== src/Subscription/Store/RoundTrip.antt =====
-- What is saved is loaded again.
use iov_vehicle_tbox_tsp.Prelude.{
  ℕ, zero, suc, ◌+◌, ◌-◌, ◌*◌, ◌/◌, ◌%◌, ◌^◌, ◌<◌, ◌++◌, [], ◌∷◌, true, ◌≡◌, ◌≢◌, refl, inl, inr,
  some, All, Text, ltb, Bool-cases, arith,
}
use iov_vehicle_tbox_tsp.Subscription.Store.{
  digits, uint64_to_string, is_digit, read_digits, stoull, SubscriptionStore, load_values, load,
  save,
}

abbrev IsDigits : Text → Type 0
IsDigits = All (λ c. is_digit c ≡ true)

read_snoc :
    (acc : ℕ) (s : Text) (c : ℕ)
    → IsDigits s
    → is_digit c ≡ true
    → read_digits acc (s ++ (c ∷ [])) ≡ read_digits acc s * 10 + (c - 48)
unfolding read_digits
read_snoc acc [] c h k = ground arith
read_snoc acc (d ∷ s) c h k = rw (h.0) (read_snoc (acc * 10 + (d - 48)) s c h.1 k)

IsDigits-snoc : (s : Text) (c : ℕ) → IsDigits s → is_digit c ≡ true → IsDigits (s ++ (c ∷ []))
IsDigits-snoc [] c h k = (k, tt)
IsDigits-snoc (d ∷ s) c h k = (h.0, IsDigits-snoc s c h.1 k)

digits-IsDigits : (fuel n : ℕ) → IsDigits (digits fuel n)
unfolding digits
digits-IsDigits zero n = tt
digits-IsDigits (suc fuel) n = elim (Bool-cases (ltb n 10)) [
  | inl less ↦ rw less (ground arith, tt)
  | inr more ↦ rw more (
      IsDigits-snoc (digits fuel (n / 10)) (48 + n % 10) (digits-IsDigits fuel (n / 10))
        (ground arith))
]

-- Powers of ten bound the digits: `fuel` digits are enough below 10 ^ fuel.
abbrev pub ten_to : ℕ → ℕ
ten_to zero = 1
ten_to (suc k) = 10 * ten_to k

read-digits : (fuel n : ℕ) → n < ten_to fuel → read_digits 0 (digits fuel n) ≡ n
unfolding digits
read-digits zero n h = unfold read_digits in omega arith
read-digits (suc fuel) n h = elim (Bool-cases (ltb n 10)) [
  | inl less ↦ rw less (unfold read_digits in ground arith)
  | inr more ↦
      let ih = read-digits fuel (n / 10) (omega arith) in
      let step =
        read_snoc 0 (digits fuel (n / 10)) (48 + n % 10) (digits-IsDigits fuel (n / 10))
          (ground arith) in
      rw more (omega (arith, step, ih))
]

snoc_nonempty : (s : Text) (c : ℕ) → s ++ (c ∷ []) ≢ []
snoc_nonempty [] c e = cc
snoc_nonempty (d ∷ s) c e = cc

digits_nonempty : (fuel n : ℕ) → digits (suc fuel) n ≢ []
unfolding digits
digits_nonempty fuel n = elim (Bool-cases (ltb n 10)) [
  | inl less ↦ rw less (λ e. cc)
  | inr more ↦ rw more (snoc_nonempty (digits fuel (n / 10)) (48 + n % 10))
]

stoull_of :
    (t : Text) → t ≢ [] → IsDigits t → read_digits 0 t < 2 ^ 64 → stoull t ≡ some (read_digits 0 t)
unfolding stoull
stoull_of [] e h w = absurd (e refl)
stoull_of (c ∷ s) e h w = rw (h.0) (ground arith)

-- Every 64-bit number is read back from its decimal text.
pub stoull-uint64_to_string : (n : ℕ) → n < 2 ^ 64 → stoull (uint64_to_string n) ≡ some n
unfolding uint64_to_string
stoull-uint64_to_string n h =
    let r = read-digits 20 n (omega arith) in
    let s =
      stoull_of (digits 20 n) (digits_nonempty 19 n) (digits-IsDigits 20 n) (omega (arith, r)) in
    cc (r, s)

load_values_of :
    (t digest : Text) (n : ℕ)
    → t ≢ []
    → stoull t ≡ some n
    → load_values (some t) (some digest)
      ≡ record { generation = n; digest = digest; found = ltb 0 n }
unfolding load_values
load_values_of [] digest n e h = absurd (e refl)
load_values_of (c ∷ s) digest n e h = ground arith

-- On a store that is ready, loading after saving gives back the generation and the digest, for every
-- 64-bit generation; a generation of 0 counts as not stored.
pub load-save :
    (s : SubscriptionStore) (generation : ℕ) (digest : Text)
    → s.ready ≡ true
    → generation < 2 ^ 64
    → load (save s generation digest)
      ≡ record { generation = generation; digest = digest; found = ltb 0 generation }
unfolding load save
load-save s g digest r w = rw r (
    load_values_of (uint64_to_string g) digest g (unfold uint64_to_string in digits_nonempty 19 g)
      (stoull-uint64_to_string g w))
