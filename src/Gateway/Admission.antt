-- ===== src/Gateway/Admission.antt =====
-- When a request enters the table, and that entering keeps the gateway sound.
use iov_vehicle_tbox_tsp.Prelude.{
  ℕ, ◌+◌, ◌<◌, ◌≤◌, ◌==◌, List, [], ◌∷◌, Bool, true, false, not, ◌&&◌, ◌||◌, ◌≡◌, refl, inl, inr,
  Option, Text, ltb, leb, length, Bool-cases, arith, if◌then◌else◌,
}
use iov_vehicle_tbox_tsp.Gateway.Envelope.{Envelope, EnvelopeValidation, validate_envelope}
use iov_vehicle_tbox_tsp.Gateway.Types.{
  CorrelationEntry, Gateway, has_key, set_key, put_entry, store_entry,
}
use iov_vehicle_tbox_tsp.Gateway.Exchange.{
  ExchangeRequest, Begun, refused, waiting, new_entry, enter, begin_exchange, count_total,
  count_invalid, count_rejected,
}
use iov_vehicle_tbox_tsp.Gateway.Invariant.{IsKept, IsSound, erase-All, length-erase_key}
use iov_vehicle_tbox_tsp.Gateway.Steps.{Shrinks-IsSound, counts-Shrinks}

-- A step that may add an entry and leaves the others alone.
abbrev pub Adds : (List ℕ → Option Envelope) → Gateway → Gateway → Type 0
Adds parse g s =
    IsSound parse s
    × ((g.next_handle ≤ s.next_handle) × ((h : ℕ) → h < g.next_handle → s.entries h ≡ g.entries h))

-- A new entry beside those that are there.
abbrev added : ℕ → ExchangeRequest → EnvelopeValidation → Gateway → Gateway
added now req v g = record (store_entry g.next_handle (new_entry now req v g) g) {
  next_handle = g.next_handle + 1;
  table = set_key v.message_id g.next_handle g.table;
}

put_below :
    (n h : ℕ) (e : CorrelationEntry) (entries : ℕ → CorrelationEntry)
    → h < n
    → put_entry n e entries h ≡ entries h
unfolding put_entry
put_below n h e entries lt = let differs : (h == n) ≡ false = ground arith in rw differs refl

put_at :
    (n : ℕ) (e : CorrelationEntry) (entries : ℕ → CorrelationEntry) → put_entry n e entries n ≡ e
unfolding put_entry
put_at n e entries = let same : (n == n) ≡ true = ground arith in rw same refl

module _ (parse : List ℕ → Option Envelope) (now : ℕ) (req : ExchangeRequest)
    (v : EnvelopeValidation) (g : Gateway) where
  added-IsKept : (table : List (Text × ℕ)) → IsKept g table → IsKept (added now req v g) table
  added-IsKept [] h = h
  added-IsKept (p ∷ table) h = (
    (
      omega (arith, h.0.0),
      rw (put_below g.next_handle p.1 (new_entry now req v g) g.entries h.0.0) (h.0.1),
    ),
    added-IsKept table h.1,
  )

  added-IsSound :
      IsSound parse g → length g.table < g.config.max_in_flight → IsSound parse (added now req v g)
  unfolding set_key
  added-IsSound h room = record {
    table = (
      (
        omega arith,
        rw (put_at g.next_handle (new_entry now req v g) g.entries) (unfold new_entry in refl),
      ),
      erase-All _ v.message_id g.table (added-IsKept g.table h.table),
    );
    bounded = let l = length-erase_key v.message_id g.table in omega (arith, l, room);
    sound = λ k lt. elim (Bool-cases (ltb k g.next_handle)) [
      | inl old ↦
          rw (put_below g.next_handle k (new_entry now req v g) g.entries (ground arith))
            (h.sound k (ground arith))
      | inr fresh ↦
          let same : k ≡ g.next_handle = ground arith in
          rw (same, put_at g.next_handle (new_entry now req v g) g.entries)
            (inl (unfold new_entry in refl))
    ];
  }

  -- Entering either changes counters only or adds an entry.
  enter_lem : IsSound parse g → Adds parse g (enter now req v g).0
  unfolding enter
  enter_lem h = elim (Bool-cases (leb g.config.max_in_flight (length g.table))) [
    | inl full ↦ rw full (h, (omega arith, λ k lt. refl))
    | inr room ↦
        elim (Bool-cases (has_key v.message_id g.table || has_key v.message_id g.recent_terminal)) [
          | inl used ↦
              rw (room, used)
                (
                  Shrinks-IsSound parse g (count_rejected g) (counts-Shrinks parse _ g) h,
                  (omega arith, λ k lt. refl),
                )
          | inr unused ↦
              rw (room, unused)
                (
                  added-IsSound h (ground arith),
                  (
                    omega arith,
                    λ k lt. put_below g.next_handle k (new_entry now req v g) g.entries lt,
                  ),
                )
        ]
  ]

-- Either branch of a test.
branch {ℓ} : {A : Type ℓ} (P : A → Type 0) (b : Bool) (s t : A) → P s → P t → P (if b then s else t)
branch P true s t on off = on
branch P false s t on off = off

pub begin_lem :
    (parse : List ℕ → Option Envelope) (utc now : ℕ) (stops : Bool) (req : ExchangeRequest)
    (g : Gateway)
    → IsSound parse g
    → Adds parse g (begin_exchange parse utc now stops req g).0
unfolding begin_exchange
begin_lem parse utc now stops req g h =
    let v = validate_envelope parse g.config.limits utc true req.envelope_bytes in
    branch (λ (r : Gateway × Begun). Adds parse g r.0) stops _ _ (h, (omega arith, λ k lt. refl))
      (branch (λ (r : Gateway × Begun). Adds parse g r.0) (not v.valid) _ _
        (
          Shrinks-IsSound parse g (count_invalid g) (counts-Shrinks parse _ g) h,
          (omega arith, λ k lt. refl),
        )
        (enter_lem parse now req v (count_total g)
          (Shrinks-IsSound parse g (count_total g) (counts-Shrinks parse _ g) h)))

abbrev pub is_waiting : Begun → Bool
is_waiting (waiting h id) = true
is_waiting (refused r) = false

enter_waits :
    (now : ℕ) (req : ExchangeRequest) (v : EnvelopeValidation) (g : Gateway)
    → is_waiting (enter now req v g).1 ≡ (
        ltb (length g.table) g.config.max_in_flight
        && (not (has_key v.message_id g.table) && not (has_key v.message_id g.recent_terminal)))
unfolding enter
enter_waits now req v g = ground arith

waits_by_tests :
    (stops valid : Bool) (a b c : Gateway × Begun) (room : Bool)
    → is_waiting a.1 ≡ false
    → is_waiting b.1 ≡ false
    → is_waiting c.1 ≡ room
    → is_waiting (if stops then a else if not valid then b else c).1
      ≡ (not stops && (valid && room))
waits_by_tests true valid a b c room ea eb ec = ea
waits_by_tests false false a b c room ea eb ec = eb
waits_by_tests false true a b c room ea eb ec = ec

pub begin_waits :
    (parse : List ℕ → Option Envelope) (utc now : ℕ) (stops : Bool) (req : ExchangeRequest)
    (g : Gateway)
    → let v = validate_envelope parse g.config.limits utc true req.envelope_bytes in
      is_waiting (begin_exchange parse utc now stops req g).1 ≡ (
        not stops
        && (v.valid
            && (ltb (length g.table) g.config.max_in_flight
                && (not (has_key v.message_id g.table)
                    && not (has_key v.message_id g.recent_terminal)))))
unfolding begin_exchange
begin_waits parse utc now stops req g =
    let v = validate_envelope parse g.config.limits utc true req.envelope_bytes in
    waits_by_tests stops v.valid _ _ _ _ refl refl (enter_waits now req v (count_total g))
