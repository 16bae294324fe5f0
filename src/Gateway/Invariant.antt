-- ===== src/Gateway/Invariant.antt =====
-- What every step of the gateway keeps: the entries it may change, the table, its bound.
use iov_vehicle_tbox_tsp.Prelude.{
  ℕ, ◌<◌, ◌≤◌, ◌==◌, List, [], ◌∷◌, true, false, ◌≡◌, ◌⊎◌, refl, sym, subst, ◌∙◌, inl, inr, Option,
  some, Text, text_eq, length, All, Bool-cases, arith, eq_of_text_eq,
}
use iov_vehicle_tbox_tsp.Gateway.Envelope.{
  response, Envelope, VehicleMessageLimits, validate_envelope,
}
use iov_vehicle_tbox_tsp.Gateway.Types.{CorrelationEntry, Gateway, find_key, erase_key, put_entry}
use iov_vehicle_tbox_tsp.Gateway.Exchange.{is_accepted_outcome}

module _ (parse : List ℕ → Option Envelope) (limits : VehicleMessageLimits) where
  -- The bytes are a valid response, at some time, to the request of the entry.
  pub record IsAnswer (e : CorrelationEntry) : Type 0 where
    pub utc : ℕ
    pub valid : (validate_envelope parse limits utc false e.response_bytes).valid ≡ true
    pub kind : (validate_envelope parse limits utc false e.response_bytes).message_kind ≡ response
    pub correlation :
        (validate_envelope parse limits utc false e.response_bytes).correlation_id ≡ e.message_id
    pub service : (validate_envelope parse limits utc false e.response_bytes).service ≡ e.service
    pub size : length e.response_bytes ≤ e.max_response_bytes

  -- An entry ends as accepted only with an answer.
  abbrev pub IsSoundEntry : CorrelationEntry → Type 0
  IsSoundEntry e = (is_accepted_outcome e.outcome ≡ false) ⊎ IsAnswer e

  pub record Evolves (e f : CorrelationEntry) : Type 0 where
    pub message_id : f.message_id ≡ e.message_id
    pub service : f.service ≡ e.service
    pub max_response_bytes : f.max_response_bytes ≡ e.max_response_bytes
    pub end :
        ((f.outcome ≡ e.outcome)
          × ((f.response_bytes ≡ e.response_bytes)
              × ((f.terminal ≡ e.terminal) × (f.completed_at ≡ e.completed_at))))
        ⊎ ((e.terminal ≡ false) × IsSoundEntry f)

  pub Evolves-refl : (e : CorrelationEntry) → Evolves e e
  Evolves-refl e = record {
    message_id = refl;
    service = refl;
    max_response_bytes = refl;
    end = inl (refl, (refl, (refl, refl)));
  }

  pub put_relates :
      (h : ℕ) (e : CorrelationEntry) (entries : ℕ → CorrelationEntry)
      → Evolves (entries h) e
      → (k : ℕ) → Evolves (entries k) (put_entry h e entries k)
  unfolding put_entry
  put_relates h e entries r k = elim (Bool-cases (k == h)) [
    | inl same ↦ rw same (subst (λ n. Evolves (entries n) e) (ground arith) r)
    | inr other ↦ rw other (Evolves-refl (entries k))
  ]

  pub sound_over : (e f : CorrelationEntry) → Evolves e f → IsSoundEntry e → IsSoundEntry f
  sound_over e f r h = elim r.end [
    | inl same ↦ elim h [
      | inl not_accepted ↦ inl (rw (same.0) not_accepted)
      | inr answer ↦ inr (record {
        utc = answer.utc;
        valid = rw (same.1.0) (answer.valid);
        kind = rw (same.1.0) (answer.kind);
        correlation = rw (same.1.0, r.message_id) (answer.correlation);
        service = rw (same.1.0, r.service) (answer.service);
        size = rw (same.1.0, r.max_response_bytes) (answer.size);
      })
    ]
    | inr ended ↦ ended.1
  ]

  pub Evolves-trans : (e f k : CorrelationEntry) → Evolves e f → Evolves f k → Evolves e k
  Evolves-trans e f k r t = record {
    message_id = t.message_id ∙ r.message_id;
    service = t.service ∙ r.service;
    max_response_bytes = t.max_response_bytes ∙ r.max_response_bytes;
    end = elim r.end [
      | inl same ↦ elim t.end [
        | inl again ↦ inl (
          again.0 ∙ same.0,
          (again.1.0 ∙ same.1.0, (again.1.1.0 ∙ same.1.1.0, again.1.1.1 ∙ same.1.1.1)),
        )
        | inr ended ↦ inr (sym same.1.1.0 ∙ ended.0, ended.1)
      ]
      | inr ended ↦ inr (ended.0, sound_over f k t ended.1)
    ];
  }

abbrev pub IsKept : Gateway → List (Text × ℕ) → Type 0
IsKept g = All (λ p. (p.1 < g.next_handle) × ((g.entries p.1).message_id ≡ p.0))

pub record IsSound (parse : List ℕ → Option Envelope) (g : Gateway) : Type 0 where
  pub table : IsKept g g.table
  pub bounded : length g.table ≤ g.config.max_in_flight
  pub sound : (h : ℕ) → h < g.next_handle → IsSoundEntry parse g.config.limits (g.entries h)

-- A step that adds no entry.
pub record Advances (parse : List ℕ → Option Envelope) (g s : Gateway) : Type 0 where
  pub config : s.config ≡ g.config
  pub next_handle : s.next_handle ≡ g.next_handle
  pub entries : (h : ℕ) → Evolves parse g.config.limits (g.entries h) (s.entries h)

pub erase-All :
    (P : Text × ℕ → Type 0) (key : Text) (table : List (Text × ℕ))
    → All P table
    → All P (erase_key key table)
unfolding erase_key
erase-All P key [] h = h
erase-All P key ((k, v) ∷ table) h = elim (Bool-cases (text_eq key k)) [
  | inl same ↦ rw same (erase-All P key table h.1)
  | inr other ↦ rw other (h.0, erase-All P key table h.1)
]

pub length-erase_key :
    (key : Text) (table : List (Text × ℕ)) → length (erase_key key table) ≤ length table
unfolding erase_key
length-erase_key key [] = omega arith
length-erase_key key ((k, v) ∷ table) = ground (arith, length-erase_key key table)

pub find-All :
    (P : Text × ℕ → Type 0) (key : Text) (table : List (Text × ℕ)) (h : ℕ)
    → All P table
    → find_key key table ≡ some h
    → P (key, h)
unfolding find_key
find-All P key [] h all e = cc
find-All P key ((k, v) ∷ table) h all e = elim (Bool-cases (text_eq key k)) [
  | inl same ↦ let ev : h ≡ v = ground arith in rw (eq_of_text_eq key k same, ev) (all.0)
  | inr other ↦ find-All P key table h all.1 (ground arith)
]

module _ (parse : List ℕ → Option Envelope) (g s : Gateway) (a : Advances parse g s) where
  pub IsKept-over : (table : List (Text × ℕ)) → IsKept g table → IsKept s table
  IsKept-over [] h = h
  IsKept-over (p ∷ table) h =
      ((rw (a.next_handle) h.0.0, (a.entries p.1).message_id ∙ h.0.1), IsKept-over table h.1)

  -- Such a step keeps the gateway sound if its table loses entries at most.
  pub Advances-IsSound :
      IsSound parse g → IsKept g s.table → length s.table ≤ length g.table → IsSound parse s
  Advances-IsSound h kept less = record {
    table = IsKept-over s.table kept;
    bounded = rw (a.config) (omega (arith, h.bounded));
    sound = λ k lt. rw (a.config) (
        sound_over parse g.config.limits (g.entries k) (s.entries k) (a.entries k)
          (h.sound k (omega (arith, a.next_handle))));
  }
