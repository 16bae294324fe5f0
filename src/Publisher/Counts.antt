-- ===== src/Publisher/Counts.antt =====
-- The counts of the services and the bound of their queues.
use iov_vehicle_tbox_tsp.Prelude.{
  ℕ, suc, ◌+◌, ◌-◌, ◌≤◌, List, [], ◌∷◌, ◌++◌, false, ◌≡◌, refl, inl, inr, Text, text_eq,
  eq_of_text_eq, leb, Bool-cases, arith, if◌then◌else◌,
}
use iov_vehicle_tbox_tsp.Publisher.{
  VehicleMessageEvent, SlowSubscriberPolicy, TspEventPublisher, new_publisher, set_count,
  publish_vehicle_message,
}

-- How many queued events are for a service.
unfoldable pub count_in : Text → List VehicleMessageEvent → ℕ
count_in service [] = 0
count_in service (ev ∷ queue) =
    let rest = count_in service queue in if text_eq service ev.service then suc rest else rest

-- The counters show the queue, and no service has more events than the capacity.
pub record IsCounted (p : TspEventPublisher) : Type 0 where
  pub counts : (service : Text) → p.service_count service ≡ count_in service p.queue
  pub bounded : (service : Text) → count_in service p.queue ≤ p.queue_capacity

count_in_snoc :
    (service : Text) (queue : List VehicleMessageEvent) (ev : VehicleMessageEvent)
    → count_in service (queue ++ (ev ∷ []))
      ≡ count_in service queue + (if text_eq service ev.service then 1 else 0)
unfolding count_in
count_in_snoc service [] ev = ground arith
count_in_snoc service (first ∷ queue) ev = ground (arith, count_in_snoc service queue ev)

set_count_other :
    (service : Text) (n : ℕ) (counts : Text → ℕ) (other : Text)
    → text_eq other service ≡ false
    → set_count service n counts other ≡ counts other
unfolding set_count
set_count_other service n counts other h = rw h refl

pub new_publisher-IsCounted :
    (size : ℕ) (policy : SlowSubscriberPolicy) → IsCounted (new_publisher size policy)
unfolding new_publisher count_in
new_publisher-IsCounted size policy = record { counts = λ s. refl; bounded = λ s. omega arith }

pub publish-IsCounted :
    (ev : VehicleMessageEvent) (p : TspEventPublisher)
    → IsCounted p
    → IsCounted (publish_vehicle_message ev p).0
unfolding publish_vehicle_message set_count
publish-IsCounted ev p h = elim (Bool-cases (leb p.queue_capacity (p.service_count ev.service))) [
  | inl full ↦ rw full h
  | inr room ↦ rw room (record {
    counts = λ s. elim (Bool-cases (text_eq s ev.service)) [
      | inl same ↦ ground (
        arith,
        count_in_snoc s p.queue ev,
        h.counts s,
        h.counts ev.service,
        eq_of_text_eq s ev.service same,
      )
      | inr other ↦ ground (arith, count_in_snoc s p.queue ev, h.counts s)
    ];
    bounded = λ s. elim (Bool-cases (text_eq s ev.service)) [
      | inl same ↦
          ground (
            arith,
            count_in_snoc s p.queue ev,
            h.counts ev.service,
            eq_of_text_eq s ev.service same,
          )
      | inr other ↦ ground (arith, count_in_snoc s p.queue ev, h.bounded s)
    ];
  })
]

abbrev pub taken_of :
    VehicleMessageEvent → List VehicleMessageEvent → TspEventPublisher → TspEventPublisher
taken_of ev queue p = record p {
  queue = queue;
  service_count = set_count ev.service (p.service_count ev.service - 1) p.service_count;
}

count_in_first :
    (s : Text) (ev : VehicleMessageEvent) (queue whole : List VehicleMessageEvent)
    → whole ≡ ev ∷ queue
    → count_in s whole ≡ count_in s queue + (if text_eq s ev.service then 1 else 0)
unfolding count_in
count_in_first s ev queue whole e = rw e (ground arith)

pub taken-IsCounted :
    (ev : VehicleMessageEvent) (queue : List VehicleMessageEvent) (p : TspEventPublisher)
    → p.queue ≡ ev ∷ queue
    → IsCounted p
    → IsCounted (taken_of ev queue p)
unfolding set_count
taken-IsCounted ev queue p e h = record {
  counts = λ s. elim (Bool-cases (text_eq s ev.service)) [
    | inl same ↦ ground (
      arith,
      count_in_first s ev queue p.queue e,
      h.counts s,
      h.counts ev.service,
      eq_of_text_eq s ev.service same,
    )
    | inr other ↦ ground (arith, count_in_first s ev queue p.queue e, h.counts s)
  ];
  bounded = λ s. ground (arith, count_in_first s ev queue p.queue e, h.bounded s);
}
