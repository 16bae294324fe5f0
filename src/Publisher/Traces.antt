-- ===== src/Publisher/Traces.antt =====
-- Runs of the publisher: what was queued is taken in order, and the counts stay right.
use mathlib.Core.List.{append_assoc, append-nil}
use iov_vehicle_tbox_tsp.Prelude.{
  ℕ, zero, suc, List, [], ◌∷◌, ◌++◌, ◌≡◌, refl, sym, ◌∙◌, inl, inr, Option, none, some, leb, ap,
  Bool-cases, if◌then◌else◌,
}
use iov_vehicle_tbox_tsp.Publisher.{
  VehicleMessageEvent, SlowSubscriberPolicy, TspEventPublisher, new_publisher,
  publish_vehicle_message, take_from, take, start_publisher, stop_publisher,
}
use iov_vehicle_tbox_tsp.Publisher.Counts.{
  IsCounted, new_publisher-IsCounted, publish-IsCounted, taken-IsCounted,
}

pub data PublisherOp : Type 0 where
  do_publish : VehicleMessageEvent → PublisherOp
  do_take do_start do_stop : PublisherOp

unfoldable pub taken_or_not :
    TspEventPublisher
    → Option (VehicleMessageEvent × TspEventPublisher)
    → List VehicleMessageEvent × TspEventPublisher
taken_or_not p none = ([], p)
taken_or_not p (some (ev, q)) = (ev ∷ [], q)

-- What an operation takes out of the queue.
unfoldable pub step : PublisherOp → TspEventPublisher → List VehicleMessageEvent × TspEventPublisher
step (do_publish ev) p = ([], (publish_vehicle_message ev p).0)
step do_take p = taken_or_not p (take p)
step do_start p = ([], start_publisher p)
step do_stop p = ([], stop_publisher p)

-- What an operation puts into the queue: an event for a service with room.
unfoldable pub put : PublisherOp → TspEventPublisher → List VehicleMessageEvent
put (do_publish ev) p = if leb p.queue_capacity (p.service_count ev.service) then [] else ev ∷ []
put do_take p = []
put do_start p = []
put do_stop p = []

unfoldable pub steps :
    List PublisherOp → TspEventPublisher → List VehicleMessageEvent × TspEventPublisher
steps [] p = ([], p)
steps (op ∷ ops) p = let rest = steps ops (step op p).1 in ((step op p).0 ++ rest.0, rest.1)

unfoldable pub puts : List PublisherOp → TspEventPublisher → List VehicleMessageEvent
puts [] p = []
puts (op ∷ ops) p = let rest = puts ops (step op p).1 in put op p ++ rest

take_from_lem :
    (p : TspEventPublisher) (queue : List VehicleMessageEvent)
    → p.queue ≡ queue
    → (queue
        ≡ (taken_or_not p (take_from queue p)).0 ++ (taken_or_not p (take_from queue p)).1.queue)
      × (IsCounted p → IsCounted (taken_or_not p (take_from queue p)).1)
unfolding take_from taken_or_not
take_from_lem p [] e = (sym e, λ h. h)
take_from_lem p (ev ∷ queue) e = (refl, λ h. taken-IsCounted ev queue p e h)

take_step :
    (p : TspEventPublisher)
    → (p.queue ≡ (step do_take p).0 ++ (step do_take p).1.queue)
      × (IsCounted p → IsCounted (step do_take p).1)
unfolding step take
take_step p = take_from_lem p p.queue refl

publish_step :
    (ev : VehicleMessageEvent) (p : TspEventPublisher)
    → p.queue ++ put (do_publish ev) p ≡ (publish_vehicle_message ev p).0.queue
unfolding put publish_vehicle_message
publish_step ev p = elim (Bool-cases (leb p.queue_capacity (p.service_count ev.service))) [
  | inl full ↦ rw full (append-nil p.queue)
  | inr room ↦ rw room refl
]

step_lem :
    (op : PublisherOp) (p : TspEventPublisher)
    → (p.queue ++ put op p ≡ (step op p).0 ++ (step op p).1.queue)
      × (IsCounted p → IsCounted (step op p).1)
unfolding put step start_publisher stop_publisher
step_lem (do_publish ev) p = (publish_step ev p, publish-IsCounted ev p)
step_lem do_take p = let t = take_step p in (append-nil p.queue ∙ t.0, t.1)
step_lem do_start p = (append-nil p.queue, λ h. record { counts = h.counts; bounded = h.bounded })
step_lem do_stop p = (append-nil p.queue, λ h. record { counts = h.counts; bounded = h.bounded })

steps_order :
    (ops : List PublisherOp) (p : TspEventPublisher)
    → p.queue ++ puts ops p ≡ (steps ops p).0 ++ (steps ops p).1.queue
unfolding puts steps
steps_order [] p = append-nil p.queue
steps_order (op ∷ ops) p =
    sym (append_assoc p.queue (put op p) (puts ops (step op p).1))
    ∙ ap (λ l. l ++ puts ops (step op p).1) (step_lem op p).0
    ∙ append_assoc (step op p).0 (step op p).1.queue (puts ops (step op p).1)
    ∙ ap (λ l. (step op p).0 ++ l) (steps_order ops (step op p).1)
    ∙ sym (append_assoc (step op p).0 (steps ops (step op p).1).0 (steps ops (step op p).1).1.queue)

steps-IsCounted :
    (ops : List PublisherOp) (p : TspEventPublisher) → IsCounted p → IsCounted (steps ops p).1
unfolding steps
steps-IsCounted [] p h = h
steps-IsCounted (op ∷ ops) p h = steps-IsCounted ops (step op p).1 ((step_lem op p).1 h)

unfoldable pub takes : ℕ → List PublisherOp
takes zero = []
takes (suc n) = do_take ∷ takes n

-- However publishes, takes of the worker, starts and stops interleave on a new publisher, with any
-- capacity and policy: the counters show the queue exactly and no service holds more than the capacity; and the
-- events taken, then those still queued, are the accepted events in the order of their publishing.
pub publisher_order :
    (size : ℕ) (policy : SlowSubscriberPolicy) (ops : List PublisherOp)
    → let p = new_publisher size policy in
      IsCounted (steps ops p).1 × (puts ops p ≡ (steps ops p).0 ++ (steps ops p).1.queue)
publisher_order size policy ops =
    let p = new_publisher size policy in
    (
      steps-IsCounted ops p (new_publisher-IsCounted size policy),
      unfold new_publisher in steps_order ops p,
    )
