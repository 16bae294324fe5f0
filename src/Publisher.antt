-- ===== src/Publisher.antt =====
-- src/tsp_event_publisher.cpp: the bounded queue of downlink events for the subscribed clients. The
-- mutex makes publishing and each take of the worker one step; the worker is a sequence of `take` and
-- `deliver`, and publishes may come between its takes, also after `stop`.
pub mod Counts
pub mod Traces
use iov_vehicle_tbox_tsp.Prelude.{
  ℕ, ◌+◌, ◌-◌, List, [], ◌∷◌, ◌++◌, Bool, true, false, not, ◌&&◌, is_empty, Option, none, some,
  Text, text_eq, ◌==◌, leb, if◌then◌else◌,
}

pub record VehicleMessageEvent : Type 0 where
  pub service : Text
  pub envelope_bytes : List ℕ
  pub trace_id : Text
  pub request_id : Text

pub data SlowSubscriberPolicy : Type 0 where
  disconnect drop reject : SlowSubscriberPolicy

-- The map of counts is a total function: `operator[]` gives 0 for a service not seen before.
pub record TspEventPublisher : Type 0 where
  pub queue_capacity : ℕ
  pub policy : SlowSubscriberPolicy
  pub queue : List VehicleMessageEvent
  pub service_count : Text → ℕ
  pub running : Bool

unfoldable pub new_publisher : ℕ → SlowSubscriberPolicy → TspEventPublisher
new_publisher downlink_queue_size policy = record {
  queue_capacity = if downlink_queue_size == 0 then 256 else downlink_queue_size;
  policy = policy;
  queue = [];
  service_count = λ service. 0;
  running = false;
}

unfoldable pub set_count : Text → ℕ → (Text → ℕ) → Text → ℕ
set_count service n counts other = if text_eq other service then n else counts other

-- What the caller is told when the queue of the service is full.
abbrev pub full_result : SlowSubscriberPolicy → Bool
full_result reject = false
full_result drop = true
full_result disconnect = true

unfoldable pub publish_vehicle_message :
    VehicleMessageEvent → TspEventPublisher → TspEventPublisher × Bool
publish_vehicle_message ev p =
    if leb p.queue_capacity (p.service_count ev.service) then (p, full_result p.policy) else (
      record p {
        queue = p.queue ++ (ev ∷ []);
        service_count = set_count ev.service (p.service_count ev.service + 1) p.service_count;
      },
      true,
    )

unfoldable pub take_from :
    List VehicleMessageEvent → TspEventPublisher → Option (VehicleMessageEvent × TspEventPublisher)
take_from [] p = none
take_from (ev ∷ queue) p = some (
  ev,
  record p {
    queue = queue;
    service_count = set_count ev.service (p.service_count ev.service - 1) p.service_count;
  },
)

-- The worker takes the first event; with none it waits, or leaves once the publisher stopped.
unfoldable pub take : TspEventPublisher → Option (VehicleMessageEvent × TspEventPublisher)
take p = take_from p.queue p

pub data Delivery : Type 0 where
  no_subscriber push_failed : Delivery
  pushed : Text → Delivery

-- One event on its way out. The encoding as JSON with base64 and the two callbacks are parameters;
-- both callbacks get the event type VEHICLE_MESSAGE.
module _ (encode_vehicle_message : VehicleMessageEvent → Text) where
  unfoldable pub send : Option (Text → Bool) → VehicleMessageEvent → Delivery
  send none ev = push_failed
  send (some push) ev =
      if push (encode_vehicle_message ev) then pushed (encode_vehicle_message ev) else push_failed

  unfoldable pub deliver : Option Bool → Option (Text → Bool) → VehicleMessageEvent → Delivery
  deliver (some false) push ev = no_subscriber
  deliver (some true) push ev = send push ev
  deliver none push ev = send push ev

unfoldable pub start_publisher : TspEventPublisher → TspEventPublisher
start_publisher p = record p { running = true }

-- `stop` up to the join; the worker then goes on until it leaves.
unfoldable pub stop_publisher : TspEventPublisher → TspEventPublisher
stop_publisher p = record p { running = false }

-- When the worker leaves its loop.
unfoldable pub worker_leaves : TspEventPublisher → Bool
worker_leaves p = is_empty p.queue && not p.running
