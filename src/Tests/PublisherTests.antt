-- ===== src/Tests/PublisherTests.antt =====
-- The publisher theorems at concrete inputs.
use iov_vehicle_tbox_tsp.Prelude.{List, [], ◌∷◌, ◌++◌, true, ◌≡◌, codes}
use iov_vehicle_tbox_tsp.Publisher.{VehicleMessageEvent, drop, TspEventPublisher, new_publisher}
use iov_vehicle_tbox_tsp.Publisher.Counts.{IsCounted, count_in}
use iov_vehicle_tbox_tsp.Publisher.Traces.{
  PublisherOp, do_publish, do_take, do_stop, steps, puts, publisher_order,
}

abbrev first_event : VehicleMessageEvent
first_event = record {
  service = codes "vehicle.fota";
  envelope_bytes = 1 ∷ [];
  trace_id = [];
  request_id = [];
}

abbrev mixed : List PublisherOp
mixed = do_publish first_event ∷ do_publish first_event ∷ do_take ∷ do_publish first_event ∷ []

publisher_order_example :
    IsCounted (steps mixed (new_publisher 1 drop)).1
    × (puts mixed (new_publisher 1 drop)
        ≡ (steps mixed (new_publisher 1 drop)).0 ++ (steps mixed (new_publisher 1 drop)).1.queue)
publisher_order_example = publisher_order 1 drop mixed

abbrev one_queued : TspEventPublisher
one_queued = record {
  queue_capacity = 4;
  policy = drop;
  queue = first_event ∷ [];
  service_count = λ s. count_in s (first_event ∷ []);
  running = true;
}

abbrev late : List PublisherOp
late = do_stop ∷ do_publish first_event ∷ do_take ∷ []
