-- ===== src/Gateway/Types.antt =====
-- The gateway's state. A correlation entry is shared between the table and the exchange that waits for
-- it, so entries live in a store and the table holds their handles. Both clocks count milliseconds.
use iov_vehicle_tbox_tsp.Prelude.{
  ℕ, ◌+◌, ◌==◌, List, [], ◌∷◌, Bool, true, false, Option, none, some, Text, text_eq, leb,
  if◌then◌else◌, u64, u32, ◌*◌,
}
use iov_vehicle_tbox_tsp.Gateway.Envelope.{TransportOutcome, unknown, VehicleMessageLimits}

pub record VehicleMessageGatewayConfig : Type 0 where
  pub limits : VehicleMessageLimits
  pub max_in_flight : ℕ
  pub default_exchange_timeout_ms : ℕ

pub record CorrelationEntry : Type 0 where
  pub message_id : Text
  pub service : Text
  pub deadline : ℕ
  pub max_response_bytes : ℕ
  pub mqtt_accepted : Bool
  pub outcome : TransportOutcome
  pub response_bytes : List ℕ
  pub terminal : Bool
  pub completed_at : ℕ

pub record TransportCounters : Type 0 where
  pub request_total : ℕ
  pub request_published : ℕ
  pub response_completed : ℕ
  pub response_rejected : ℕ
  pub event_forwarded : ℕ
  pub event_dropped : ℕ
  pub exchange_timeout : ℕ
  pub envelope_invalid : ℕ

-- `++` of an atomic `uint64_t`.
abbrev pub count : ℕ → ℕ
count n = u64 (n + 1)

pub record Gateway : Type 0 where
  pub config : VehicleMessageGatewayConfig
  pub entries : ℕ → CorrelationEntry
  pub next_handle : ℕ
  pub table : List (Text × ℕ)
  pub recent_terminal : List (Text × ℕ)
  pub running : Bool
  pub is_stopping : Bool
  pub counters : TransportCounters

abbrev pub default_entry : CorrelationEntry
default_entry = record {
  message_id = [];
  service = [];
  deadline = 0;
  max_response_bytes = 16384;
  mqtt_accepted = false;
  outcome = unknown;
  response_bytes = [];
  terminal = false;
  completed_at = 0;
}

abbrev pub no_counts : TransportCounters
no_counts = record {
  request_total = 0;
  request_published = 0;
  response_completed = 0;
  response_rejected = 0;
  event_forwarded = 0;
  event_dropped = 0;
  exchange_timeout = 0;
  envelope_invalid = 0;
}

unfoldable pub find_key : Text → List (Text × ℕ) → Option ℕ
find_key key [] = none
find_key key ((k, v) ∷ table) =
    let rest = find_key key table in if text_eq key k then some v else rest

abbrev pub has_key : Text → List (Text × ℕ) → Bool
has_key key table = elim (find_key key table) [ none ↦ false | some v ↦ true ]

unfoldable pub erase_key : Text → List (Text × ℕ) → List (Text × ℕ)
erase_key key [] = []
erase_key key ((k, v) ∷ table) =
    let rest = erase_key key table in if text_eq key k then rest else (k, v) ∷ rest

unfoldable pub set_key : Text → ℕ → List (Text × ℕ) → List (Text × ℕ)
set_key key v table = (key, v) ∷ erase_key key table

unfoldable pub put_entry : ℕ → CorrelationEntry → (ℕ → CorrelationEntry) → ℕ → CorrelationEntry
put_entry h e entries other = if other == h then e else entries other

abbrev pub store_entry : ℕ → CorrelationEntry → Gateway → Gateway
store_entry h e g = record g { entries = put_entry h e g.entries }

unfoldable pub new_gateway : VehicleMessageGatewayConfig → Gateway
new_gateway config = record {
  config = config;
  entries = λ h. default_entry;
  next_handle = 0;
  table = [];
  recent_terminal = [];
  running = false;
  is_stopping = false;
  counters = no_counts;
}

-- How long a message id stays refused after its exchange ended.
unfoldable pub tombstone_window : VehicleMessageGatewayConfig → ℕ
tombstone_window config =
    let window = u32 (2 * config.default_exchange_timeout_ms) in
    if leb 5000 window then window else 5000
