-- ===== src/Gateway/Exchange.antt =====
-- `exchange`, in three steps between which the other threads run: up to the entry in the table, the
-- publishing, and the end of the wait.
use iov_vehicle_tbox_tsp.Prelude.{
  ℕ, ◌+◌, List, [], ◌∷◌, Bool, true, false, not, ◌&&◌, ◌||◌, Option, none, some, Text, codes, ltb,
  leb, length, if◌then◌else◌,
}
use iov_vehicle_tbox_tsp.Gateway.Envelope.{
  TransportOutcome, accepted, rejected, timeout, unknown, payload_too_large, protocol_error,
  stopping, Envelope, EnvelopeValidation, validate_envelope,
}
use iov_vehicle_tbox_tsp.Gateway.Types.{
  VehicleMessageGatewayConfig, CorrelationEntry, default_entry, Gateway, count, has_key, erase_key,
  set_key, store_entry, tombstone_window,
}

pub record TransportResult : Type 0 where
  pub outcome : TransportOutcome
  pub value : Option (List ℕ)
  pub error_code : ℕ
  pub error : Text

abbrev pub failed : TransportOutcome → ℕ → Text → TransportResult
failed outcome error_code error = record {
  outcome = outcome;
  value = none;
  error_code = error_code;
  error = error;
}

abbrev pub publish_failed : ℕ
publish_failed = 1001

abbrev pub response_conflict : ℕ
response_conflict = 1003

abbrev pub frame_too_large : ℕ
frame_too_large = 2002

abbrev pub unknown_outcome : ℕ
unknown_outcome = 2005

-- A timeout that is not positive is 0.
pub record ExchangeRequest : Type 0 where
  pub envelope_bytes : List ℕ
  pub timeout_ms : ℕ
  pub max_response_bytes : ℕ

-- The caller's timeout if it gave one, at most the default.
unfoldable pub bounded_timeout : VehicleMessageGatewayConfig → ℕ → ℕ
bounded_timeout config timeout_ms =
    if ltb 0 timeout_ms && leb timeout_ms config.default_exchange_timeout_ms
    then timeout_ms
    else config.default_exchange_timeout_ms

unfoldable pub new_entry : ℕ → ExchangeRequest → EnvelopeValidation → Gateway → CorrelationEntry
new_entry now req v g = record default_entry {
  message_id = v.message_id;
  service = v.service;
  deadline = now + bounded_timeout g.config req.timeout_ms;
  max_response_bytes =
      if ltb 0 req.max_response_bytes
      then req.max_response_bytes
      else g.config.limits.max_envelope_bytes;
}

abbrev pub count_invalid : Gateway → Gateway
count_invalid g = record g {
  counters = record (g.counters) { envelope_invalid = count g.counters.envelope_invalid };
}

abbrev pub count_total : Gateway → Gateway
count_total g = record g {
  counters = record (g.counters) { request_total = count g.counters.request_total };
}

abbrev pub count_rejected : Gateway → Gateway
count_rejected g = record g {
  counters = record (g.counters) { response_rejected = count g.counters.response_rejected };
}

-- A new exchange is refused with a result, or waits on the entry of its handle.
pub data Begun : Type 0 where
  refused : TransportResult → Begun
  waiting : ℕ → Text → Begun

unfoldable pub enter : ℕ → ExchangeRequest → EnvelopeValidation → Gateway → Gateway × Begun
enter now req v g =
    if leb g.config.max_in_flight (length g.table)
    then (g, refused (failed rejected publish_failed (codes "max_in_flight")))
    else if has_key v.message_id g.table || has_key v.message_id g.recent_terminal
    then (
      count_rejected g,
      refused (failed protocol_error response_conflict (codes "message_identity_conflict")),
    )
    else (
      record (store_entry g.next_handle (new_entry now req v g) g) {
        next_handle = g.next_handle + 1;
        table = set_key v.message_id g.next_handle g.table;
      },
      waiting g.next_handle v.message_id,
    )

module _ (parse : List ℕ → Option Envelope) where
  -- `utc` is the system clock and `now` the steady one. `stops` is what `stopping_` was when it was read,
  -- without a lock and before the entry into the table; it may have changed since.
  unfoldable pub begin_exchange : ℕ → ℕ → Bool → ExchangeRequest → Gateway → Gateway × Begun
  begin_exchange utc now stops req g =
      let v = validate_envelope parse g.config.limits utc true req.envelope_bytes in
      if stops
      then (g, refused (failed stopping publish_failed (codes "stopping")))
      else if not v.valid
      then (count_invalid g, refused (failed v.outcome 0 v.reason))
      else enter now req v (count_total g)

pub record MqttPublishResult : Type 0 where
  pub accepted : Bool
  pub is_unknown : Bool

abbrev pub publish_failure : Bool → TransportResult
publish_failure true = failed unknown unknown_outcome (codes "publish_outcome_unknown")
publish_failure false = failed rejected publish_failed (codes "mqtt_local_rejected")

-- After the daemon answered the publishing: the result of a failed one.
unfoldable pub after_publish :
    ℕ → Text → MqttPublishResult → Gateway → Gateway × Option TransportResult
after_publish h message_id pr g =
    let counted = record g {
      counters = record (g.counters) { request_published = count g.counters.request_published };
    } in
    if pr.accepted
    then (store_entry h (record (g.entries h) { mqtt_accepted = true }) counted, none)
    else (
      record counted { table = erase_key message_id g.table },
      some (publish_failure pr.is_unknown),
    )

-- An entry whose deadline passed.
abbrev pub time_out : ℕ → CorrelationEntry → CorrelationEntry
time_out now e = record e {
  outcome = if e.mqtt_accepted then timeout else unknown;
  terminal = true;
  completed_at = now;
}

abbrev pub result_of : TransportOutcome → List ℕ → TransportResult
result_of accepted [] = failed accepted 0 []
result_of accepted (b ∷ bytes) = record {
  outcome = accepted;
  value = some (b ∷ bytes);
  error_code = 0;
  error = [];
}
result_of unknown bytes = failed unknown unknown_outcome (codes "business_response_unknown")
result_of timeout bytes = failed timeout publish_failed (codes "business_response_timeout")
result_of payload_too_large bytes =
    failed payload_too_large frame_too_large (codes "response_too_large")
result_of stopping bytes = failed stopping 0 (codes "stopping")
result_of outcome bytes = failed outcome 0 []

abbrev pub is_accepted_outcome : TransportOutcome → Bool
is_accepted_outcome accepted = true
is_accepted_outcome _ = false

-- The wait ended: the entry is terminal, or else its deadline passed.
unfoldable pub end_wait : ℕ → ℕ → Gateway → Gateway
end_wait now h g =
    if (g.entries h).terminal then g else record (store_entry h (time_out now (g.entries h)) g) {
      counters = record (g.counters) { exchange_timeout = count g.counters.exchange_timeout };
    }

unfoldable pub leave : ℕ → Text → Gateway → Gateway
leave now message_id g = record g {
  table = erase_key message_id g.table;
  recent_terminal = set_key message_id (now + tombstone_window g.config) g.recent_terminal;
}

unfoldable pub count_completed : TransportOutcome → Gateway → Gateway
count_completed outcome g =
    if is_accepted_outcome outcome
    then record g {
      counters = record (g.counters) { response_completed = count g.counters.response_completed };
    }
    else g

unfoldable pub finish : ℕ → ℕ → Text → Gateway → Gateway × TransportResult
finish now h message_id g =
    let ended = end_wait now h g in
    let e = ended.entries h in
    (count_completed e.outcome (leave now message_id ended), result_of e.outcome e.response_bytes)
