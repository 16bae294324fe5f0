-- ===== src/Gateway/Downlink.antt =====
-- `handle_routed_downlink`. The parser and the event publisher (its answer to an event) are parameters.
use iov_vehicle_tbox_tsp.Prelude.{
  ℕ, List, Bool, true, false, not, ◌&&◌, Option, none, some, Text, codes, text_eq, ltb, length,
  if◌then◌else◌,
}
use iov_vehicle_tbox_tsp.Gateway.Envelope.{
  accepted, payload_too_large, MessageKind, unspecified, request, response, event, other,
  is_response, Envelope, EnvelopeValidation, validate_envelope,
}
use iov_vehicle_tbox_tsp.Gateway.Types.{CorrelationEntry, Gateway, count, find_key, store_entry}
use iov_vehicle_tbox_tsp.Gateway.Exchange.{count_invalid, count_rejected}

pub record RoutedDownlinkEvent : Type 0 where
  pub owner : Text
  pub route_id : Text
  pub target : Text
  pub payload : List ℕ

abbrev pub complete : ℕ → List ℕ → CorrelationEntry → CorrelationEntry
complete now bytes e = record e {
  outcome = accepted;
  response_bytes = bytes;
  terminal = true;
  completed_at = now;
}

abbrev pub complete_oversize : ℕ → CorrelationEntry → CorrelationEntry
complete_oversize now e = record e {
  outcome = payload_too_large;
  terminal = true;
  completed_at = now;
}

-- A response for the entry of handle `h`.
unfoldable pub respond : ℕ → ℕ → EnvelopeValidation → List ℕ → Gateway → Gateway
respond now h v bytes g =
    let e = g.entries h in
    if e.terminal
    then count_rejected g
    else if not (text_eq e.service v.service)
    then count_rejected g
    else if v.expired
    then count_rejected g
    else if ltb e.max_response_bytes (length bytes)
    then count_rejected (store_entry h (complete_oversize now e) g)
    else store_entry h (complete now bytes e) g

unfoldable pub respond_to : ℕ → Option ℕ → EnvelopeValidation → List ℕ → Gateway → Gateway
respond_to now none v bytes g = count_rejected g
respond_to now (some h) v bytes g = respond now h v bytes g

abbrev pub count_dropped : Gateway → Gateway
count_dropped g = record g {
  counters = record (g.counters) { event_dropped = count g.counters.event_dropped };
}

-- An event, with the publisher's answer if there is a publisher.
abbrev pub forward_event : Option Bool → Gateway → Gateway
forward_event (some true) g = record g {
  counters = record (g.counters) { event_forwarded = count g.counters.event_forwarded };
}
forward_event (some false) g = count_dropped g
forward_event none g = count_dropped g

unfoldable pub by_kind :
    ℕ → Option Bool → MessageKind → EnvelopeValidation → List ℕ → Gateway → Gateway
by_kind now published response v bytes g =
    respond_to now (find_key v.correlation_id g.table) v bytes g
by_kind now published event v bytes g = forward_event published g
by_kind now published unspecified v bytes g = count_invalid g
by_kind now published request v bytes g = count_invalid g
by_kind now published (other n) v bytes g = count_invalid g

unfoldable pub is_own_route : RoutedDownlinkEvent → Bool
is_own_route e =
    text_eq e.owner (codes "tsp")
    && (text_eq e.route_id (codes "fota.downlink") && text_eq e.target (codes "tsp.fota"))

module _ (parse : List ℕ → Option Envelope) where
  unfoldable pub handle_routed_downlink :
      ℕ → ℕ → Option Bool → RoutedDownlinkEvent → Gateway → Gateway
  handle_routed_downlink utc now published e g =
      let v = validate_envelope parse g.config.limits utc false e.payload in
      if g.is_stopping
      then g
      else if not (is_own_route e)
      then count_invalid g
      else if not v.valid
      then count_invalid g
      else by_kind now published v.message_kind v e.payload g

  -- A response whose entry was looked up before: another thread may run between the lookup, under the
  -- lock of the table, and the rest, under that of the entry. An entry never changes its message id, so
  -- what the lookup found still stands.
  unfoldable pub respond_found : ℕ → ℕ → ℕ → List ℕ → Gateway → Gateway
  respond_found utc now h bytes g =
      let v = validate_envelope parse g.config.limits utc false bytes in
      if v.valid
        && (is_response v.message_kind && text_eq (g.entries h).message_id v.correlation_id)
      then respond now h v bytes g
      else g
