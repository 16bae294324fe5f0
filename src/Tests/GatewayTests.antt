-- ===== src/Tests/GatewayTests.antt =====
-- The gateway theorems at concrete inputs: a parser of messages of one byte, and a short exchange.
use iov_vehicle_tbox_tsp.Prelude.{
  ℕ, ◌+◌, ◌<◌, ◌==◌, if◌then◌else◌, List, [], ◌∷◌, true, false, ◌≡◌, refl, Option, none, some,
  codes, arith, text_eq, after_prefix,
}
use iov_vehicle_tbox_tsp.Gateway.Envelope.{
  MessageKind, request, response, Envelope, validate_envelope, validate_fields, validate_identity,
  is_expired, payload_type_in_capability, is_name, all_name_parts,
}
use iov_vehicle_tbox_tsp.Gateway.Types.{
  tombstone_window, VehicleMessageGatewayConfig, Gateway, new_gateway, find_key, put_entry, set_key,
  erase_key,
}
use iov_vehicle_tbox_tsp.Gateway.Exchange.{
  finish, end_wait, leave, count_completed, ExchangeRequest, begin_exchange, enter, new_entry,
  after_publish,
}
use iov_vehicle_tbox_tsp.Gateway.Downlink.{
  RoutedDownlinkEvent, handle_routed_downlink, is_own_route, by_kind, respond_to, respond,
}
use iov_vehicle_tbox_tsp.Gateway.Sweep.{sweep, sweep_entries, start_gateway}
use iov_vehicle_tbox_tsp.Gateway.Invariant.{IsSound}
use iov_vehicle_tbox_tsp.Gateway.Admission.{is_waiting}
use iov_vehicle_tbox_tsp.Gateway.Runs.{
  GatewayOp, do_begin, do_publish, do_finish, do_downlink, do_start, do_found, do_stop_flags,
  do_stop_table, do_stop_clear, SameEnd, run, run_all, run_all-IsSound, first_end_wins,
}
use iov_vehicle_tbox_tsp.Gateway.Protection.{finish_protects}

abbrev kind_of_byte : ℕ → MessageKind
kind_of_byte b = if b == 1 then request else response

abbrev parse_byte : List ℕ → Option Envelope
parse_byte [] = none
parse_byte (b ∷ bytes) = some (record {
  protocol_version = codes "fota-v1";
  message_kind = kind_of_byte b;
  service = codes "vehicle.fota";
  payload_type = codes "vehicle.fota.v1.Report";
  payload = [];
  expire_at_ms = none;
  message_id = codes "m1";
  correlation_id = codes "m1";
})

abbrev small_config : VehicleMessageGatewayConfig
small_config = record {
  limits = record {
    allowed_services = codes "vehicle.fota" ∷ [];
    allowed_protocol_versions = codes "fota-v1" ∷ [];
    max_envelope_bytes = 16;
    max_payload_bytes = 8;
  };
  max_in_flight = 2;
  default_exchange_timeout_ms = 2500;
}

abbrev one_request : ExchangeRequest
one_request = record { envelope_bytes = 1 ∷ []; timeout_ms = 0; max_response_bytes = 0 }

abbrev one_response : RoutedDownlinkEvent
one_response = record {
  owner = codes "tsp";
  route_id = codes "fota.downlink";
  target = codes "tsp.fota";
  payload = 2 ∷ [];
}

abbrev answered_exchange : List GatewayOp
answered_exchange =
    do_start
    ∷ do_begin 100 7 false one_request
    ∷ do_publish 0 (codes "m1") (record { accepted = true; is_unknown = false })
    ∷ do_downlink 101 8 none one_response
    ∷ []

run_all-IsSound_example :
    IsSound parse_byte (run_all parse_byte answered_exchange (new_gateway small_config))
run_all-IsSound_example = run_all-IsSound parse_byte small_config answered_exchange

begins :
    is_waiting (begin_exchange parse_byte 100 7 false one_request (new_gateway small_config)).1
    ≡ true
unfolding begin_exchange enter validate_envelope validate_fields validate_identity is_expired
    payload_type_in_capability after_prefix is_name all_name_parts find_key new_gateway text_eq
begins = refl

entered :
    (0 < (run_all parse_byte answered_exchange (new_gateway small_config)).next_handle)
    × (((run_all parse_byte answered_exchange (new_gateway small_config)).entries 0).terminal
        ≡ true)
unfolding run_all run begin_exchange enter validate_envelope validate_fields validate_identity
    is_expired payload_type_in_capability after_prefix is_name all_name_parts find_key new_gateway
    text_eq after_publish put_entry set_key erase_key handle_routed_downlink is_own_route by_kind
    respond_to respond new_entry start_gateway
entered = (omega arith, refl)

first_end_wins_example :
    SameEnd ((run_all parse_byte answered_exchange (new_gateway small_config)).entries 0) (
      (run_all parse_byte
          (do_found 102 9 0 one_response.payload
            ∷ do_stop_flags
            ∷ do_stop_table 9
            ∷ do_stop_clear
            ∷ do_finish 10 0 (codes "m1")
            ∷ [])
          (run_all parse_byte answered_exchange (new_gateway small_config))).entries
        0)
first_end_wins_example =
    first_end_wins parse_byte small_config answered_exchange
      (do_found 102 9 0 one_response.payload
        ∷ do_stop_flags
        ∷ do_stop_table 9
        ∷ do_stop_clear
        ∷ do_finish 10 0 (codes "m1")
        ∷ [])
      0 entered.0 entered.1

abbrev started : Gateway
started = record (new_gateway small_config) {
  running = true;
  table = (codes "m1", 0) ∷ [];
  next_handle = 1;
}

window_open : 100 < 10 + tombstone_window (new_gateway small_config).config
unfolding tombstone_window new_gateway
window_open = omega arith

same_id :
    (validate_envelope parse_byte
      (sweep (λ id. true) 100 (finish 10 0 (codes "m1") (new_gateway small_config)).0).config.limits
      200
      true
      one_request.envelope_bytes).message_id
    ≡ codes "m1"
unfolding sweep sweep_entries finish end_wait leave count_completed erase_key validate_envelope
    validate_fields validate_identity is_expired payload_type_in_capability after_prefix is_name
    all_name_parts new_gateway text_eq put_entry
same_id = refl

finish_protects_example :
    is_waiting
      (begin_exchange parse_byte 200 150 false one_request
        (sweep (λ id. true) 100 (finish 10 0 (codes "m1") (new_gateway small_config)).0)).1
    ≡ false
finish_protects_example =
    finish_protects parse_byte 10 0 (codes "m1") (new_gateway small_config) (λ id. true) 100 200 150
      false one_request window_open same_id
