-- ===== src/Gateway/Runs.antt =====
-- Runs: any interleaving of the exchanges' steps, the downlink, the sweeps and starts and stops.
use iov_vehicle_tbox_tsp.Prelude.{
  ℕ, ◌<◌, ◌≤◌, List, [], ◌∷◌, Bool, true, ◌≡◌, refl, ◌∙◌, inl, inr, Option, Text, arith,
}
use iov_vehicle_tbox_tsp.Gateway.Envelope.{Envelope}
use iov_vehicle_tbox_tsp.Gateway.Types.{
  VehicleMessageGatewayConfig, CorrelationEntry, Gateway, new_gateway,
}
use iov_vehicle_tbox_tsp.Gateway.Exchange.{
  ExchangeRequest, begin_exchange, MqttPublishResult, after_publish, finish,
}
use iov_vehicle_tbox_tsp.Gateway.Downlink.{
  RoutedDownlinkEvent, handle_routed_downlink, respond_found,
}
use iov_vehicle_tbox_tsp.Gateway.Sweep.{sweep, start_gateway, stop_flags, stop_table, stop_clear}
use iov_vehicle_tbox_tsp.Gateway.Invariant.{IsSound, Advances}
use iov_vehicle_tbox_tsp.Gateway.Steps.{
  Shrinks, Shrinks-IsSound, finish-Shrinks, after_publish-Shrinks,
}
use iov_vehicle_tbox_tsp.Gateway.Arrivals.{
  downlink-Shrinks, sweep-Shrinks, start-Shrinks, found-Shrinks, stop_flags-Shrinks,
  stop_table-Shrinks, stop_clear-Shrinks,
}
use iov_vehicle_tbox_tsp.Gateway.Admission.{begin_lem}

-- A step with what it reads: times, the daemon's and the publisher's answers, the shard.
pub data GatewayOp : Type 0 where
  do_begin : ℕ → ℕ → Bool → ExchangeRequest → GatewayOp
  do_publish : ℕ → Text → MqttPublishResult → GatewayOp
  do_finish : ℕ → ℕ → Text → GatewayOp
  do_downlink : ℕ → ℕ → Option Bool → RoutedDownlinkEvent → GatewayOp
  do_sweep : (Text → Bool) → ℕ → GatewayOp
  do_found : ℕ → ℕ → ℕ → List ℕ → GatewayOp
  do_start do_stop_flags do_stop_clear : GatewayOp
  do_stop_table : ℕ → GatewayOp

-- The end of an entry: how it ended, with which response, and when.
abbrev pub SameEnd : CorrelationEntry → CorrelationEntry → Type 0
SameEnd e f =
    (f.outcome ≡ e.outcome)
    × ((f.response_bytes ≡ e.response_bytes)
        × ((f.terminal ≡ e.terminal) × (f.completed_at ≡ e.completed_at)))

module _ (parse : List ℕ → Option Envelope) where
  unfoldable pub run : GatewayOp → Gateway → Gateway
  run (do_begin utc now stops req) g = (begin_exchange parse utc now stops req g).0
  run (do_publish h id pr) g = (after_publish h id pr g).0
  run (do_finish now h id) g = (finish now h id g).0
  run (do_downlink utc now published e) g = handle_routed_downlink parse utc now published e g
  run (do_sweep in_shard now) g = sweep in_shard now g
  run do_start g = start_gateway g
  run (do_found utc now h bytes) g = respond_found parse utc now h bytes g
  run do_stop_flags g = stop_flags g
  run (do_stop_table now) g = stop_table now g
  run do_stop_clear g = stop_clear g

  unfoldable pub run_all : List GatewayOp → Gateway → Gateway
  run_all [] g = g
  run_all (op ∷ ops) g = run_all ops (run op g)

  -- What one step keeps.
  abbrev Keeps : Gateway → Gateway → Type 0
  Keeps g s =
      IsSound parse s
      × ((g.next_handle ≤ s.next_handle)
          × ((h : ℕ)
              → h < g.next_handle
              → (g.entries h).terminal ≡ true
              → SameEnd (g.entries h) (s.entries h)))

  pub same_end :
      (g s : Gateway) (a : Advances parse g s) (h : ℕ)
      → (g.entries h).terminal ≡ true
      → SameEnd (g.entries h) (s.entries h)
  same_end g s a h done = elim (a.entries h).end [
    | inl same ↦ same
    | inr ended ↦ cc (done, ended.0)
  ]

  shrunk : (g s : Gateway) → IsSound parse g → Shrinks parse g s → Keeps g s
  shrunk g s h a = (
    Shrinks-IsSound parse g s a h,
    (omega (arith, a.advances.next_handle), λ k lt done. same_end g s a.advances k done),
  )

  same_entry : (e f : CorrelationEntry) → f ≡ e → SameEnd e f
  same_entry e f q = rw q (refl, (refl, (refl, refl)))

  run_lem : (op : GatewayOp) (g : Gateway) → IsSound parse g → Keeps g (run op g)
  unfolding run
  run_lem (do_begin utc now stops req) g h =
      let b = begin_lem parse utc now stops req g h in
      (b.0, (b.1.0, λ k lt done. same_entry (g.entries k) _ (b.1.1 k lt)))
  run_lem (do_publish k id pr) g h = shrunk g _ h (after_publish-Shrinks parse k id pr g)
  run_lem (do_finish now k id) g h = shrunk g _ h (finish-Shrinks parse now k id g)
  run_lem (do_downlink utc now published e) g h =
      shrunk g _ h (downlink-Shrinks parse utc now published e g h.table)
  run_lem (do_sweep in_shard now) g h = shrunk g _ h (sweep-Shrinks parse in_shard now g)
  run_lem do_start g h = shrunk g _ h (start-Shrinks parse g)
  run_lem (do_found utc now k bytes) g h = shrunk g _ h (found-Shrinks parse utc now k bytes g)
  run_lem do_stop_flags g h = shrunk g _ h (stop_flags-Shrinks parse g)
  run_lem (do_stop_table now) g h = shrunk g _ h (stop_table-Shrinks parse now g)
  run_lem do_stop_clear g h = shrunk g _ h (stop_clear-Shrinks parse g)

  run_all_lem : (ops : List GatewayOp) (g : Gateway) → IsSound parse g → Keeps g (run_all ops g)
  unfolding run_all
  run_all_lem [] g h = (h, (omega arith, λ k lt done. (refl, (refl, (refl, refl)))))
  run_all_lem (op ∷ ops) g h =
      let first = run_lem op g h in
      let later = run_all_lem ops (run op g) first.0 in
      (
        later.0,
        (
          omega (arith, first.1.0, later.1.0),
          λ k lt done.
              let a = first.1.1 k lt done in
              let b = later.1.1 k (omega (arith, first.1.0, lt)) (a.1.1.0 ∙ done) in
              (b.0 ∙ a.0, (b.1.0 ∙ a.1.0, (b.1.1.0 ∙ a.1.1.0, b.1.1.1 ∙ a.1.1.1))),
        ),
      )

  new_gateway-IsSound : (config : VehicleMessageGatewayConfig) → IsSound parse (new_gateway config)
  unfolding new_gateway
  new_gateway-IsSound config = record {
    table = tt;
    bounded = omega arith;
    sound = λ h lt. inl refl;
  }

module _ (parse : List ℕ → Option Envelope) (config : VehicleMessageGatewayConfig) where
  -- In every run of a new gateway, however exchanges, responses, sweeps and stops interleave: the
  -- table never holds more than max_in_flight requests, each entry in it stands under its own message
  -- id, and an entry ends as accepted only with bytes that are a valid response with the request's
  -- message id as correlation id, the request's service, and a size within the caller's limit.
  pub run_all-IsSound :
      (ops : List GatewayOp) → IsSound parse (run_all parse ops (new_gateway config))
  run_all-IsSound ops =
      (run_all_lem parse ops (new_gateway config) (new_gateway-IsSound parse config)).0

  -- The first end wins: in every run of a new gateway, once an entry is terminal no later step, of
  -- whatever kind, changes its outcome, its response or the time of its end.
  pub first_end_wins :
      (before later : List GatewayOp) (h : ℕ)
      → h < (run_all parse before (new_gateway config)).next_handle
      → ((run_all parse before (new_gateway config)).entries h).terminal ≡ true
      → SameEnd
          ((run_all parse before (new_gateway config)).entries h)
          ((run_all parse later (run_all parse before (new_gateway config))).entries h)
  first_end_wins before later h lt done =
      (run_all_lem parse later _ (run_all-IsSound before)).1.1 h lt done
