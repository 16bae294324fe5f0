-- ===== src/Gateway/Arrivals.antt =====
-- The downlink, the sweep and the stop keep the gateway sound too.
use iov_vehicle_tbox_tsp.Prelude.{
  ℕ, ◌+◌, ◌<◌, List, [], ◌∷◌, Bool, true, false, not, ◌&&◌, ◌≡◌, refl, sym, inl, inr, Option, none,
  some, Text, text_eq, ltb, leb, length, Bool-cases, arith, if◌then◌else◌, eq_of_text_eq,
}
use iov_vehicle_tbox_tsp.Gateway.Envelope.{
  is_response, MessageKind, unspecified, request, response, event, other, Envelope,
  validate_envelope,
}
use iov_vehicle_tbox_tsp.Gateway.Types.{Gateway, find_key, erase_key, store_entry}
use iov_vehicle_tbox_tsp.Gateway.Exchange.{time_out}
use iov_vehicle_tbox_tsp.Gateway.Downlink.{
  RoutedDownlinkEvent, complete, complete_oversize, respond, respond_to, respond_found, by_kind,
  is_own_route, handle_routed_downlink,
}
use iov_vehicle_tbox_tsp.Gateway.Sweep.{
  sweep_entry, sweep_entries, sweep, start_gateway, stop_entry, stop_entries, stop_flags,
  stop_table, stop_clear,
}
use iov_vehicle_tbox_tsp.Gateway.Invariant.{Evolves-refl, IsKept, find-All}
use iov_vehicle_tbox_tsp.Gateway.Steps.{
  Shrinks, Shrinks-refl, Shrinks-trans, relabel-Shrinks, counts-Shrinks, erase-Shrinks,
  store-Shrinks, time_out-Evolves,
}

and_parts : (a b : Bool) → a && b ≡ true → (a ≡ true) × (b ≡ true)
and_parts true b h = (refl, h)
and_parts false b h = cc

is_response_lem : (k : MessageKind) → is_response k ≡ true → k ≡ response
is_response_lem response h = refl
is_response_lem event h = cc
is_response_lem unspecified h = cc
is_response_lem request h = cc
is_response_lem (other n) h = cc

module _ (parse : List ℕ → Option Envelope) where
  -- Either branch of a test.
  branch-Shrinks :
      (b : Bool) (g s t : Gateway)
      → Shrinks parse g s
      → Shrinks parse g t
      → Shrinks parse g (if b then s else t)
  branch-Shrinks true g s t on off = on
  branch-Shrinks false g s t on off = off

  -- A guard that must hold.
  unless-Shrinks :
      (b : Bool) (g s t : Gateway)
      → Shrinks parse g s
      → (b ≡ true → Shrinks parse g t)
      → Shrinks parse g (if not b then s else t)
  unless-Shrinks true g s t off on = on refl
  unless-Shrinks false g s t off on = off

  -- A valid response to an entry of the same message id.
  respond-Shrinks :
      (utc now h : ℕ) (bytes : List ℕ) (g : Gateway)
      → let v = validate_envelope parse g.config.limits utc false bytes in
        v.valid ≡ true
        → v.message_kind ≡ response
        → v.correlation_id ≡ (g.entries h).message_id
        → Shrinks parse g (respond now h v bytes g)
  unfolding respond
  respond-Shrinks utc now h bytes g valid kind same =
      let v = validate_envelope parse g.config.limits utc false bytes in
      let e = g.entries h in
      elim (Bool-cases e.terminal) [
        | inl done ↦ rw done (counts-Shrinks parse _ g)
        | inr active ↦ elim (Bool-cases (text_eq e.service v.service)) [
          | inr differs ↦ rw (active, differs) (counts-Shrinks parse _ g)
          | inl fits ↦ elim (Bool-cases v.expired) [
            | inl expired ↦ rw (active, fits, expired) (counts-Shrinks parse _ g)
            | inr alive ↦ elim (Bool-cases (ltb e.max_response_bytes (length bytes))) [
              | inl over ↦
                  rw (active, fits, alive, over)
                    (Shrinks-trans parse g (store_entry h (complete_oversize now e) g) _
                      (store-Shrinks parse g h (complete_oversize now e) (record {
                        message_id = refl;
                        service = refl;
                        max_response_bytes = refl;
                        end = inr (active, inl refl);
                      }))
                      (counts-Shrinks parse _ (store_entry h (complete_oversize now e) g)))
              | inr small ↦
                  rw (active, fits, alive, small)
                    (store-Shrinks parse g h (complete now bytes e) (record {
                      message_id = refl;
                      service = refl;
                      max_response_bytes = refl;
                      end = inr (
                        active,
                        inr (record {
                          utc = utc;
                          valid = valid;
                          kind = kind;
                          correlation = same;
                          service = sym (eq_of_text_eq e.service v.service fits);
                          size = ground arith;
                        }),
                      );
                    }))
            ]
          ]
        ]
      ]

  respond_to-Shrinks :
      (utc now : ℕ) (found : Option ℕ) (bytes : List ℕ) (g : Gateway)
      → let v = validate_envelope parse g.config.limits utc false bytes in
        v.valid ≡ true
        → v.message_kind ≡ response
        → find_key v.correlation_id g.table ≡ found
        → IsKept g g.table
        → Shrinks parse g (respond_to now found v bytes g)
  unfolding respond_to
  respond_to-Shrinks utc now none bytes g valid kind e kept = counts-Shrinks parse _ g
  respond_to-Shrinks utc now (some h) bytes g valid kind e kept =
      respond-Shrinks utc now h bytes g valid kind (
        sym
          (find-All (λ p. (p.1 < g.next_handle) × ((g.entries p.1).message_id ≡ p.0)) _ g.table h
            kept e).1)

  by_kind-Shrinks :
      (utc now : ℕ) (published : Option Bool) (kind : MessageKind) (bytes : List ℕ) (g : Gateway)
      → let v = validate_envelope parse g.config.limits utc false bytes in
        v.valid ≡ true
        → v.message_kind ≡ kind
        → IsKept g g.table
        → Shrinks parse g (by_kind now published kind v bytes g)
  unfolding by_kind
  by_kind-Shrinks utc now published response bytes g valid e kept =
      respond_to-Shrinks utc now _ bytes g valid e refl kept
  by_kind-Shrinks utc now none event bytes g valid e kept = counts-Shrinks parse _ g
  by_kind-Shrinks utc now (some true) event bytes g valid e kept = counts-Shrinks parse _ g
  by_kind-Shrinks utc now (some false) event bytes g valid e kept = counts-Shrinks parse _ g
  by_kind-Shrinks utc now published unspecified bytes g valid e kept = counts-Shrinks parse _ g
  by_kind-Shrinks utc now published request bytes g valid e kept = counts-Shrinks parse _ g
  by_kind-Shrinks utc now published (other n) bytes g valid e kept = counts-Shrinks parse _ g

  pub downlink-Shrinks :
      (utc now : ℕ) (published : Option Bool) (e : RoutedDownlinkEvent) (g : Gateway)
      → IsKept g g.table
      → Shrinks parse g (handle_routed_downlink parse utc now published e g)
  unfolding handle_routed_downlink
  downlink-Shrinks utc now published e g kept =
      let v = validate_envelope parse g.config.limits utc false e.payload in
      branch-Shrinks g.is_stopping g g _ (Shrinks-refl parse g) (
        unless-Shrinks (is_own_route e) g _ _ (counts-Shrinks parse _ g) (λ own.
          unless-Shrinks v.valid g _ _ (counts-Shrinks parse _ g)
            (λ good. by_kind-Shrinks utc now published v.message_kind e.payload g good refl kept)))

  sweep_entry-Shrinks :
      (now : ℕ) (key : Text) (h : ℕ) (g : Gateway) → Shrinks parse g (sweep_entry now key h g)
  unfolding sweep_entry
  sweep_entry-Shrinks now key h g =
      let e = g.entries h in
      elim (Bool-cases (not e.terminal && leb e.deadline now)) [
        | inl late ↦ rw late (
            Shrinks-trans parse g (store_entry h (time_out now e) g) _
              (store-Shrinks parse g h (time_out now e)
                (time_out-Evolves parse g.config.limits now e (ground arith)))
              (counts-Shrinks parse _ (store_entry h (time_out now e) g)))
        | inr early ↦ elim (Bool-cases (e.terminal && ltb (e.completed_at + 1000) now)) [
          | inl old ↦
              let erased = record g { table = erase_key key g.table } in
              rw (early, old)
                (Shrinks-trans parse g erased _ (erase-Shrinks parse key g)
                  (relabel-Shrinks parse g.counters _ g.running g.is_stopping erased))
          | inr recent ↦ rw (early, recent) (Shrinks-refl parse g)
        ]
      ]

  sweep_entries-Shrinks :
      (in_shard : Text → Bool) (now : ℕ) (table : List (Text × ℕ)) (g : Gateway)
      → Shrinks parse g (sweep_entries in_shard now table g)
  unfolding sweep_entries
  sweep_entries-Shrinks in_shard now [] g = Shrinks-refl parse g
  sweep_entries-Shrinks in_shard now ((key, h) ∷ table) g =
      elim (Bool-cases (in_shard (g.entries h).message_id)) [
        | inl mine ↦ rw mine (
            Shrinks-trans parse g (sweep_entry now key h g) _ (sweep_entry-Shrinks now key h g)
              (sweep_entries-Shrinks in_shard now table (sweep_entry now key h g)))
        | inr others ↦ rw others (sweep_entries-Shrinks in_shard now table g)
      ]

  pub sweep-Shrinks :
      (in_shard : Text → Bool) (now : ℕ) (g : Gateway) → Shrinks parse g (sweep in_shard now g)
  unfolding sweep
  sweep-Shrinks in_shard now g =
      let swept = sweep_entries in_shard now g.table g in
      Shrinks-trans parse g swept _ (sweep_entries-Shrinks in_shard now g.table g)
        (relabel-Shrinks parse swept.counters _ swept.running swept.is_stopping swept)

  pub start-Shrinks : (g : Gateway) → Shrinks parse g (start_gateway g)
  unfolding start_gateway
  start-Shrinks g =
      branch-Shrinks g.running g g _ (Shrinks-refl parse g)
        (relabel-Shrinks parse g.counters g.recent_terminal true false g)

  pub stop_entries-Shrinks :
      (now : ℕ) (table : List (Text × ℕ)) (g : Gateway) → Shrinks parse g (stop_entries now table g)
  unfolding stop_entries
  stop_entries-Shrinks now [] g = Shrinks-refl parse g
  stop_entries-Shrinks now ((key, h) ∷ table) g = elim (Bool-cases (g.entries h).terminal) [
    | inl done ↦ rw done (stop_entries-Shrinks now table g)
    | inr active ↦
        let next = store_entry h (stop_entry now (g.entries h)) g in
        rw active (
          Shrinks-trans parse g next _
            (store-Shrinks parse g h _ (record {
              message_id = refl;
              service = refl;
              max_response_bytes = refl;
              end = inr (active, inl refl);
            }))
            (stop_entries-Shrinks now table next))
  ]

  pub stop_flags-Shrinks : (g : Gateway) → Shrinks parse g (stop_flags g)
  unfolding stop_flags
  stop_flags-Shrinks g = relabel-Shrinks parse g.counters g.recent_terminal false true g

  pub stop_table-Shrinks : (now : ℕ) (g : Gateway) → Shrinks parse g (stop_table now g)
  unfolding stop_table
  stop_table-Shrinks now g = stop_entries-Shrinks now g.table g

  pub stop_clear-Shrinks : (g : Gateway) → Shrinks parse g (stop_clear g)
  unfolding stop_clear
  stop_clear-Shrinks g = record {
    advances = record { config = refl; next_handle = refl; entries = λ h. Evolves-refl parse _ _ };
    kept = λ P all. tt;
    less = omega arith;
  }

  -- The second half of a response whose entry was found before.
  pub found-Shrinks :
      (utc now h : ℕ) (bytes : List ℕ) (g : Gateway)
      → Shrinks parse g (respond_found parse utc now h bytes g)
  unfolding respond_found
  found-Shrinks utc now h bytes g =
      let v = validate_envelope parse g.config.limits utc false bytes in
      elim (Bool-cases (
        v.valid
        && (is_response v.message_kind && text_eq (g.entries h).message_id v.correlation_id))) [
          | inl found ↦
              let both = and_parts v.valid _ found in
              let rest = and_parts (is_response v.message_kind) _ both.1 in
              rw found (
                respond-Shrinks utc now h bytes g both.0 (is_response_lem v.message_kind rest.0)
                  (sym (eq_of_text_eq _ _ rest.1)))
          | inr missed ↦ rw missed (Shrinks-refl parse g)
        ]
