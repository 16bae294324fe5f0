-- ===== src/Gateway/Sweep.antt =====
-- One pass of `sweeper_loop` for one shard, and `start` and `stop`. Which ids belong to the shard, by
-- `std::hash`, is a parameter. The pass holds `table_mutex_`, so it is one step.
use iov_vehicle_tbox_tsp.Prelude.{
  ℕ, ◌+◌, List, [], ◌∷◌, Bool, true, false, not, ◌&&◌, Text, ltb, leb, if◌then◌else◌,
}
use iov_vehicle_tbox_tsp.Gateway.Envelope.{stopping}
use iov_vehicle_tbox_tsp.Gateway.Types.{
  CorrelationEntry, Gateway, count, erase_key, set_key, store_entry, tombstone_window,
}
use iov_vehicle_tbox_tsp.Gateway.Exchange.{time_out}

-- One entry of the table, with its key.
unfoldable pub sweep_entry : ℕ → Text → ℕ → Gateway → Gateway
sweep_entry now key h g =
    let e = g.entries h in
    if not e.terminal && leb e.deadline now
    then record (store_entry h (time_out now e) g) {
      counters = record (g.counters) { exchange_timeout = count g.counters.exchange_timeout };
    }
    else if e.terminal && ltb (e.completed_at + 1000) now
    then record g {
      recent_terminal = set_key e.message_id (now + tombstone_window g.config) g.recent_terminal;
      table = erase_key key g.table;
    }
    else g

unfoldable pub sweep_entries : (Text → Bool) → ℕ → List (Text × ℕ) → Gateway → Gateway
sweep_entries in_shard now [] g = g
sweep_entries in_shard now ((key, h) ∷ rest) g =
    let next = if in_shard (g.entries h).message_id then sweep_entry now key h g else g in
    sweep_entries in_shard now rest next

-- Tombstones whose time has come.
unfoldable pub purge : ℕ → List (Text × ℕ) → List (Text × ℕ)
purge now [] = []
purge now ((key, until) ∷ table) =
    let rest = purge now table in if leb until now then rest else (key, until) ∷ rest

unfoldable pub sweep : (Text → Bool) → ℕ → Gateway → Gateway
sweep in_shard now g =
    let swept = sweep_entries in_shard now g.table g in
    record swept { recent_terminal = purge now swept.recent_terminal }

unfoldable pub start_gateway : Gateway → Gateway
start_gateway g = if g.running then g else record g { running = true; is_stopping = false }

abbrev pub stop_entry : ℕ → CorrelationEntry → CorrelationEntry
stop_entry now e = record e { outcome = stopping; terminal = true; completed_at = now }

unfoldable pub stop_entries : ℕ → List (Text × ℕ) → Gateway → Gateway
stop_entries now [] g = g
stop_entries now ((key, h) ∷ rest) g =
    let next =
      if (g.entries h).terminal then g else store_entry h (stop_entry now (g.entries h)) g in
    stop_entries now rest next

-- `stop` of a running gateway, in three steps: the flags; under the lock, every exchange in the table
-- ends; and, under the lock again after the workers are joined, both tables are cleared.
unfoldable pub stop_flags : Gateway → Gateway
stop_flags g = record g { running = false; is_stopping = true }

unfoldable pub stop_table : ℕ → Gateway → Gateway
stop_table now g = stop_entries now g.table g

unfoldable pub stop_clear : Gateway → Gateway
stop_clear g = record g { table = []; recent_terminal = [] }

-- `stop` where no other thread comes between.
unfoldable pub stop_gateway : ℕ → Gateway → Gateway
stop_gateway now g = if g.running then stop_clear (stop_table now (stop_flags g)) else g
