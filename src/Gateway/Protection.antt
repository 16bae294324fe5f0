-- ===== src/Gateway/Protection.antt =====
-- The protection window of an ended exchange.
use iov_vehicle_tbox_tsp.Prelude.{
  ℕ, ◌+◌, ◌<◌, List, [], ◌∷◌, Bool, true, false, not, ◌&&◌, ◌≡◌, refl, ◌∙◌, inl, inr, Option, some,
  Text, text_eq, text_eq_refl, eq_of_text_eq, leb, ltb, length, Bool-cases, arith, if◌then◌else◌,
}
use iov_vehicle_tbox_tsp.Gateway.Envelope.{Envelope, validate_envelope}
use iov_vehicle_tbox_tsp.Gateway.Types.{
  VehicleMessageGatewayConfig, Gateway, find_key, has_key, erase_key, set_key, tombstone_window,
}
use iov_vehicle_tbox_tsp.Gateway.Exchange.{
  is_accepted_outcome, ExchangeRequest, begin_exchange, end_wait, leave, count_completed, finish,
}
use iov_vehicle_tbox_tsp.Gateway.Sweep.{sweep_entry, sweep_entries, purge, sweep}
use iov_vehicle_tbox_tsp.Gateway.Admission.{is_waiting, begin_waits}

-- The id has a tombstone that lasts beyond `t`.
abbrev IsProtected : Text → ℕ → List (Text × ℕ) → Type 0
IsProtected id t table = (until : ℕ) × ((find_key id table ≡ some until) × (t < until))

find_erased :
    (id key : Text) (table : List (Text × ℕ))
    → text_eq id key ≡ false
    → find_key id (erase_key key table) ≡ find_key id table
unfolding find_key erase_key
find_erased id key [] h = refl
find_erased id key ((k, v) ∷ table) h = elim (Bool-cases (text_eq key k)) [
  | inl same ↦ ground (arith, find_erased id key table h, eq_of_text_eq key k same)
  | inr other ↦ ground (arith, find_erased id key table h)
]

set-IsProtected :
    (id key : Text) (t until : ℕ) (table : List (Text × ℕ))
    → t < until
    → IsProtected id t table
    → IsProtected id t (set_key key until table)
unfolding set_key find_key
set-IsProtected id key t until table h p = elim (Bool-cases (text_eq id key)) [
  | inl same ↦ (until, (rw same refl, h))
  | inr other ↦ (p.0, (rw (other, find_erased id key table other) (p.1.0), p.1.1))
]

purge-IsProtected :
    (id : Text) (t until : ℕ) (table : List (Text × ℕ))
    → find_key id table ≡ some until
    → t < until
    → find_key id (purge t table) ≡ some until
unfolding purge find_key
purge-IsProtected id t until [] e h = cc
purge-IsProtected id t until ((k, v) ∷ table) e h =
    ground (arith, purge-IsProtected id t until table)

window_positive : (config : VehicleMessageGatewayConfig) → 0 < tombstone_window config
unfolding tombstone_window
window_positive config = ground arith

sweep_entry-IsProtected :
    (id : Text) (t : ℕ) (key : Text) (h : ℕ) (g : Gateway)
    → IsProtected id t g.recent_terminal
    → IsProtected id t (sweep_entry t key h g).recent_terminal
unfolding sweep_entry
sweep_entry-IsProtected id t key h g p =
    let e = g.entries h in
    elim (Bool-cases (not e.terminal && leb e.deadline t)) [
      | inl late ↦ rw late p
      | inr early ↦ elim (Bool-cases (e.terminal && ltb (e.completed_at + 1000) t)) [
        | inl old ↦
            let w = window_positive g.config in
            rw (early, old)
              (set-IsProtected id e.message_id t (t + tombstone_window g.config) g.recent_terminal
                (omega (arith, w)) p)
        | inr recent ↦ rw (early, recent) p
      ]
    ]

branch-IsProtected :
    (id : Text) (t : ℕ) (b : Bool) (r s : Gateway)
    → IsProtected id t r.recent_terminal
    → IsProtected id t s.recent_terminal
    → IsProtected id t (if b then r else s).recent_terminal
branch-IsProtected id t true r s p q = p
branch-IsProtected id t false r s p q = q

sweep_entries-IsProtected :
    (id : Text) (in_shard : Text → Bool) (t : ℕ) (table : List (Text × ℕ)) (g : Gateway)
    → IsProtected id t g.recent_terminal
    → IsProtected id t (sweep_entries in_shard t table g).recent_terminal
unfolding sweep_entries
sweep_entries-IsProtected id in_shard t [] g p = p
sweep_entries-IsProtected id in_shard t ((key, h) ∷ table) g p =
    let next = if in_shard (g.entries h).message_id then sweep_entry t key h g else g in
    sweep_entries-IsProtected id in_shard t table next (
      branch-IsProtected id t (in_shard (g.entries h).message_id) (sweep_entry t key h g) g
        (sweep_entry-IsProtected id t key h g p) p)

has_of_find :
    (id : Text) (until : ℕ) (table : List (Text × ℕ))
    → find_key id table ≡ some until
    → has_key id table ≡ true
has_of_find id until table e = rw (e, has_key) refl

sweep_protects :
    (id : Text) (in_shard : Text → Bool) (t : ℕ) (g : Gateway)
    → IsProtected id t g.recent_terminal
    → has_key id (sweep in_shard t g).recent_terminal ≡ true
unfolding sweep
sweep_protects id in_shard t g p =
    let q = sweep_entries-IsProtected id in_shard t g.table g p in
    has_of_find id q.0 _ (purge-IsProtected id t q.0 _ q.1.0 q.1.1)

set_found :
    (id : Text) (until : ℕ) (table : List (Text × ℕ))
    → find_key id (set_key id until table) ≡ some until
unfolding set_key find_key
set_found id until table = rw (text_eq_refl id) refl

end_wait_config : (now h : ℕ) (g : Gateway) → (end_wait now h g).config ≡ g.config
unfolding end_wait
end_wait_config now h g = elim (Bool-cases (g.entries h).terminal) [
  | inl done ↦ rw done refl
  | inr active ↦ rw active refl
]

finish_found :
    (now h : ℕ) (id : Text) (g : Gateway)
    → find_key id (finish now h id g).0.recent_terminal ≡ some (now + tombstone_window g.config)
unfolding finish count_completed leave
finish_found now h id g =
    let ended = end_wait now h g in
    elim (Bool-cases (is_accepted_outcome (ended.entries h).outcome)) [
      | inl taken ↦
          rw
            (
              taken,
              set_found id (now + tombstone_window ended.config) ended.recent_terminal,
              end_wait_config now h g,
            )
            refl
      | inr other ↦
          rw
            (
              other,
              set_found id (now + tombstone_window ended.config) ended.recent_terminal,
              end_wait_config now h g,
            )
            refl
    ]

last_refuses : (a b c d e : Bool) → e ≡ true → (a && (b && (c && (d && not e)))) ≡ false
last_refuses a b c d e h = ground arith

-- The message id of an exchange that ended at `now` stays refused: through a sweep at any time t
-- before now plus the protection window, no request with that message id begins to wait.
pub finish_protects :
    (parse : List ℕ → Option Envelope) (now h : ℕ) (id : Text) (g : Gateway)
    (in_shard : Text → Bool) (t utc later : ℕ) (stops : Bool) (req : ExchangeRequest)
    → t < now + tombstone_window g.config
    → let s = sweep in_shard t (finish now h id g).0 in
      (validate_envelope parse s.config.limits utc true req.envelope_bytes).message_id ≡ id
      → is_waiting (begin_exchange parse utc later stops req s).1 ≡ false
finish_protects parse now h id g in_shard t utc later stops req lt same =
    let s = sweep in_shard t (finish now h id g).0 in
    let kept =
      sweep_protects id in_shard t (finish now h id g).0
        (now + tombstone_window g.config, (finish_found now h id g, lt)) in
    let v = validate_envelope parse s.config.limits utc true req.envelope_bytes in
    let used : has_key v.message_id s.recent_terminal ≡ true = rw same kept in
    begin_waits parse utc later stops req s
    ∙ last_refuses (not stops) v.valid (ltb (length s.table) s.config.max_in_flight)
        (not (has_key v.message_id s.table)) (has_key v.message_id s.recent_terminal) used
