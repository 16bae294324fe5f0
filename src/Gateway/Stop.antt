-- ===== src/Gateway/Stop.antt =====
-- Stopping ends every exchange.
use iov_vehicle_tbox_tsp.Prelude.{
  ℕ, ◌==◌, List, [], ◌∷◌, Bool, true, false, ◌≡◌, refl, ◌∙◌, inl, inr, Option, none, Text, All,
  Bool-cases, arith, if◌then◌else◌,
}
use iov_vehicle_tbox_tsp.Gateway.Envelope.{Envelope}
use iov_vehicle_tbox_tsp.Gateway.Types.{Gateway, put_entry, store_entry}
use iov_vehicle_tbox_tsp.Gateway.Sweep.{
  stop_entry, stop_entries, stop_flags, stop_table, stop_clear, stop_gateway,
}
use iov_vehicle_tbox_tsp.Gateway.Arrivals.{stop_entries-Shrinks}
use iov_vehicle_tbox_tsp.Gateway.Runs.{same_end}

abbrev pub AllEnded : Gateway → List (Text × ℕ) → Type 0
AllEnded g = All (λ p. (g.entries p.1).terminal ≡ true)

-- No message is parsed while stopping: the parser does not matter.
abbrev no_parser : List ℕ → Option Envelope
no_parser bytes = none

stays_ended :
    (now : ℕ) (table : List (Text × ℕ)) (g : Gateway) (h : ℕ)
    → (g.entries h).terminal ≡ true
    → ((stop_entries now table g).entries h).terminal ≡ true
stays_ended now table g h done =
    (same_end no_parser g (stop_entries now table g)
      (stop_entries-Shrinks no_parser now table g).advances h done).1.1.0
    ∙ done

put_ends :
    (now h : ℕ) (g : Gateway)
    → (put_entry h (stop_entry now (g.entries h)) g.entries h).terminal ≡ true
unfolding put_entry
put_ends now h g = let same : (h == h) ≡ true = ground arith in rw same refl

on_true :
    (P : Gateway → Type 0) (b : Bool) (s t : Gateway) → b ≡ true → P s → P (if b then s else t)
on_true P true s t e p = p
on_true P false s t e p = cc

on_false :
    (P : Gateway → Type 0) (b : Bool) (s t : Gateway) → b ≡ false → P t → P (if b then s else t)
on_false P true s t e p = cc
on_false P false s t e p = p

next_ends :
    (now h : ℕ) (g : Gateway)
    → ((if (g.entries h).terminal
          then g
          else store_entry h (stop_entry now (g.entries h)) g).entries
        h).terminal
      ≡ true
next_ends now h g = elim (Bool-cases (g.entries h).terminal) [
  | inl done ↦ on_true (λ s. (s.entries h).terminal ≡ true) _ g _ done done
  | inr active ↦ on_false (λ s. (s.entries h).terminal ≡ true) _ g _ active (put_ends now h g)
]

stop_entries_end :
    (now : ℕ) (table : List (Text × ℕ)) (g : Gateway) → AllEnded (stop_entries now table g) table
unfolding stop_entries
stop_entries_end now [] g = tt
stop_entries_end now ((key, h) ∷ table) g =
    let next =
      if (g.entries h).terminal then g else store_entry h (stop_entry now (g.entries h)) g in
    (stays_ended now table next h (next_ends now h g), stop_entries_end now table next)

-- Stopping a running gateway ends every exchange that was in the table and leaves the table empty.
pub stop_ends_all :
    (now : ℕ) (g : Gateway)
    → g.running ≡ true
    → AllEnded (stop_gateway now g) g.table × ((stop_gateway now g).table ≡ [])
unfolding stop_gateway stop_clear stop_table stop_flags
stop_ends_all now g on =
    on_true (λ s. AllEnded s g.table × (s.table ≡ [])) g.running _ g on
      (stop_entries_end now g.table _, refl)
