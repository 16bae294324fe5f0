-- ===== src/Coordinator/Evidence/Streak.antt =====
-- What an open count of NOT_FOUND observations stands for, over every history of observations, resets,
-- answers of SEC on its capability, and new attempts.
use iov_vehicle_tbox_tsp.Prelude.{
  ℕ, ◌+◌, ◌<◌, ◌≡◌, ◌⊎◌, List, [], ◌∷◌, Bool, false, ◌&&◌, Text, ℤ, ◌^◌,
}
use iov_vehicle_tbox_tsp.Coordinator.Classification.{SecImportEvidence}
use iov_vehicle_tbox_tsp.Coordinator.Evidence.{
  EvidenceState, SecCapability, same_attempt, cas_generation_matches, observe_not_found,
  reset_not_found_stabilization, update_sec_capability_epoch, take_contract_epoch, begin_attempt,
}

-- An event, as the coordinator takes it up: a strong NOT_FOUND with the two clocks, a reset with its
-- result, an answer of SEC on its capability, an epoch of SEC's own, a
-- change of the items held, a new attempt.
pub data Event : Type 0 where
  observed : SecImportEvidence → ℤ → ℤ → Event
  reset : Text → Event
  capability_answer : Bool → SecCapability → Event
  contract_epoch : ℕ → Event
  items_held : Bool → Bool → Event
  new_attempt : Text → ℕ → Event

unfoldable pub take_event : (Text → List ℕ) → Event → EvidenceState → EvidenceState
take_event sha256 (observed ev now wall) s = observe_not_found sha256 ev now wall s
take_event sha256 (reset result) s = reset_not_found_stabilization result s
take_event sha256 (capability_answer ok capability) s = update_sec_capability_epoch ok capability s
take_event sha256 (contract_epoch epoch) s = take_contract_epoch epoch s
take_event sha256 (items_held pending acks) s = record s {
  has_pending_items = pending;
  has_ack_items = acks;
}
take_event sha256 (new_attempt request_id generation) s = begin_attempt request_id generation s

-- A history, newest event first, over the state before it.
unfoldable pub after_events : (Text → List ℕ) → EvidenceState → List Event → EvidenceState
after_events sha256 s [] = s
after_events sha256 s (e ∷ es) = take_event sha256 e (after_events sha256 s es)

-- The observation is one of the running attempt and store generation, and names both; SEC's epoch is
-- the given one.
pub record IsOf (sha256 : Text → List ℕ) (digest : List ℕ) (generation epoch : ℕ)
    (s : EvidenceState) (ev : SecImportEvidence) : Type 0 where
  pub named : ev.request_id_digest ≡ digest
  pub running : sha256 s.request_id ≡ digest
  pub observed_generation : ev.observed_store_generation ≡ generation
  pub present_generation : s.store_generation ≡ generation
  pub present_epoch : s.current_sec_capability_epoch ≡ epoch

-- `Streak … es n first`: the newest events of the history hold `n` observations of the same request,
-- generation and epoch, the first of them at `first`, and no reset since.
pub data Streak (sha256 : Text → List ℕ) (s : EvidenceState) (digest : List ℕ)
    (generation epoch : ℕ) : List Event → ℕ → ℤ → Type 0 where
  starts :
      {es : List Event} (ev : SecImportEvidence) (now wall : ℤ)
      → IsOf sha256 digest generation epoch (after_events sha256 s es) ev
      → Streak sha256 s digest generation epoch (observed ev now wall ∷ es) 1 now
  goes_on :
      {es : List Event} {n : ℕ} {first : ℤ} (ev : SecImportEvidence) (now wall : ℤ)
      → IsOf sha256 digest generation epoch (after_events sha256 s es) ev
      → Streak sha256 s digest generation epoch es n first
      → Streak sha256 s digest generation epoch (observed ev now wall ∷ es) (n + 1) first
  drops :
      {es : List Event} {n : ℕ} {first : ℤ} (ev : SecImportEvidence) (now wall : ℤ)
      → same_attempt sha256 (after_events sha256 s es) ev
          && cas_generation_matches (after_events sha256 s es) ev
        ≡ false
      → Streak sha256 s digest generation epoch es n first
      → Streak sha256 s digest generation epoch (observed ev now wall ∷ es) n first
  answers :
      {es : List Event} {n : ℕ} {first : ℤ} (ok : Bool) (capability : SecCapability)
      → Streak sha256 s digest generation epoch es n first
      → Streak sha256 s digest generation epoch (capability_answer ok capability ∷ es) n first
  reports :
      {es : List Event} {n : ℕ} {first : ℤ} (e : ℕ)
      → Streak sha256 s digest generation epoch es n first
      → Streak sha256 s digest generation epoch (contract_epoch e ∷ es) n first
  holds :
      {es : List Event} {n : ℕ} {first : ℤ} (pending acks : Bool)
      → Streak sha256 s digest generation epoch es n first
      → Streak sha256 s digest generation epoch (items_held pending acks ∷ es) n first

-- Nothing counted, or a streak of the bound request, generation and epoch behind the count.
abbrev pub IsCounted : (Text → List ℕ) → EvidenceState → List Event → EvidenceState → Type 0
IsCounted sha256 s es t =
    (t.stab.consecutive_count < 2 ^ 32)
    × ((t.stab.consecutive_count ≡ 0)
        ⊎ Streak sha256 s t.stab.request_id_digest t.stab.attempt_generation
            t.stab.sec_capability_epoch es t.stab.consecutive_count
            t.stab.first_observed_monotonic_ms)
