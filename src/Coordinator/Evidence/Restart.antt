-- ===== src/Coordinator/Evidence/Restart.antt =====
-- A stabilisation that a restart interrupts: what `initialize` restores, and the observations after it.
use iov_vehicle_tbox_tsp.Prelude.{
  ℕ, sym, ◌∙◌, ◌+◌, ◌<◌, ◌≡◌, ◌≢◌, refl, List, [], ◌∷◌, Bool, true, false, ◌&&◌, Text, text_eq_iff,
  ==_iff, Bool-cases, ap, if◌then◌else◌, inl, inr, ◌==◌, ◌≤◌, ◌^◌, ℤ, negsuc, length, arith,
}
use iov_vehicle_tbox_tsp.Protocol.Encode.Built.{is_empty_iff}
use iov_vehicle_tbox_tsp.KeyStore.Record.{V2cKeyProvisioningRecord}
use iov_vehicle_tbox_tsp.Coordinator.Classification.{SecImportEvidence}
use iov_vehicle_tbox_tsp.Coordinator.Evidence.{
  EvidenceState, StabilizationConfig, same_attempt, cas_generation_matches, SecCapability,
  update_sec_capability_epoch, take_contract_epoch, restored_evidence, restored_stabilization,
  next_epoch, restart_on_epoch, reset_on_attempt, count_observation, observe_not_found,
  is_stabilized,
}

-- A stored stabilisation of this attempt, with an open count but no start of its window.
pub record IsInterrupted (sha256 : Text → List ℕ) (s : EvidenceState) : Type 0 where
  pub counting : 0 < s.stab.consecutive_count
  pub window : s.stab.first_observed_monotonic_ms ≡ negsuc 0
  pub digest : sha256 s.request_id ≡ s.stab.request_id_digest
  pub generation : s.store_generation ≡ s.stab.attempt_generation
  pub epoch : s.stab.sec_capability_epoch ≡ s.current_sec_capability_epoch
  pub epoch_known : s.stab.sec_capability_epoch ≢ 0

pub record Observation : Type 0 where
  pub evidence : SecImportEvidence
  pub monotonic_ms : ℤ
  pub wall_ms : ℤ

-- The observations in their order.
unfoldable pub observe_all : (Text → List ℕ) → List Observation → EvidenceState → EvidenceState
observe_all sha256 [] s = s
observe_all sha256 (o ∷ os) s =
    observe_all sha256 os (observe_not_found sha256 o.evidence o.monotonic_ms o.wall_ms s)

pub same_attempt-digest :
    (sha256 : Text → List ℕ) (s : EvidenceState) (ev : SecImportEvidence)
    → same_attempt sha256 s ev ≡ true
    → sha256 s.request_id ≡ ev.request_id_digest
unfolding same_attempt
same_attempt-digest sha256 s ev h =
    ground (arith, text_eq_iff (sha256 s.request_id) ev.request_id_digest)

restart_on_epoch-interrupted :
    (sha256 : Text → List ℕ) (s : EvidenceState) (ev : SecImportEvidence)
    → IsInterrupted sha256 s
    → restart_on_epoch ev s ≡ s
unfolding restart_on_epoch
restart_on_epoch-interrupted sha256 s ev h =
    let e = h.epoch in let k = h.epoch_known in ground arith

reset_on_attempt-same :
    (s : EvidenceState) (ev : SecImportEvidence)
    → s.stab.request_id_digest ≡ ev.request_id_digest
    → s.stab.attempt_generation ≡ ev.observed_store_generation
    → reset_on_attempt ev s ≡ s
unfolding reset_on_attempt
reset_on_attempt-same s ev d g =
    ground (arith, text_eq_iff s.stab.request_id_digest ev.request_id_digest)

pub and_true : (a b : Bool) → a && b ≡ true → (a ≡ true) × (b ≡ true)
and_true true b h = (refl, h)
and_true false b h = cc

-- An observation of this attempt is only counted: its window stays without a start.
observe-interrupted :
    (sha256 : Text → List ℕ) (s : EvidenceState) (ev : SecImportEvidence) (now wall : ℤ)
    → IsInterrupted sha256 s
    → same_attempt sha256 s ev && cas_generation_matches s ev ≡ true
    → observe_not_found sha256 ev now wall s ≡ count_observation ev now wall s
unfolding observe_not_found cas_generation_matches
observe-interrupted sha256 s ev now wall h accepted =
    let both = and_true (same_attempt sha256 s ev) _ accepted in
    let d = sym h.digest ∙ same_attempt-digest sha256 s ev both.0 in
    let g = sym h.generation ∙ sym ((==_iff _ _).0 both.1) in
    rw (accepted, restart_on_epoch-interrupted sha256 s ev h, reset_on_attempt-same s ev d g) refl

IsInterrupted-count :
    (sha256 : Text → List ℕ) (s : EvidenceState) (ev : SecImportEvidence) (now wall : ℤ)
    → IsInterrupted sha256 s
    → s.stab.consecutive_count + 1 < 2 ^ 32
    → sha256 s.request_id ≡ ev.request_id_digest
    → ev.observed_store_generation ≡ s.store_generation
    → IsInterrupted sha256 (count_observation ev now wall s)
unfolding count_observation
IsInterrupted-count sha256 s ev now wall h small d g =
    let c = h.counting in
    let w = h.window in
    record {
      counting = ground arith;
      window = ground arith;
      digest = d;
      generation = sym g;
      epoch = h.epoch;
      epoch_known = h.epoch_known;
    }

count_observation-count :
    (ev : SecImportEvidence) (now wall : ℤ) (s : EvidenceState)
    → (count_observation ev now wall s).stab.consecutive_count ≤ s.stab.consecutive_count + 1
unfolding count_observation
count_observation-count ev now wall s = omega arith

pub observe-dropped :
    (sha256 : Text → List ℕ) (s : EvidenceState) (ev : SecImportEvidence) (now wall : ℤ)
    → same_attempt sha256 s ev && cas_generation_matches s ev ≡ false
    → observe_not_found sha256 ev now wall s ≡ s
unfolding observe_not_found
observe-dropped sha256 s ev now wall dropped = rw dropped refl

pub IsInterrupted-observe :
    (sha256 : Text → List ℕ) (s : EvidenceState) (ev : SecImportEvidence) (now wall : ℤ)
    → IsInterrupted sha256 s
    → s.stab.consecutive_count + 1 < 2 ^ 32
    → IsInterrupted sha256 (observe_not_found sha256 ev now wall s)
      × ((observe_not_found sha256 ev now wall s).stab.consecutive_count
          ≤ s.stab.consecutive_count + 1)
unfolding cas_generation_matches
IsInterrupted-observe sha256 s ev now wall h small =
    elim (Bool-cases (same_attempt sha256 s ev && cas_generation_matches s ev)) [
      | inl accepted ↦
          let both = and_true (same_attempt sha256 s ev) _ accepted in
          rw (observe-interrupted sha256 s ev now wall h accepted) (
            IsInterrupted-count sha256 s ev now wall h small
                (same_attempt-digest sha256 s ev both.0) ((==_iff _ _).0 both.1),
            count_observation-count ev now wall s,
          )
      | inr dropped ↦ rw (observe-dropped sha256 s ev now wall dropped) (h, omega arith)
    ]

IsInterrupted-not_stabilized :
    (sha256 : Text → List ℕ) (c : StabilizationConfig) (now : ℤ) (s : EvidenceState)
    → IsInterrupted sha256 s
    → is_stabilized c now s ≡ false
unfolding is_stabilized
IsInterrupted-not_stabilized sha256 c now s h = let w = h.window in ground arith

interrupted_never_stabilized :
    (sha256 : Text → List ℕ) (c : StabilizationConfig) (now : ℤ) (os : List Observation)
    (s : EvidenceState)
    → IsInterrupted sha256 s
    → s.stab.consecutive_count + length os < 2 ^ 32
    → is_stabilized c now (observe_all sha256 os s) ≡ false
unfolding observe_all
interrupted_never_stabilized sha256 c now [] s h small =
    IsInterrupted-not_stabilized sha256 c now s h
interrupted_never_stabilized sha256 c now (o ∷ os) s h small =
    let next = IsInterrupted-observe sha256 s o.evidence o.monotonic_ms o.wall_ms h (omega arith) in
    interrupted_never_stabilized sha256 c now os _ next.0 (let bound = next.1 in omega arith)

-- The epoch after the first answer of SEC: its own one, or 1 where it has none.
unfoldable pub epoch_after_restart : ℕ → ℕ
epoch_after_restart epoch = if epoch == 0 then 1 else epoch

-- A state as `initialize` leaves it, whose epoch is the stored one.
IsInterrupted-epoch :
    (sha256 : Text → List ℕ) (r : V2cKeyProvisioningRecord) (s : EvidenceState)
    → s.stab ≡ restored_stabilization sha256 r
    → s.request_id ≡ r.request_id
    → s.store_generation ≡ r.store_generation
    → r.request_id ≢ []
    → 0 < r.recovery.sec_not_found_count
    → r.recovery.sec_capability_epoch ≡ s.current_sec_capability_epoch
    → s.current_sec_capability_epoch ≢ 0
    → IsInterrupted sha256 s
unfolding restored_stabilization
IsInterrupted-epoch sha256 r s stab rid gen named counting epoch known = record {
  counting = rw stab counting;
  window = rw stab refl;
  digest = rw (stab, rid, (is_empty_iff r.request_id).1 named) refl;
  generation = rw stab gen;
  epoch = rw stab epoch;
  epoch_known = λ zero. known (sym epoch ∙ (sym (ap (λ t. t.sec_capability_epoch) stab) ∙ zero));
}

one_not_zero : (n : ℕ) → n ≡ 1 → n ≢ 0
one_not_zero n e zero = omega arith

first_epoch :
    (sha256 : Text → List ℕ) (r : V2cKeyProvisioningRecord) (capability : SecCapability)
    → (update_sec_capability_epoch true capability
        (restored_evidence sha256 r)).current_sec_capability_epoch
      ≡ 1
unfolding update_sec_capability_epoch restored_evidence next_epoch
first_epoch sha256 r capability = ground arith

IsInterrupted-restored :
    (sha256 : Text → List ℕ) (r : V2cKeyProvisioningRecord) (capability : SecCapability) (epoch : ℕ)
    → r.request_id ≢ []
    → 0 < r.recovery.sec_not_found_count
    → r.recovery.sec_capability_epoch ≡ epoch_after_restart epoch
    → IsInterrupted sha256 (
        take_contract_epoch epoch
          (update_sec_capability_epoch true capability (restored_evidence sha256 r)))
unfolding take_contract_epoch epoch_after_restart update_sec_capability_epoch restored_evidence
IsInterrupted-restored sha256 r capability epoch named counting stored =
    elim (Bool-cases (epoch == 0)) [
      | inl none ↦ rw none (
          IsInterrupted-epoch sha256 r _ refl refl refl named counting
            ((ground arith) ∙ sym (first_epoch sha256 r capability))
            (one_not_zero _ (first_epoch sha256 r capability)))
      | inr own ↦ rw own (
          IsInterrupted-epoch sha256 r _ refl refl refl named counting (ground arith)
            (ground arith))
    ]

restored_count :
    (sha256 : Text → List ℕ) (r : V2cKeyProvisioningRecord) (capability : SecCapability) (epoch : ℕ)
    → (take_contract_epoch epoch (
        update_sec_capability_epoch true capability
          (restored_evidence sha256 r))).stab.consecutive_count
      ≡ r.recovery.sec_not_found_count
unfolding take_contract_epoch update_sec_capability_epoch restored_evidence restored_stabilization
restored_count sha256 r capability epoch = ground arith

-- A restart whose record holds an open count of NOT_FOUND observations, under the epoch that SEC
-- reports again after the restart (its own, or 1 where it reports none), leaves the stabilisation
-- without a start of its window. However many observations follow under that epoch, and at whatever
-- times, short of an overflow of the 32-bit count, the condition for a proof of no side effect is
-- never met.
pub restored_never_stabilized :
    (sha256 : Text → List ℕ) (r : V2cKeyProvisioningRecord) (capability : SecCapability) (epoch : ℕ)
    (c : StabilizationConfig) (now : ℤ) (os : List Observation)
    → r.request_id ≢ []
    → 0 < r.recovery.sec_not_found_count
    → r.recovery.sec_capability_epoch ≡ epoch_after_restart epoch
    → r.recovery.sec_not_found_count + length os < 2 ^ 32
    → is_stabilized c now (
        observe_all sha256 os (
          take_contract_epoch epoch
            (update_sec_capability_epoch true capability (restored_evidence sha256 r))))
      ≡ false
restored_never_stabilized sha256 r capability epoch c now os named counting stored small =
    interrupted_never_stabilized sha256 c now os _
      (IsInterrupted-restored sha256 r capability epoch named counting stored)
      (rw (restored_count sha256 r capability epoch) small)
