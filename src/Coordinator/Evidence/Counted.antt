-- ===== src/Coordinator/Evidence/Counted.antt =====
-- Every history keeps the count true, and what the proof of no side effect stands on.
use iov_vehicle_tbox_tsp.Prelude.{
  ℕ, ◌+◌, ◌≤◌, ◌<◌, ◌≡◌, ◌≢◌, ◌⊎◌, inl, inr, refl, sym, subst, List, [], ◌∷◌, Bool, true, false,
  ◌&&◌, Text, ==_iff, ◌==◌, Bool-cases, ℤ, pos, ◌≤ℤ◌, ◌-ℤ◌, u32, ltb, ltb→lt, ◌^◌, arith,
}
use iov_vehicle_tbox_tsp.Coordinator.Classification.{SecImportEvidence}
use iov_vehicle_tbox_tsp.Coordinator.Evidence.{
  EvidenceState, StabilizationConfig, SecCapability, same_attempt, cas_generation_matches,
  count_observation, observe_not_found, update_sec_capability_epoch, take_contract_epoch,
  begin_attempt, is_stabilized, stabilization_window_ms, contrary_local_evidence,
}
use iov_vehicle_tbox_tsp.Coordinator.Evidence.Restart.{and_true, same_attempt-digest}
use iov_vehicle_tbox_tsp.Coordinator.Evidence.Streak.{
  Event, observed, reset, capability_answer, contract_epoch, items_held, new_attempt, take_event,
  after_events, IsOf, Streak, starts, goes_on, drops, answers, reports, holds, IsCounted,
}
use iov_vehicle_tbox_tsp.Coordinator.Evidence.Ready.{IsReady, ready, reset-count}

u32_cases : (n : ℕ) → n < 2 ^ 32 → (u32 (n + 1) ≡ 0) ⊎ ((u32 (n + 1) ≡ n + 1) × (n + 1 < 2 ^ 32))
u32_cases n small = elim (Bool-cases (ltb (n + 1) (2 ^ 32))) [
  | inl less ↦ let l = ltb→lt _ _ less in inr (omega arith, l)
  | inr wraps ↦ inl (ground arith)
]

not_zero : (n : ℕ) → n ≢ 0 → (n == 0) ≡ false
not_zero n h = ground arith

-- An event that leaves the stabilisation as it is and does not end a streak.
IsCounted-map :
    {sha256 : Text → List ℕ} {s : EvidenceState} {es : List Event} (e : Event) (t : EvidenceState)
    → (Streak sha256 s t.stab.request_id_digest t.stab.attempt_generation
          t.stab.sec_capability_epoch es t.stab.consecutive_count t.stab.first_observed_monotonic_ms
        → Streak sha256 s t.stab.request_id_digest t.stab.attempt_generation
            t.stab.sec_capability_epoch
            (e ∷ es)
            t.stab.consecutive_count
            t.stab.first_observed_monotonic_ms)
    → IsCounted sha256 s es t
    → IsCounted sha256 s (e ∷ es) t
IsCounted-map e t extend (small, inl closed) = (small, inl closed)
IsCounted-map e t extend (small, inr streak) = (small, inr (extend streak))

IsCounted-stab :
    {sha256 : Text → List ℕ} {s : EvidenceState} {es : List Event} (t u : EvidenceState)
    → u.stab ≡ t.stab
    → IsCounted sha256 s es t
    → IsCounted sha256 s es u
IsCounted-stab t u same counted = rw same counted

module _ (sha256 : Text → List ℕ) (s : EvidenceState) (es : List Event) (ev : SecImportEvidence)
    (now wall : ℤ) where
  -- Counting from a closed count starts a streak.
  count-starts :
      (v : EvidenceState)
      → v.stab.consecutive_count ≡ 0
      → IsOf sha256 ev.request_id_digest ev.observed_store_generation v.stab.sec_capability_epoch
          (after_events sha256 s es)
          ev
      → IsCounted sha256 s (observed ev now wall ∷ es) (count_observation ev now wall v)
  unfolding count_observation
  count-starts v closed of_attempt = rw closed (omega arith, inr (starts ev now wall of_attempt))

  count-goes_on :
      (v : EvidenceState)
      → IsOf sha256 ev.request_id_digest ev.observed_store_generation v.stab.sec_capability_epoch
          (after_events sha256 s es)
          ev
      → v.stab.consecutive_count < 2 ^ 32
      → v.stab.consecutive_count ≢ 0
      → Streak sha256 s ev.request_id_digest ev.observed_store_generation
          v.stab.sec_capability_epoch es v.stab.consecutive_count v.stab.first_observed_monotonic_ms
      → IsCounted sha256 s (observed ev now wall ∷ es) (count_observation ev now wall v)
  unfolding count_observation
  count-goes_on v of_attempt small opened streak = elim (u32_cases v.stab.consecutive_count small) [
    | inl wraps ↦ rw wraps (omega arith, inl refl)
    | inr more ↦
        rw (more.0, not_zero v.stab.consecutive_count opened)
          (more.1, inr (goes_on ev now wall of_attempt streak))
  ]

  -- An observation of the running attempt.
  accepted-IsOf :
      (t : EvidenceState) (epoch : ℕ)
      → same_attempt sha256 t ev && cas_generation_matches t ev ≡ true
      → epoch ≡ t.current_sec_capability_epoch
      → IsOf sha256 ev.request_id_digest ev.observed_store_generation epoch t ev
  unfolding cas_generation_matches
  accepted-IsOf t epoch accepted same =
      let both = and_true (same_attempt sha256 t ev) _ accepted in
      record {
        named = refl;
        running = same_attempt-digest sha256 t ev both.0;
        observed_generation = refl;
        present_generation = sym ((==_iff _ _).0 both.1);
        present_epoch = sym same;
      }

  bound_to :
      {d d' : List ℕ} {g g' e n : ℕ} {first : ℤ}
      → d ≡ d'
      → g ≡ g'
      → Streak sha256 s d g e es n first
      → Streak sha256 s d' g' e es n first
  bound_to p q streak = rw (sym p, sym q) streak

  count-kept :
      (t : EvidenceState)
      → IsOf sha256 ev.request_id_digest ev.observed_store_generation t.stab.sec_capability_epoch
          (after_events sha256 s es)
          ev
      → t.stab.request_id_digest ≡ ev.request_id_digest
      → t.stab.attempt_generation ≡ ev.observed_store_generation
      → IsCounted sha256 s es t
      → IsCounted sha256 s (observed ev now wall ∷ es) (count_observation ev now wall t)
  count-kept t of_attempt digest generation (small, inl closed) = count-starts t closed of_attempt
  count-kept t of_attempt digest generation (small, inr streak) =
      elim (Bool-cases (t.stab.consecutive_count == 0)) [
        | inl closed ↦ count-starts t ((==_iff _ _).0 closed) of_attempt
        | inr opened ↦
            count-goes_on t of_attempt small (λ closed. let o = opened in ground arith)
              (bound_to digest generation streak)
      ]

  count-IsCounted :
      (v : EvidenceState)
      → IsReady ev (after_events sha256 s es) v
      → same_attempt sha256 (after_events sha256 s es) ev
          && cas_generation_matches (after_events sha256 s es) ev
        ≡ true
      → IsCounted sha256 s es (after_events sha256 s es)
      → IsCounted sha256 s (observed ev now wall ∷ es) (count_observation ev now wall v)
  count-IsCounted v is_ready accepted counted =
      let t = after_events sha256 s es in
      let of_attempt = accepted-IsOf t _ accepted is_ready.epoch in
      elim is_ready.count [
        | inl closed ↦ count-starts v closed of_attempt
        | inr same ↦
            subst
              (λ x.
                IsCounted sha256 s (observed ev now wall ∷ es) (count_observation ev now wall x))
              (sym same.0)
              (count-kept t
                (subst
                  (λ x.
                    IsOf sha256 ev.request_id_digest ev.observed_store_generation
                      x.stab.sec_capability_epoch t ev)
                  same.0 of_attempt)
                same.1.0 same.1.1 counted)
      ]

  observe-IsCounted :
      IsCounted sha256 s es (after_events sha256 s es)
      → IsCounted sha256 s
          (observed ev now wall ∷ es)
          (observe_not_found sha256 ev now wall (after_events sha256 s es))
  unfolding observe_not_found
  observe-IsCounted counted =
      let t = after_events sha256 s es in
      elim (Bool-cases (same_attempt sha256 t ev && cas_generation_matches t ev)) [
        | inl accepted ↦ rw accepted (count-IsCounted _ (ready ev t) accepted counted)
        | inr dropped ↦
            rw dropped (IsCounted-map (observed ev now wall) t (drops ev now wall dropped) counted)
      ]

answer-stab :
    (ok : Bool) (capability : SecCapability) (s : EvidenceState)
    → (update_sec_capability_epoch ok capability s).stab ≡ s.stab
unfolding update_sec_capability_epoch
answer-stab true capability s = refl
answer-stab false capability s = refl

contract_epoch-stab : (e : ℕ) (s : EvidenceState) → (take_contract_epoch e s).stab ≡ s.stab
unfolding take_contract_epoch
contract_epoch-stab e s = ground arith

-- After every history that begins with a closed count, the count is closed or stands for a streak.
pub after_events-IsCounted :
    (sha256 : Text → List ℕ) (s : EvidenceState)
    → s.stab.consecutive_count ≡ 0
    → (es : List Event) → IsCounted sha256 s es (after_events sha256 s es)
unfolding after_events take_event begin_attempt
after_events-IsCounted sha256 s closed [] = rw closed (omega arith, inl refl)
after_events-IsCounted sha256 s closed (observed ev now wall ∷ es) =
    observe-IsCounted sha256 s es ev now wall (after_events-IsCounted sha256 s closed es)
after_events-IsCounted sha256 s closed (reset result ∷ es) =
    let c = reset-count result (after_events sha256 s es) in rw c (omega arith, inl refl)
after_events-IsCounted sha256 s closed (capability_answer ok capability ∷ es) =
    IsCounted-stab (after_events sha256 s es)
      (update_sec_capability_epoch ok capability (after_events sha256 s es))
      (answer-stab ok capability (after_events sha256 s es))
      (IsCounted-map (capability_answer ok capability) (after_events sha256 s es)
        (answers ok capability) (after_events-IsCounted sha256 s closed es))
after_events-IsCounted sha256 s closed (contract_epoch e ∷ es) =
    IsCounted-stab (after_events sha256 s es) (take_contract_epoch e (after_events sha256 s es))
      (contract_epoch-stab e (after_events sha256 s es))
      (IsCounted-map (contract_epoch e) (after_events sha256 s es) (reports e)
        (after_events-IsCounted sha256 s closed es))
after_events-IsCounted sha256 s closed (items_held pending acks ∷ es) =
    IsCounted-map (items_held pending acks) (after_events sha256 s es) (holds pending acks)
      (after_events-IsCounted sha256 s closed es)
after_events-IsCounted sha256 s closed (new_attempt request_id g ∷ es) = (omega arith, inl refl)

-- A streak that is long enough and old enough, and no evidence against it.
pub record IsProvenBy (sha256 : Text → List ℕ) (c : StabilizationConfig) (s : EvidenceState)
    (es : List Event) (now : ℤ) : Type 0 where
  pub digest : List ℕ
  pub generation : ℕ
  pub epoch : ℕ
  pub count : ℕ
  pub first : ℤ
  pub streak : Streak sha256 s digest generation epoch es count first
  pub enough : c.not_found_stabilization_count ≤ count
  pub window : pos (stabilization_window_ms c) ≤ℤ now -ℤ first
  pub uncontested : contrary_local_evidence (after_events sha256 s es) ≡ false

closed_not_stabilized :
    (c : StabilizationConfig) (now : ℤ) (s : EvidenceState)
    → s.stab.consecutive_count ≡ 0
    → 0 < c.not_found_stabilization_count
    → is_stabilized c now s ≢ true
unfolding is_stabilized
closed_not_stabilized c now s zero positive h = ground arith

-- The absence of side effects is taken as proven, in any history that begins with a closed count and
-- with a positive number of observations configured, only behind a streak: the newest events hold at
-- least that number of NOT_FOUND observations, all of one request digest, store generation and
-- epoch of SEC, each made while these were the present ones, with no reset since the first; the first
-- is at least the configured window ago, and no local evidence speaks against it.
pub stabilized_needs_streak :
    (sha256 : Text → List ℕ) (c : StabilizationConfig) (s : EvidenceState) (es : List Event)
    (now : ℤ)
    → s.stab.consecutive_count ≡ 0
    → 0 < c.not_found_stabilization_count
    → is_stabilized c now (after_events sha256 s es) ≡ true
    → IsProvenBy sha256 c s es now
unfolding is_stabilized
stabilized_needs_streak sha256 c s es now closed positive h =
    let t = after_events sha256 s es in
    let counted = after_events-IsCounted sha256 s closed es in
    elim counted.1 [
      | inl zero ↦ absurd (closed_not_stabilized c now t zero positive h)
      | inr streak ↦ record {
        digest = t.stab.request_id_digest;
        generation = t.stab.attempt_generation;
        epoch = t.stab.sec_capability_epoch;
        count = t.stab.consecutive_count;
        first = t.stab.first_observed_monotonic_ms;
        streak = streak;
        enough = ground arith;
        window = ground arith;
        uncontested = ground arith;
      }
    ]
