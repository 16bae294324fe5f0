-- ===== src/Gateway/Steps.antt =====
-- Each operation of the gateway keeps it sound.
use iov_vehicle_tbox_tsp.Prelude.{
  ℕ, ◌≤◌, List, Bool, true, false, ◌≡◌, refl, ◌∙◌, inl, inr, Option, Text, length, All, Bool-cases,
  arith,
}
use iov_vehicle_tbox_tsp.Gateway.Envelope.{TransportOutcome, Envelope, VehicleMessageLimits}
use iov_vehicle_tbox_tsp.Gateway.Types.{
  CorrelationEntry, TransportCounters, Gateway, count, erase_key, store_entry,
}
use iov_vehicle_tbox_tsp.Gateway.Exchange.{
  is_accepted_outcome, time_out, end_wait, leave, count_completed, finish, after_publish,
  MqttPublishResult,
}
use iov_vehicle_tbox_tsp.Gateway.Invariant.{
  Evolves, Evolves-refl, Evolves-trans, put_relates, IsSound, Advances, erase-All, length-erase_key,
  Advances-IsSound,
}

-- A step that adds no entry to the table or the store.
pub record Shrinks (parse : List ℕ → Option Envelope) (g s : Gateway) : Type 1 where
  pub advances : Advances parse g s
  pub kept : (P : Text × ℕ → Type 0) → All P g.table → All P s.table
  pub less : length s.table ≤ length g.table

module _ (parse : List ℕ → Option Envelope) where
  pub Shrinks-IsSound : (g s : Gateway) → Shrinks parse g s → IsSound parse g → IsSound parse s
  Shrinks-IsSound g s a h = Advances-IsSound parse g s a.advances h (a.kept _ h.table) a.less

  pub Shrinks-refl : (g : Gateway) → Shrinks parse g g
  Shrinks-refl g = record {
    advances = record { config = refl; next_handle = refl; entries = λ h. Evolves-refl parse _ _ };
    kept = λ P all. all;
    less = omega arith;
  }

  -- One entry that ends, when its table stays.
  pub store-Shrinks :
      (g : Gateway) (h : ℕ) (e : CorrelationEntry)
      → Evolves parse g.config.limits (g.entries h) e
      → Shrinks parse g (store_entry h e g)
  store-Shrinks g h e r = record {
    advances = record {
      config = refl;
      next_handle = refl;
      entries = put_relates parse g.config.limits h e g.entries r;
    };
    kept = λ P all. all;
    less = omega arith;
  }

  pub time_out-Evolves :
      (limits : VehicleMessageLimits) (now : ℕ) (e : CorrelationEntry)
      → e.terminal ≡ false
      → Evolves parse limits e (time_out now e)
  time_out-Evolves limits now e active = record {
    message_id = refl;
    service = refl;
    max_response_bytes = refl;
    end = inr (
      active,
      inl (elim (Bool-cases e.mqtt_accepted) [
        | inl taken ↦ rw taken refl
        | inr not_taken ↦ rw not_taken refl
      ]),
    );
  }

  end_wait-Shrinks : (now h : ℕ) (g : Gateway) → Shrinks parse g (end_wait now h g)
  unfolding end_wait
  end_wait-Shrinks now h g = elim (Bool-cases (g.entries h).terminal) [
    | inl done ↦ rw done (Shrinks-refl g)
    | inr active ↦
        let r =
          store-Shrinks g h (time_out now (g.entries h))
            (time_out-Evolves g.config.limits now (g.entries h) active) in
        rw active (record {
          advances = record { config = refl; next_handle = refl; entries = r.advances.entries };
          kept = λ P all. all;
          less = omega arith;
        })
  ]

  pub Shrinks-trans : (g s t : Gateway) → Shrinks parse g s → Shrinks parse s t → Shrinks parse g t
  Shrinks-trans g s t a b = record {
    advances = record {
      config = b.advances.config ∙ a.advances.config;
      next_handle = b.advances.next_handle ∙ a.advances.next_handle;
      entries = λ h.
          Evolves-trans parse g.config.limits _ _ _ (a.advances.entries h)
            (rw⁻¹ (a.advances.config) (b.advances.entries h));
    };
    kept = λ P all. b.kept P (a.kept P all);
    less = omega (arith, a.less, b.less);
  }

  pub relabel-Shrinks :
      (c : TransportCounters) (recent : List (Text × ℕ)) (running is_stopping : Bool) (g : Gateway)
      → Shrinks parse g (record g {
        counters = c;
        recent_terminal = recent;
        running = running;
        is_stopping = is_stopping;
      })
  relabel-Shrinks c recent running is_stopping g = record {
    advances = record { config = refl; next_handle = refl; entries = λ h. Evolves-refl parse _ _ };
    kept = λ P all. all;
    less = omega arith;
  }

  pub counts-Shrinks :
      (c : TransportCounters) (g : Gateway) → Shrinks parse g (record g { counters = c })
  counts-Shrinks c g = relabel-Shrinks c g.recent_terminal g.running g.is_stopping g

  pub erase-Shrinks :
      (key : Text) (g : Gateway) → Shrinks parse g (record g { table = erase_key key g.table })
  erase-Shrinks key g = record {
    advances = record { config = refl; next_handle = refl; entries = λ h. Evolves-refl parse _ _ };
    kept = λ P all. erase-All P key g.table all;
    less = length-erase_key key g.table;
  }

  leave-Shrinks : (now : ℕ) (id : Text) (g : Gateway) → Shrinks parse g (leave now id g)
  unfolding leave
  leave-Shrinks now id g =
      let erased = record g { table = erase_key id g.table } in
      Shrinks-trans g erased _ (erase-Shrinks id g)
        (relabel-Shrinks g.counters _ g.running g.is_stopping erased)

  count_completed-Shrinks :
      (o : TransportOutcome) (g : Gateway) → Shrinks parse g (count_completed o g)
  unfolding count_completed
  count_completed-Shrinks o g = elim (Bool-cases (is_accepted_outcome o)) [
    | inl taken ↦ rw taken (counts-Shrinks _ g)
    | inr failed ↦ rw failed (Shrinks-refl g)
  ]

  pub finish-Shrinks : (now h : ℕ) (id : Text) (g : Gateway) → Shrinks parse g (finish now h id g).0
  unfolding finish
  finish-Shrinks now h id g =
      let ended = end_wait now h g in
      Shrinks-trans g ended _ (end_wait-Shrinks now h g) (
        Shrinks-trans ended (leave now id ended) _ (leave-Shrinks now id ended)
          (count_completed-Shrinks _ (leave now id ended)))

  mark-Evolves :
      (limits : VehicleMessageLimits) (e : CorrelationEntry)
      → Evolves parse limits e (record e { mqtt_accepted = true })
  mark-Evolves limits e = record {
    message_id = refl;
    service = refl;
    max_response_bytes = refl;
    end = inl (refl, (refl, (refl, refl)));
  }

  pub after_publish-Shrinks :
      (h : ℕ) (id : Text) (pr : MqttPublishResult) (g : Gateway)
      → Shrinks parse g (after_publish h id pr g).0
  unfolding after_publish
  after_publish-Shrinks h id pr g =
      let counted = record g {
        counters = record (g.counters) { request_published = count g.counters.request_published };
      } in
      elim (Bool-cases pr.accepted) [
        | inl taken ↦ rw taken (
            Shrinks-trans g counted _ (counts-Shrinks _ g)
              (store-Shrinks counted h _ (mark-Evolves g.config.limits (g.entries h))))
        | inr failed ↦
            rw failed (Shrinks-trans g counted _ (counts-Shrinks _ g) (erase-Shrinks id counted))
      ]
