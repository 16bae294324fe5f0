-- ===== src/Coordinator/Session/Bound.antt =====
-- Every history of readiness events and gate checks, and the identity that the coordinator then holds.
use iov_vehicle_tbox_tsp.Prelude.{
  ◌≡◌, ◌⊎◌, inl, inr, refl, sym, ◌∙◌, List, [], ◌∷◌, Bool, true, false, not, Option, none, some,
  Text, text_eq, text_eq_iff, Bool-cases, if◌then◌else◌, leb, arith,
}
use iov_vehicle_tbox_tsp.Protocol.Identity.{MqttSessionContext, keyprov_validate_identity}
use iov_vehicle_tbox_tsp.Coordinator.Readiness.{
  CloudReadiness, CapabilityReadiness, KeyprovReadiness, capability_keyprov, all_ready,
  mqtt_publish_session_contract_version,
}
use iov_vehicle_tbox_tsp.Coordinator.Session.{
  SessionState, no_identity, invalidate_identity, is_epoch_changed, is_stale, ends_identity,
  take_cloud, apply_cloud_readiness, apply_capability_readiness, identity_of, shut_reason,
  form_identity, pass_gate, gate_refreshed, capability_gate,
}

-- The identity is that of the present session, and complete, or it was cleared by a gate that found
-- the daemon's identity incomplete.
pub record IsPresent (s : SessionState) : Type 0 where
  pub cloud_ready : s.cloud.cloud_ready ≡ true
  pub capability_ready : s.capability.ready ≡ true
  pub identity :
      (s.identity ≡ no_identity)
      ⊎ ((s.identity.session ≡ s.cloud.session) × (keyprov_validate_identity s.identity ≡ none))

-- An identity marked valid belongs to the present session.
abbrev pub IsBound : SessionState → Type 0
IsBound s = s.identity_valid ≡ true → IsPresent s

pub data SessionEvent : Type 0 where
  cloud_event : CloudReadiness → SessionEvent
  capability_event : CapabilityReadiness → SessionEvent
  gate_check : Bool → Bool → KeyprovReadiness → SessionEvent

unfoldable pub take_session_event : SessionEvent → SessionState → SessionState
take_session_event (cloud_event r) s = apply_cloud_readiness r s
take_session_event (capability_event r) s = apply_capability_readiness r s
take_session_event (gate_check enabled stopping fresh) s =
    (capability_gate enabled stopping fresh s).1

-- The events in their order.
unfoldable pub take_session_events : List SessionEvent → SessionState → SessionState
take_session_events [] s = s
take_session_events (e ∷ es) s = take_session_events es (take_session_event e s)

session_eq :
    (a b : MqttSessionContext)
    → a.daemon_epoch ≡ b.daemon_epoch
    → a.connection_generation ≡ b.connection_generation
    → a.cert_session_generation ≡ b.cert_session_generation
    → a ≡ b
session_eq a b p q r =
    λ i. record { daemon_epoch = p i; connection_generation = q i; cert_session_generation = r i }

-- A taken event that keeps the identity has the session of the one before it, and the cloud is ready.
kept-session :
    (r : CloudReadiness) (s : SessionState)
    → ends_identity r s ≡ false
    → (r.session ≡ s.cloud.session) × (r.cloud_ready ≡ true)
unfolding ends_identity is_epoch_changed
kept-session r s h = (
  session_eq r.session s.cloud.session
      (let t = text_eq_iff r.session.daemon_epoch s.cloud.session.daemon_epoch in ground arith)
      (ground arith) (ground arith),
  ground arith,
)

take_cloud-IsBound :
    (r : CloudReadiness) (s : SessionState)
    → ends_identity r s ≡ false
    → IsBound s
    → IsBound (take_cloud r s)
unfolding take_cloud
take_cloud-IsBound r s h bound valid =
    let b = bound valid in
    let k = kept-session r s h in
    record {
      cloud_ready = k.1;
      capability_ready = b.capability_ready;
      identity = elim b.identity [
        | inl cleared ↦ inl cleared
        | inr same ↦ inr (same.0 ∙ sym k.0, same.1)
      ];
    }

invalidate-IsBound : (s : SessionState) → IsBound (invalidate_identity s)
unfolding invalidate_identity
invalidate-IsBound s valid = cc

if-IsBound :
    (b : Bool) (t u : SessionState)
    → (b ≡ true → IsBound t)
    → (b ≡ false → IsBound u)
    → IsBound (if b then t else u)
if-IsBound true t u h k = h refl
if-IsBound false t u h k = k refl

cloud-IsBound :
    (r : CloudReadiness) (s : SessionState) → IsBound s → IsBound (apply_cloud_readiness r s)
unfolding apply_cloud_readiness
cloud-IsBound r s bound =
    if-IsBound (is_stale r s) s _ (λ stale. bound)
      (λ fresh.
        if-IsBound (ends_identity r s) (invalidate_identity (take_cloud r s)) (take_cloud r s)
          (λ ends. invalidate-IsBound (take_cloud r s))
          (λ keeps. take_cloud-IsBound r s keeps bound))

-- The same session state but for parts that the binding does not read.
ready-IsBound :
    (s t : SessionState)
    → t.identity_valid ≡ s.identity_valid
    → t.identity ≡ s.identity
    → t.cloud ≡ s.cloud
    → t.capability.ready ≡ true
    → IsBound s
    → IsBound t
ready-IsBound s t v i c r bound valid =
    let b = bound (sym v ∙ valid) in
    record {
      cloud_ready = rw c b.cloud_ready;
      capability_ready = r;
      identity = rw (i, c) b.identity;
    }

capability-IsBound :
    (r : CapabilityReadiness) (s : SessionState)
    → IsBound s
    → IsBound (apply_capability_readiness r s)
unfolding apply_capability_readiness
capability-IsBound r s bound =
    let t = record s { capability = r; capability_event_seen = true } in
    if-IsBound (not (text_eq r.capability capability_keyprov)) s _ (λ other. bound)
      (λ ours.
        if-IsBound (not r.ready) (invalidate_identity t) t (λ revoked. invalidate-IsBound t)
          (λ is_ready. ready-IsBound s t refl refl refl (let e = is_ready in ground arith) bound))

-- The gate reaches the identity only with the cloud and the capability ready.
shut_reason-none :
    (s : SessionState)
    → shut_reason s ≡ none
    → (s.cloud.cloud_ready ≡ true) × (s.capability.ready ≡ true)
unfolding shut_reason
shut_reason-none s h = ground arith

form_identity-IsBound :
    (o : Option Text) (s : SessionState)
    → o ≡ keyprov_validate_identity (identity_of s.cloud)
    → (s.cloud.cloud_ready ≡ true) × (s.capability.ready ≡ true)
    → IsBound (form_identity o s).1
unfolding form_identity identity_of
form_identity-IsBound (some reason) s e both valid = record {
  cloud_ready = both.0;
  capability_ready = both.1;
  identity = inl refl;
}
form_identity-IsBound none s e both valid = record {
  cloud_ready = both.0;
  capability_ready = both.1;
  identity = inr (refl, sym e);
}

pass_gate-IsBound :
    (o : Option Text) (s : SessionState)
    → (o ≡ none → (s.cloud.cloud_ready ≡ true) × (s.capability.ready ≡ true))
    → IsBound s
    → IsBound (pass_gate o s).1
unfolding pass_gate
pass_gate-IsBound (some reason) s both bound = bound
pass_gate-IsBound none s both bound = form_identity-IsBound _ s refl (both refl)

gate_refreshed-IsBound : (s : SessionState) → IsBound s → IsBound (gate_refreshed s).1
unfolding gate_refreshed
gate_refreshed-IsBound s bound = elim (Bool-cases (all_ready s.readiness)) [
  | inr missing ↦ rw missing (pass_gate-IsBound (shut_reason s) s (shut_reason-none s) bound)
  | inl complete ↦ rw complete (
      pass_gate-IsBound (shut_reason s)
        (record s {
          publish_session_supported =
              leb mqtt_publish_session_contract_version s.cloud.publish_contract_version;
        })
        (shut_reason-none s)
        (λ valid.
          let b = bound valid in
          record {
            cloud_ready = b.cloud_ready;
            capability_ready = b.capability_ready;
            identity = b.identity;
          }))
]

gate-IsBound :
    (enabled stopping : Bool) (fresh : KeyprovReadiness) (s : SessionState)
    → IsBound s
    → IsBound (capability_gate enabled stopping fresh s).1
unfolding capability_gate
gate-IsBound false stopping fresh s bound = bound
gate-IsBound true true fresh s bound = bound
gate-IsBound true false fresh s bound =
    gate_refreshed-IsBound (record s { readiness = fresh })
      (λ valid.
        let b = bound valid in
        record {
          cloud_ready = b.cloud_ready;
          capability_ready = b.capability_ready;
          identity = b.identity;
        })

-- An identity marked valid stays bound to the present session over every history of cloud events,
-- capability events and gate checks: the cloud and the capability are ready, and the identity is
-- complete and of the session of the last cloud event taken, or was cleared by the gate.
pub events-IsBound :
    (es : List SessionEvent) (s : SessionState) → IsBound s → IsBound (take_session_events es s)
unfolding take_session_events take_session_event
events-IsBound [] s bound = bound
events-IsBound (cloud_event r ∷ es) s bound = events-IsBound es _ (cloud-IsBound r s bound)
events-IsBound (capability_event r ∷ es) s bound =
    events-IsBound es _ (capability-IsBound r s bound)
events-IsBound (gate_check enabled stopping fresh ∷ es) s bound =
    events-IsBound es _ (gate-IsBound enabled stopping fresh s bound)
