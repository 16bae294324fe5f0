-- ===== src/Protocol/Encode/Built.antt =====
-- When an ACK or a request is built, and what it then carries.
use iov_vehicle_tbox_tsp.Prelude.{
  ℕ, ◌≤◌, ◌≡◌, ◌≢◌, ◌↔◌, refl, List, [], ◌∷◌, true, false, Option, none, some, Text, codes,
  is_empty, length, ℤ, pos, All, arith, eq_of_parts,
}
use iov_vehicle_tbox_tsp.Protocol.Identity.{
  KeyprovSessionIdentity, keyprov_is_canonical_uid, keyprov_validate_identity, is_uid_char,
  all_uid_chars,
}
use iov_vehicle_tbox_tsp.Protocol.Messages.{
  KeyProvCodecStatus, codec_ok, VehicleMessageEnvelope, KeyProvEncodeOutcome,
  KeyProvImportItemResult, KeyProvisioningAck, keyprov_payload_ack,
}
use iov_vehicle_tbox_tsp.Protocol.Checks.{check_ack_item, check_ack_items, check_ack}
use iov_vehicle_tbox_tsp.Protocol.Encode.{
  fill_common, sized, sealed, when_passed, when_valid, build_keyprov_ack_envelope,
}

-- A structurally complete identity.
pub record IsComplete (i : KeyprovSessionIdentity) : Type 0 where
  pub uid_nonempty : i.ecu_uid ≢ []
  pub uid_size : length i.ecu_uid ≤ 64
  pub uid_chars : All (λ c. is_uid_char c ≡ true) i.ecu_uid
  pub digest : i.device_identity_digest ≢ []
  pub certificate : i.certificate_ref ≢ []
  pub epoch : i.session.daemon_epoch ≢ []
  pub connection : 1 ≤ i.session.connection_generation
  pub cert_session : 1 ≤ i.session.cert_session_generation

all_uid_chars_iff : (s : Text) → (all_uid_chars s ≡ true) ↔ All (λ c. is_uid_char c ≡ true) s
unfolding all_uid_chars
all_uid_chars_iff [] = ((λ h. tt), (λ h. refl))
all_uid_chars_iff (c ∷ s) =
    let ih = all_uid_chars_iff s in ((λ h. ground (arith, ih)), (λ h. ground (arith, ih)))

pub is_empty_iff : (s : List ℕ) → (is_empty s ≡ false) ↔ (s ≢ [])
is_empty_iff [] = ((λ h e. cc), (λ h. absurd (h refl)))
is_empty_iff (c ∷ s) = ((λ h e. cc), (λ h. refl))

pub keyprov_validate_identity_lem :
    (i : KeyprovSessionIdentity) → (keyprov_validate_identity i ≡ none) ↔ IsComplete i
unfolding keyprov_validate_identity keyprov_is_canonical_uid
keyprov_validate_identity_lem i =
    let u = is_empty_iff i.ecu_uid in
    let c = all_uid_chars_iff i.ecu_uid in
    let d = is_empty_iff i.device_identity_digest in
    let r = is_empty_iff i.certificate_ref in
    let e = is_empty_iff i.session.daemon_epoch in
    ((λ h. ground (arith, u, c, d, r, e)), (λ h. ground (arith, u, c, d, r, e)))

-- An item with a complete attestation.
pub record IsAttested (it : KeyProvImportItemResult) : Type 0 where
  pub key_id : length it.key_id ≤ 128
  pub format : it.envelope_format ≡ pos 1
  pub algorithm : it.import_proof_algorithm ≡ pos 1
  pub proof : length it.import_proof ≡ 64
  pub certificate : length it.recipient_certificate_digest ≡ 32
  pub digest : length it.envelope_digest ≡ 32
  pub key_check_value : length it.key_check_value ≡ 3

check_ack_item_lem : (it : KeyProvImportItemResult) → (check_ack_item it ≡ none) ↔ IsAttested it
unfolding check_ack_item
check_ack_item_lem it =
    let f = eq_of_parts it.envelope_format (pos 1) in
    let a = eq_of_parts it.import_proof_algorithm (pos 1) in
    ((λ h. ground (arith, f, a)), (λ h. ground (arith, f, a)))

check_ack_items_lem :
    (items : List KeyProvImportItemResult) → (check_ack_items items ≡ none) ↔ All IsAttested items
unfolding check_ack_items
check_ack_items_lem [] = ((λ h. tt), (λ h. refl))
check_ack_items_lem (it ∷ items) =
    let i = check_ack_item_lem it in
    let ih = check_ack_items_lem items in
    ((λ h. ground (arith, i, ih)), (λ h. ground (arith, i, ih)))

check_ack_lem :
    (id : Text) (items : List KeyProvImportItemResult)
    → (check_ack id items ≡ none) ↔ ((id ≢ []) × (length items ≤ 8) × All IsAttested items)
unfolding check_ack
check_ack_lem id items =
    let n = is_empty_iff id in
    let l = check_ack_items_lem items in ((λ h. ground (arith, n, l)), (λ h. ground (arith, n, l)))

-- The serialisers give a payload and an envelope around it that is within the limit.
abbrev pub Seals :
    (VehicleMessageEnvelope → Option (List ℕ)) → VehicleMessageEnvelope → Option (List ℕ) → Type 0
Seals serialize env payload =
    (content : List ℕ) × (payload ≡ some content)
    × ((bytes : List ℕ) × (serialize (record env { payload = content }) ≡ some bytes)
        × (length bytes ≤ 16384))

sized_iff :
    (o : Option (List ℕ))
    → ((sized o).status ≡ codec_ok) ↔ ((bytes : List ℕ) × (o ≡ some bytes) × (length bytes ≤ 16384))
unfolding sized
sized_iff none = ((λ h. cc), (λ (b, e, l). cc))
sized_iff (some b) = ((λ h. (b, refl, ground arith)), (λ (c, e, l). ground arith))

some_injective {ℓ} : {A : Type ℓ} (x y : A) → some x ≡ some y → x ≡ y
some_injective x y e = cc

pub sealed_iff :
    (serialize : VehicleMessageEnvelope → Option (List ℕ)) (reason : Text)
    → (env : VehicleMessageEnvelope) (payload : Option (List ℕ))
    → ((sealed serialize reason env payload).status ≡ codec_ok) ↔ Seals serialize env payload
unfolding sealed
sealed_iff serialize reason env none = ((λ h. cc), (λ (c, e, b). cc))
sealed_iff serialize reason env (some p) =
    let s = sized_iff (serialize (record env { payload = p })) in
    ((λ h. (p, refl, s.0 h)), (λ (c, e, b). s.1 (rw (some_injective p c e) b)))

pub when_valid_iff :
    (r : Option Text) (o : KeyProvEncodeOutcome)
    → ((when_valid r o).status ≡ codec_ok) ↔ ((r ≡ none) × (o.status ≡ codec_ok))
unfolding when_valid
when_valid_iff none o = ((λ h. (refl, h)), (λ h. h.1))
when_valid_iff (some reason) o = ((λ h. cc), (λ h. cc (h.0)))

pub when_passed_iff :
    (r : Option (KeyProvCodecStatus × Text)) (o : KeyProvEncodeOutcome)
    → ((f : KeyProvCodecStatus × Text) → r ≡ some f → f.0 ≢ codec_ok)
    → ((when_passed r o).status ≡ codec_ok) ↔ ((r ≡ none) × (o.status ≡ codec_ok))
unfolding when_passed
when_passed_iff none o fails = ((λ h. (refl, h)), (λ h. h.1))
when_passed_iff (some f) o fails = ((λ h. absurd (fails f refl h)), (λ h. cc (h.0)))

check_ack_item-fails :
    (it : KeyProvImportItemResult) (f : KeyProvCodecStatus × Text)
    → check_ack_item it ≡ some f
    → f.0 ≢ codec_ok
unfolding check_ack_item
check_ack_item-fails it f h e = ground arith

check_ack_items-fails :
    (items : List KeyProvImportItemResult) (f : KeyProvCodecStatus × Text)
    → check_ack_items items ≡ some f
    → f.0 ≢ codec_ok
unfolding check_ack_items
check_ack_items-fails [] f h e = cc
check_ack_items-fails (it ∷ items) f h e =
    ground (arith, check_ack_item-fails it f, check_ack_items-fails items f)

check_ack-fails :
    (id : Text) (items : List KeyProvImportItemResult) (f : KeyProvCodecStatus × Text)
    → check_ack id items ≡ some f
    → f.0 ≢ codec_ok
unfolding check_ack
check_ack-fails id items f h e = ground (arith, check_ack_items-fails items f)

-- An ACK is built exactly when the identity is complete, the request id is not empty, there are at
-- most 8 items, every one of them, whatever its import result, carries a complete attestation, and
-- the serialisers succeed on the ACK and on its envelope, within 16384 bytes.
pub ack_built_iff :
    (serialize_envelope : VehicleMessageEnvelope → Option (List ℕ))
    → (serialize : KeyProvisioningAck → Option (List ℕ))
    → (identity : KeyprovSessionIdentity) (id : Text) (items : List KeyProvImportItemResult)
    → (timestamp_ms : ℤ) (message_id correlation_id : Text)
    → ((build_keyprov_ack_envelope serialize_envelope serialize identity id items timestamp_ms
          message_id correlation_id).status
        ≡ codec_ok)
      ↔ (IsComplete identity
          × ((id ≢ []) × (length items ≤ 8) × All IsAttested items)
          × Seals serialize_envelope
              (fill_common identity id message_id correlation_id keyprov_payload_ack []
                timestamp_ms)
              (serialize (record { request_id = id; items = items; timestamp_ms = timestamp_ms })))
unfolding build_keyprov_ack_envelope
ack_built_iff serialize_envelope serialize identity id items timestamp_ms message_id
      correlation_id =
    let i = keyprov_validate_identity_lem identity in
    let c = check_ack_lem id items in
    let s =
      sealed_iff serialize_envelope (codes "ack_serialize_failed")
        (fill_common identity id message_id correlation_id keyprov_payload_ack [] timestamp_ms)
        (serialize (record { request_id = id; items = items; timestamp_ms = timestamp_ms })) in
    let p = when_passed_iff (check_ack id items) _ (check_ack-fails id items) in
    let v = when_valid_iff (keyprov_validate_identity identity) _ in
    (
      (λ h. (i.0 (v.0 h).0, c.0 (p.0 (v.0 h).1).0, s.0 (p.0 (v.0 h).1).1)),
      (λ h. v.1 (i.1 h.0, p.1 (c.1 h.1, s.1 h.2))),
    )
