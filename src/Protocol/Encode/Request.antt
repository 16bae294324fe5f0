-- ===== src/Protocol/Encode/Request.antt =====
-- When a request is built: both of its digests come from the one identity that names the device.
use iov_vehicle_tbox_tsp.Prelude.{
  ℕ, ◌≤◌, ◌≡◌, ◌≢◌, ◌↔◌, ◌⊎◌, inl, inr, refl, ap, List, [], ◌∷◌, Bool, true, false, Option, none,
  some, Text, text_eq_iff, is_empty, length, ℤ, pos, All, arith, if◌then◌else◌, eq_of_parts,
}
use iov_vehicle_tbox_tsp.Attempt.Fingerprint.{keyprov_business_domain_v2c}
use iov_vehicle_tbox_tsp.Protocol.Identity.{
  KeyprovSessionIdentity, keyprov_validate_identity, keyprov_normalize_digest, digest_of,
  digest_behind,
}
use iov_vehicle_tbox_tsp.Protocol.Messages.{
  KeyProvCodecStatus, codec_ok, field_invalid, encode_fail, KeyProvEncodeOutcome,
  VehicleMessageEnvelope, KeyProvRequestData, KeyProvisioningRequest,
}
use iov_vehicle_tbox_tsp.Protocol.Checks.{
  check_formats, has_unspecified, check_request, identity_digests,
}
use iov_vehicle_tbox_tsp.Protocol.Encode.{
  request_message, request_envelope, build_keyprov_request_envelope,
}
use iov_vehicle_tbox_tsp.Protocol.Encode.Built.{
  IsComplete, Seals, is_empty_iff, keyprov_validate_identity_lem, when_valid_iff, when_passed_iff,
  sealed_iff,
}

check_formats_iff :
    (declared : Bool) (formats : List ℤ)
    → (check_formats declared formats ≡ none)
      ↔ (((declared ≡ true) ⊎ (formats ≢ [])) × All (λ f. f ≡ pos 1) formats)
unfolding check_formats
check_formats_iff true [] = ((λ h. (inl refl, tt)), (λ h. refl))
check_formats_iff false [] = ((λ h. cc), (λ h. ground arith))
check_formats_iff declared (f ∷ formats) =
    let ih = check_formats_iff true formats in
    let e = eq_of_parts f (pos 1) in
    ((λ h. (inr (λ k. cc), ground (arith, ih, e))), (λ h. ground (arith, ih, e)))

has_unspecified_iff :
    (purposes : List ℤ) → (has_unspecified purposes ≡ false) ↔ All (λ p. p ≢ pos 0) purposes
unfolding has_unspecified
has_unspecified_iff [] = ((λ h. tt), (λ h. refl))
has_unspecified_iff (p ∷ purposes) =
    let ih = has_unspecified_iff purposes in
    let e = eq_of_parts p (pos 0) in ((λ h. ground (arith, ih, e)), (λ h. ground (arith, ih, e)))

-- The data of a request that passes its checks.
pub record IsRequestable (d : KeyProvRequestData) : Type 0 where
  pub request_id : d.request_id ≢ []
  pub request_id_size : length d.request_id ≤ 128
  pub idempotency_key : d.idempotency_key ≢ []
  pub idempotency_key_size : length d.idempotency_key ≤ 128
  pub domain : d.business_domain ≡ keyprov_business_domain_v2c
  pub purposes : length d.purposes ≤ 8
  pub suites : length d.supported_wrapping_suites ≤ 8
  pub formats_size : length d.supported_envelope_formats ≤ 8
  pub versions : length d.current_versions ≤ 8
  pub formats_declared : d.supported_envelope_formats ≢ []
  pub formats : All (λ f. f ≡ pos 1) d.supported_envelope_formats

check_request-IsRequestable : (d : KeyProvRequestData) → check_request d ≡ none → IsRequestable d
unfolding check_request
check_request-IsRequestable d h =
    let f = check_formats_iff false d.supported_envelope_formats in
    let i = is_empty_iff d.request_id in
    let k = is_empty_iff d.idempotency_key in
    let b = text_eq_iff d.business_domain keyprov_business_domain_v2c in ground (arith, f, i, k, b)

check_request-fails :
    (d : KeyProvRequestData) (f : KeyProvCodecStatus × Text)
    → check_request d ≡ some f
    → f.0 ≢ codec_ok
unfolding check_request
check_request-fails d f h e = ground arith

-- A digest of 1 to 64 bytes that a text of the identity stands for.
pub record IsDigestOf (text : Text) (digest : List ℕ) : Type 0 where
  pub normalized : keyprov_normalize_digest text ≡ (true, digest)
  pub nonempty : digest ≢ []
  pub size : length digest ≤ 64

digest_of-size : (s : Text) → (digest_of s).0 ≡ true → length (digest_of s).1 ≤ 64
unfolding digest_of
digest_of-size s h = ground arith

digest_behind-size :
    (s : Text) (rest : Option Text)
    → (digest_behind s rest).0 ≡ true
    → length (digest_behind s rest).1 ≤ 64
unfolding digest_behind
digest_behind-size s none h = digest_of-size s h
digest_behind-size s (some rest) h = digest_of-size rest h

normalize-IsDigestOf :
    (s : Text)
    → (keyprov_normalize_digest s).0 ≡ true
    → is_empty (keyprov_normalize_digest s).1 ≡ false
    → IsDigestOf s (keyprov_normalize_digest s).1
normalize-IsDigestOf s h e = record {
  normalized = ap (λ b. (b, (keyprov_normalize_digest s).1)) h;
  nonempty = (is_empty_iff (keyprov_normalize_digest s).1).0 e;
  size =
      unfold keyprov_normalize_digest in
      digest_behind-size s _ (unfold keyprov_normalize_digest in h);
}

identity_digests-IsDigestOf :
    (i : KeyprovSessionIdentity)
    → (identity_digests i).0 ≡ none
    → IsDigestOf i.device_identity_digest (identity_digests i).1.0
      × IsDigestOf i.certificate_ref (identity_digests i).1.1
unfolding identity_digests
identity_digests-IsDigestOf i h =
    let d = normalize-IsDigestOf i.device_identity_digest in
    let c = normalize-IsDigestOf i.certificate_ref in ground (arith, d, c)

-- What a request carries that was built for this identity and these data.
pub record IsFromIdentity (serialize_envelope : VehicleMessageEnvelope → Option (List ℕ))
    (serialize : KeyProvisioningRequest → Option (List ℕ)) (i : KeyprovSessionIdentity)
    (d : KeyProvRequestData) (message_id trace_id : Text) : Type 0 where
  pub device : List ℕ
  pub certificate : List ℕ
  pub identity : IsComplete i
  pub data_valid : IsRequestable d
  pub purposes : All (λ p. p ≢ pos 0) d.purposes
  pub device_digest : IsDigestOf i.device_identity_digest device
  pub certificate_digest : IsDigestOf i.certificate_ref certificate
  pub sent :
      Seals serialize_envelope
        (request_envelope i d message_id trace_id)
        (serialize (request_message d device certificate))

if_status :
    (b : Bool) (r : Text) (x : KeyProvEncodeOutcome)
    → (if b then encode_fail field_invalid r else x).status ≡ codec_ok
    → (b ≡ false) × (x.status ≡ codec_ok)
if_status true r x h = cc
if_status false r x h = (refl, h)

-- A request is built only for a complete identity and data within their bounds: the domain V2C_COMM,
-- at least one envelope format and only the supported one, no unspecified purpose. The message on
-- the wire carries the two digests of that very identity, each of 1 to 64 bytes, whose UID is the
-- device id of the envelope; the envelope has at most 16384 bytes.
pub request-IsFromIdentity :
    (serialize_envelope : VehicleMessageEnvelope → Option (List ℕ))
    → (serialize : KeyProvisioningRequest → Option (List ℕ))
    → (i : KeyprovSessionIdentity) (d : KeyProvRequestData) (message_id trace_id : Text)
    → (build_keyprov_request_envelope serialize_envelope serialize i d message_id trace_id).status
      ≡ codec_ok
    → IsFromIdentity serialize_envelope serialize i d message_id trace_id
unfolding build_keyprov_request_envelope
request-IsFromIdentity serialize_envelope serialize i d message_id trace_id h =
    let digests = identity_digests i in
    let v = (when_valid_iff (keyprov_validate_identity i) _).0 h in
    let c = (when_passed_iff (check_request d) _ (check_request-fails d)).0 v.1 in
    let n = (when_valid_iff digests.0 _).0 c.1 in
    let u = if_status (has_unspecified d.purposes) _ _ n.1 in
    let both = identity_digests-IsDigestOf i n.0 in
    record {
      device = digests.1.0;
      certificate = digests.1.1;
      identity = (keyprov_validate_identity_lem i).0 v.0;
      data_valid = check_request-IsRequestable d c.0;
      purposes = (has_unspecified_iff d.purposes).0 u.0;
      device_digest = both.0;
      certificate_digest = both.1;
      sent = (sealed_iff serialize_envelope _ _ _).0 u.1;
    }
