-- ===== src/Protocol/Decode/Accepted.antt =====
-- A message is accepted as a whole, or nothing of it is handed on.
use iov_vehicle_tbox_tsp.Prelude.{
  ℕ, ◌≤◌, ◌≡◌, ◌≢◌, refl, ap, ◌⊎◌, inl, inr, List, [], ◌∷◌, map, Bool, true, false, not, Option,
  none, some, Text, text_eq, eq_of_text_eq, ltb, length, ℤ, pos, All, arith, Option-cases,
  if◌then◌else◌, eq_of_parts,
}
use iov_vehicle_tbox_tsp.Gateway.Envelope.{MessageKind, response, is_response}
use iov_vehicle_tbox_tsp.Protocol.Names.{keyprov_wrapping_suite_from_string, suite_ecdh_es_p256}
use iov_vehicle_tbox_tsp.Protocol.Messages.{
  KeyProvCodecStatus, codec_ok, VehicleMessageEnvelope, KeyProvisioningResponse,
  KeyProvisioningAckResult, KeyProvisioningStatusResponse, WrappedKeyMessage, KeyProvStatusItem,
  KeyProvContent, unknown, response_data, ack_result_data, status_response_data, KeyProvDecoded,
  KeyProvDecodeOutcome, decode_fail, nothing_decoded, keyprov_service, keyprov_protocol_version,
  keyprov_payload_response, keyprov_payload_ack_result, keyprov_payload_status_response,
  keyprov_max_payload_bytes,
}
use iov_vehicle_tbox_tsp.Protocol.Decode.{
  check_wrapped_item, check_status_item, add_item, each_item, with_items, decoded_ok, hand_on,
  decode_response, decode_ack_result, decode_status_response, decode_payload, decode_fields,
  decode_keyprov_envelope, Parsers, fill_error,
}

-- A wrapped key within all bounds, of the one supported format and suite.
pub record IsSupported (it : WrappedKeyMessage) : Type 0 where
  pub wrapped_key : length it.wrapped_key ≤ 4096
  pub parameters : length it.parameters ≤ 2048
  pub key_id : length it.key_id ≤ 128
  pub key_algorithm : length it.key_algorithm ≤ 64
  pub format : it.envelope_format ≡ pos 1
  pub suite : it.wrapping_suite ≡ suite_ecdh_es_p256
  pub digest : length it.envelope_digest ≡ 32
  pub key_check_value : length it.key_check_value ≡ 3

abbrev pub HasShortKeyId : KeyProvStatusItem → Type 0
HasShortKeyId it = length it.key_id ≤ 128

check_wrapped_item-IsSupported :
    (it : WrappedKeyMessage) → check_wrapped_item it ≡ none → IsSupported it
unfolding check_wrapped_item keyprov_wrapping_suite_from_string text_eq
check_wrapped_item-IsSupported it h = ground (
  arith,
  eq_of_parts it.envelope_format (pos 1),
  eq_of_parts it.wrapping_suite suite_ecdh_es_p256,
)

check_wrapped_item-fails :
    (it : WrappedKeyMessage) (f : KeyProvCodecStatus × Text)
    → check_wrapped_item it ≡ some f
    → f.0 ≢ codec_ok
unfolding check_wrapped_item
check_wrapped_item-fails it f h e = ground arith

check_status_item-HasShortKeyId :
    (it : KeyProvStatusItem) → check_status_item it ≡ none → HasShortKeyId it
unfolding check_status_item
check_status_item-HasShortKeyId it h = ground arith

check_status_item-fails :
    (it : KeyProvStatusItem) (f : KeyProvCodecStatus × Text)
    → check_status_item it ≡ some f
    → f.0 ≢ codec_ok
unfolding check_status_item
check_status_item-fails it f h e = ground arith

of_not : {b : Bool} → not b ≡ false → b ≡ true
of_not {b} h = ground arith

map_same : (items : List KeyProvStatusItem) → map (λ it. it) items ≡ items
map_same [] = refl
map_same (it ∷ items) = ap (λ xs. it ∷ xs) (map_same items)

-- Accepted as P says, or refused with nothing handed on.
unfoldable pub Judged : (KeyProvDecoded → Type 0) → KeyProvDecodeOutcome → Type 0
Judged P o =
    ((o.status ≡ codec_ok) × P o.decoded) ⊎ ((o.status ≢ codec_ok) × (o.decoded ≡ nothing_decoded))

module _ {A B : Type 0} (P : A → Type 0) (check : A → Option (KeyProvCodecStatus × Text))
    (convert : A → B) where
  -- What the loop gives: either a failure, or every item passed its check and is handed on in order.
  abbrev Handed : List A → (KeyProvCodecStatus × Text) ⊎ List B → Type 0
  Handed items (inl failure) = failure.0 ≢ codec_ok
  Handed items (inr out) = All P items × (out ≡ map convert items)

  add_item-Handed :
      (it : A) (items : List A) (o : Option (KeyProvCodecStatus × Text))
      → (r : (KeyProvCodecStatus × Text) ⊎ List B) → (o ≡ none → P it)
      → ((f : KeyProvCodecStatus × Text) → o ≡ some f → f.0 ≢ codec_ok)
      → Handed items r
      → Handed (it ∷ items) (add_item o (convert it) r)
  unfolding add_item
  add_item-Handed it items (some f) r p q h = q f refl
  add_item-Handed it items none (inl f) p q h = h
  add_item-Handed it items none (inr rest) p q h = ((p refl, h.0), ap (λ xs. convert it ∷ xs) h.1)

  each_item-Handed :
      ((a : A) → check a ≡ none → P a)
      → ((a : A) (f : KeyProvCodecStatus × Text) → check a ≡ some f → f.0 ≢ codec_ok)
      → (items : List A) → Handed items (each_item check convert items)
  unfolding each_item
  each_item-Handed passed failed [] = (tt, refl)
  each_item-Handed passed failed (it ∷ items) =
      add_item-Handed it items (check it) (each_item check convert items) (passed it) (failed it)
        (each_item-Handed passed failed items)

  with_items-Judged :
      (Q : KeyProvDecoded → Type 0) (rest : List B → KeyProvDecodeOutcome) (items : List A)
      → (r : (KeyProvCodecStatus × Text) ⊎ List B) → Handed items r
      → (All P items → Judged Q (rest (map convert items)))
      → Judged Q (with_items r rest)
  unfolding with_items Judged
  with_items-Judged Q rest items (inl f) h k = inr (h, refl)
  with_items-Judged Q rest items (inr out) h k = rw h.1 (k h.0)

abbrev is_ok : KeyProvCodecStatus → Bool
is_ok codec_ok = true
is_ok _ = false

fail-Judged :
    (P : KeyProvDecoded → Type 0) (status : KeyProvCodecStatus) (reason : Text)
    → is_ok status ≡ false
    → Judged P (decode_fail status reason)
unfolding Judged
fail-Judged P status reason h = inr ((λ (e : status ≡ codec_ok). cc h), refl)

ok-Judged :
    (P : KeyProvDecoded → Type 0) (request_id message_id : Text) (content : KeyProvContent)
    → P (record { request_id = request_id; message_id = message_id; content = content })
    → Judged P (decoded_ok request_id message_id content)
unfolding Judged
ok-Judged P request_id message_id content h = inl (refl, h)

if-Judged :
    (P : KeyProvDecoded → Type 0) (b : Bool) (x y : KeyProvDecodeOutcome)
    → (b ≡ true → Judged P x)
    → (b ≡ false → Judged P y)
    → Judged P (if b then x else y)
if-Judged P true x y h k = h refl
if-Judged P false x y h k = k refl

-- What the content of an accepted message owes to the message on the wire.
module _ (parsers : Parsers) (sec_suite : Text) (sec_format : ℤ) where
  abbrev pub IsContentOf : VehicleMessageEnvelope → KeyProvContent → Type 0
  IsContentOf env unknown = ⊥
  IsContentOf env (response_data r) =
      (env.payload_type ≡ keyprov_payload_response)
      × ((msg : KeyProvisioningResponse) × (parsers.response env.payload ≡ some msg)
          × (length msg.items ≤ 8)
          × All IsSupported msg.items
          × (r ≡ record {
            request_id = msg.request_id;
            result = msg.result;
            expire_at_ms = msg.expire_at_ms;
            error = fill_error msg.error;
            items = map (hand_on sec_suite sec_format) msg.items;
          }))
  IsContentOf env (ack_result_data r) =
      (env.payload_type ≡ keyprov_payload_ack_result)
      × ((msg : KeyProvisioningAckResult) × (parsers.ack_result env.payload ≡ some msg)
          × (r ≡ record {
            request_id = msg.request_id;
            result = msg.result;
            occurred_at_ms = msg.occurred_at_ms;
            error = fill_error msg.error;
          }))
  IsContentOf env (status_response_data r) =
      (env.payload_type ≡ keyprov_payload_status_response)
      × ((msg : KeyProvisioningStatusResponse) × (parsers.status_response env.payload ≡ some msg)
          × (length msg.items ≤ 8)
          × All HasShortKeyId msg.items
          × (r ≡ record {
            request_id = msg.request_id;
            status = msg.status;
            occurred_at_ms = msg.occurred_at_ms;
            error = fill_error msg.error;
            items = msg.items;
          }))

  abbrev IsReadFrom : VehicleMessageEnvelope → KeyProvDecoded → Type 0
  IsReadFrom env d = (d.message_id ≡ env.message_id) × IsContentOf env d.content

  -- The envelope of an accepted message, and the message itself.
  pub record IsAccepted (bytes : List ℕ) (d : KeyProvDecoded) : Type 0 where
    pub env : VehicleMessageEnvelope
    pub size : length bytes ≤ 16384
    pub parsed : parsers.envelope bytes ≡ some env
    pub version : env.protocol_version ≡ keyprov_protocol_version
    pub service : env.service ≡ keyprov_service
    pub kind : env.message_kind ≡ response
    pub message_id : d.message_id ≡ env.message_id
    pub content : IsContentOf env d.content

  ack_result-Judged :
      (env : VehicleMessageEnvelope) (o : Option KeyProvisioningAckResult)
      → env.payload_type ≡ keyprov_payload_ack_result
      → parsers.ack_result env.payload ≡ o
      → Judged (IsReadFrom env) (decode_ack_result env.message_id o)
  unfolding decode_ack_result
  ack_result-Judged env none t e = fail-Judged _ _ _ refl
  ack_result-Judged env (some msg) t e = ok-Judged _ _ _ _ (refl, (t, (msg, e, refl)))

  response-Judged :
      (env : VehicleMessageEnvelope) (o : Option KeyProvisioningResponse)
      → env.payload_type ≡ keyprov_payload_response
      → parsers.response env.payload ≡ o
      → Judged (IsReadFrom env) (decode_response sec_suite sec_format env.message_id o)
  unfolding decode_response
  response-Judged env none t e = fail-Judged _ _ _ refl
  response-Judged env (some msg) t e =
      if-Judged (IsReadFrom env) (ltb 8 (length msg.items)) _ _ (λ long. fail-Judged _ _ _ refl)
        (λ short.
          with_items-Judged IsSupported check_wrapped_item (hand_on sec_suite sec_format)
            (IsReadFrom env) _ msg.items _
            (each_item-Handed IsSupported check_wrapped_item (hand_on sec_suite sec_format)
              check_wrapped_item-IsSupported check_wrapped_item-fails msg.items)
            (λ all. ok-Judged _ _ _ _ (refl, (t, (msg, e, ground arith, all, refl)))))

  status_response-Judged :
      (env : VehicleMessageEnvelope) (o : Option KeyProvisioningStatusResponse)
      → env.payload_type ≡ keyprov_payload_status_response
      → parsers.status_response env.payload ≡ o
      → Judged (IsReadFrom env) (decode_status_response env.message_id o)
  unfolding decode_status_response
  status_response-Judged env none t e = fail-Judged _ _ _ refl
  status_response-Judged env (some msg) t e =
      if-Judged (IsReadFrom env) (ltb 8 (length msg.items)) _ _ (λ long. fail-Judged _ _ _ refl)
        (λ short.
          with_items-Judged HasShortKeyId check_status_item (λ it. it) (IsReadFrom env) _ msg.items
            _
            (each_item-Handed HasShortKeyId check_status_item (λ it. it)
              check_status_item-HasShortKeyId check_status_item-fails msg.items)
            (λ all.
              ok-Judged _ _ _ _
                (refl, (t, (msg, e, ground arith, all, simp (map_same msg.items))))))

  decode_payload-Judged :
      (env : VehicleMessageEnvelope)
      → Judged (IsReadFrom env) (decode_payload parsers sec_suite sec_format env)
  unfolding decode_payload
  decode_payload-Judged env =
      if-Judged (IsReadFrom env) _ _ _ (λ t. response-Judged env _ (eq_of_text_eq _ _ t) refl)
        (λ t.
          if-Judged (IsReadFrom env) _ _ _ (λ t. ack_result-Judged env _ (eq_of_text_eq _ _ t) refl)
            (λ t.
              if-Judged (IsReadFrom env) _ _ _
                (λ t. status_response-Judged env _ (eq_of_text_eq _ _ t) refl)
                (λ t. fail-Judged _ _ _ refl)))

  is_response_lem : (k : MessageKind) → not (is_response k) ≡ false → k ≡ response
  is_response_lem k h = ground arith

  Judged-map :
      (P Q : KeyProvDecoded → Type 0) (o : KeyProvDecodeOutcome)
      → ((d : KeyProvDecoded) → P d → Q d)
      → Judged P o
      → Judged Q o
  unfolding Judged
  Judged-map P Q o f (inl (s, p)) = inl (s, f o.decoded p)
  Judged-map P Q o f (inr r) = inr r

  decode_fields-Judged :
      (bytes : List ℕ) (env : VehicleMessageEnvelope)
      → length bytes ≤ 16384
      → parsers.envelope bytes ≡ some env
      → Judged (IsAccepted bytes) (decode_fields parsers sec_suite sec_format env)
  unfolding decode_fields
  decode_fields-Judged bytes env size parsed =
      if-Judged (IsAccepted bytes) _ _ _ (λ h. fail-Judged _ _ _ refl)
        (λ version.
          if-Judged (IsAccepted bytes) _ _ _ (λ h. fail-Judged _ _ _ refl)
            (λ service.
              if-Judged (IsAccepted bytes) (ltb keyprov_max_payload_bytes (length env.payload)) _ _
                (λ h. fail-Judged _ _ _ refl)
                (λ payload.
                  if-Judged (IsAccepted bytes) _ _ _ (λ h. fail-Judged _ _ _ refl)
                    (λ kind.
                      Judged-map (IsReadFrom env) (IsAccepted bytes) _
                        (λ d r. record {
                          env = env;
                          size = size;
                          parsed = parsed;
                          version = eq_of_text_eq _ _ (of_not version);
                          service = eq_of_text_eq _ _ (of_not service);
                          kind = is_response_lem env.message_kind kind;
                          message_id = r.0;
                          content = r.1;
                        })
                        (decode_payload-Judged env)))))

  -- Whatever the generated parsers do, a downlink is either accepted, and then it is the response of the
  -- protocol's version and service that its bytes parse to, at most 16384 of them, and its content is
  -- that of the message of its payload type, with every item handed on in order and within the bounds
  -- (at most 8 items; a wrapped key of the one supported format and suite, a 32-byte digest, a 3-byte
  -- check value), or it is refused and nothing of it is handed on.
  pub decode_or_nothing :
      (bytes : List ℕ)
      → Judged (IsAccepted bytes) (decode_keyprov_envelope parsers sec_suite sec_format bytes)
  unfolding decode_keyprov_envelope
  decode_or_nothing bytes =
      if-Judged (IsAccepted bytes) (ltb keyprov_max_payload_bytes (length bytes)) _ _
        (λ h. fail-Judged _ _ _ refl)
        (λ size. elim (Option-cases (parsers.envelope bytes)) [
          | inl e ↦ rw e (fail-Judged _ _ _ refl)
          | inr (env, e) ↦ rw e (decode_fields-Judged bytes env (ground arith) e)
        ])
