-- ===== src/Protocol/Identity.antt =====
-- The session identity: canonical UID, normalised digests, structural completeness. Characters are
-- bytes; the tests compare only with ASCII, so the signedness of `char` plays no part.
use iov_vehicle_tbox_tsp.Prelude.{
  ℕ, ◌+◌, ◌-◌, ◌*◌, ◌%◌, List, [], ◌∷◌, Bool, true, false, not, ◌&&◌, ◌||◌, Option, none, some,
  Text, codes, after_prefix, ltb, leb, ◌==◌, is_empty, length, if◌then◌else◌,
}

pub record MqttSessionContext : Type 0 where
  pub daemon_epoch : Text
  pub connection_generation : ℕ
  pub cert_session_generation : ℕ

pub record KeyprovSessionIdentity : Type 0 where
  pub ecu_uid : Text
  pub device_identity_digest : Text
  pub certificate_ref : Text
  pub session : MqttSessionContext

abbrev pub keyprov_max_digest_bytes : ℕ
keyprov_max_digest_bytes = 64

abbrev pub is_uid_char : ℕ → Bool
is_uid_char c = leb b'A' c && leb c b'Z' || (leb b'0' c && leb c b'9' || c == b'-')

unfoldable pub all_uid_chars : Text → Bool
all_uid_chars [] = true
all_uid_chars (c ∷ s) = is_uid_char c && all_uid_chars s

unfoldable pub keyprov_is_canonical_uid : Text → Bool
keyprov_is_canonical_uid uid =
    if is_empty uid || ltb 64 (length uid) then false else all_uid_chars uid

-- `std::isxdigit` in the C locale.
abbrev pub is_xdigit : ℕ → Bool
is_xdigit c = leb b'0' c && leb c b'9' || (leb b'a' c && leb c b'f' || leb b'A' c && leb c b'F')

unfoldable pub all_xdigits : Text → Bool
all_xdigits [] = true
all_xdigits (c ∷ s) = is_xdigit c && all_xdigits s

-- The value of a hexadecimal digit, which is below 16.
unfoldable pub nib : ℕ → ℕ
nib c =
    if leb b'0' c && leb c b'9'
    then c - b'0'
    else if leb b'a' c && leb c b'f'
    then c - b'a' + 10
    else c - b'A' + 10

-- `(nib(s[i]) << 4) | nib(s[i + 1])` for every pair; a nibble is below 16, so the bits do not meet.
unfoldable pub hex_bytes : Text → List ℕ
hex_bytes (a ∷ b ∷ s) = (nib a * 16 + nib b) % 256 ∷ hex_bytes s
hex_bytes _ = []

-- The returned flag and what is left in `out`.
unfoldable pub digest_of : Text → Bool × List ℕ
digest_of s =
    let out = hex_bytes s in
    if (not (is_empty s) && length s % 2 == 0) && all_xdigits s
    then (not (is_empty out) && leb (length out) keyprov_max_digest_bytes, out)
    else if ltb keyprov_max_digest_bytes (length s)
    then (false, [])
    else (true, s)

unfoldable pub digest_behind : Text → Option Text → Bool × List ℕ
digest_behind s none = digest_of s
digest_behind s (some rest) = digest_of rest

unfoldable pub keyprov_normalize_digest : Text → Bool × List ℕ
keyprov_normalize_digest s = digest_behind s (after_prefix (codes "sha256:") s)

-- `none` for a valid identity, else the reason.
unfoldable pub keyprov_validate_identity : KeyprovSessionIdentity → Option Text
keyprov_validate_identity identity =
    if not (keyprov_is_canonical_uid identity.ecu_uid)
    then some (codes "identity_uid_invalid")
    else if is_empty identity.device_identity_digest || is_empty identity.certificate_ref
    then some (codes "identity_certificate_incomplete")
    else if is_empty identity.session.daemon_epoch
        || (identity.session.connection_generation == 0
            || identity.session.cert_session_generation == 0)
    then some (codes "identity_session_incomplete")
    else none
