-- ===== src/KeyStore/Hex.antt =====
-- Digests as hexadecimal text.
use iov_vehicle_tbox_tsp.Prelude.{
  ℕ, ◌+◌, ◌-◌, ◌*◌, ◌/◌, ◌%◌, ◌<◌, ◌≡◌, refl, ap, List, [], ◌∷◌, ◌&&◌, Option, none, some, Text,
  ltb, leb, ◌==◌, length, All, arith, if◌then◌else◌,
}

-- The digits 0 to 9 and a to f.
unfoldable pub hex_digit : ℕ → ℕ
hex_digit n = if ltb n 10 then b'0' + n else b'a' + (n - 10)

unfoldable pub hex_encode : List ℕ → Text
hex_encode [] = []
hex_encode (b ∷ v) = hex_digit (b / 16 % 16) ∷ hex_digit (b % 16) ∷ hex_encode v

-- `none` is the -1 of the source.
unfoldable pub hex_value : ℕ → Option ℕ
hex_value c =
    if leb b'0' c && leb c b'9'
    then some (c - b'0')
    else if leb b'a' c && leb c b'f'
    then some (c - b'a' + 10)
    else if leb b'A' c && leb c b'F'
    then some (c - b'A' + 10)
    else none

-- One pair before the rest: a character that is no digit clears the whole output.
abbrev pub pair_before : Option ℕ → Option ℕ → Option (List ℕ) → Option (List ℕ)
pair_before (some hi) (some lo) (some rest) = some ((hi * 16 + lo) % 256 ∷ rest)
pair_before _ _ _ = none

unfoldable pub hex_pairs : Text → Option (List ℕ)
hex_pairs (a ∷ b ∷ s) = pair_before (hex_value a) (hex_value b) (hex_pairs s)
hex_pairs _ = some []

abbrev pub or_empty : Option (List ℕ) → List ℕ
or_empty none = []
or_empty (some out) = out

unfoldable pub hex_decode : Text → List ℕ
hex_decode s = if length s % 2 == 0 then or_empty (hex_pairs s) else []

hex_value-hex_digit : (n : ℕ) → n < 16 → hex_value (hex_digit n) ≡ some n
unfolding hex_value hex_digit
hex_value-hex_digit n h = ground arith

hex_pairs-hex_encode : (v : List ℕ) → All (λ b. b < 256) v → hex_pairs (hex_encode v) ≡ some v
unfolding hex_pairs hex_encode
hex_pairs-hex_encode [] h = refl
hex_pairs-hex_encode (b ∷ v) h =
    rw
      (
        hex_value-hex_digit (b / 16 % 16) (omega arith),
        hex_value-hex_digit (b % 16) (omega arith),
        hex_pairs-hex_encode v h.1,
      )
      (ap (λ c. some (c ∷ v)) (omega arith))

hex_encode-even : (v : List ℕ) → length (hex_encode v) % 2 ≡ 0
unfolding hex_encode
hex_encode-even [] = refl
hex_encode-even (b ∷ v) = omega (arith, hex_encode-even v)

-- Bytes are read back from their hexadecimal text.
pub hex_decode-hex_encode : (v : List ℕ) → All (λ b. b < 256) v → hex_decode (hex_encode v) ≡ v
unfolding hex_decode
hex_decode-hex_encode v h = rw (hex_pairs-hex_encode v h) (ground (arith, hex_encode-even v))
