-- ===== src/Backend/Hex.antt =====
-- src/backend.rs: the hexadecimal text of a Bob node's requests and answers.
pub mod Digits
pub mod RoundTrip
use qubic_random_client.Base.{
  ℕ, zero, suc, ◌+◌, ◌-◌, ◌*◌, ◌/◌, ◌%◌, Bool, true, false, ◌&&◌, ◌||◌, List, [], ◌∷◌, Option, none,
  some, ltb, ◌==◌, if◌then◌else◌, all, length, Text, codes, between, as_bytes,
}
use qubic_random_client.Base.Result.{Result, ok, err, ◌>>=◌, ◌>>◌, guard, ok_or}

pub data HexError : Type 0 where
  odd_length : HexError
  non_hex_digit : HexError
  invalid_hex : HexError

abbrev pub hex : Text
hex = codes "0123456789abcdef"

-- An index into a table, which panics past its end.
abbrev pub nth : Text → ℕ → ℕ
nth [] i = 0
nth (c ∷ s) zero = c
nth (c ∷ s) (suc i) = nth s i

-- `bytes_to_hex`.
unfoldable pub bytes_to_hex : List ℕ → Text
bytes_to_hex [] = []
bytes_to_hex (byte ∷ bytes) = nth hex (byte / 16) ∷ nth hex (byte % 16) ∷ bytes_to_hex bytes

-- `u8::is_ascii_hexdigit`.
unfoldable pub is_ascii_hexdigit : ℕ → Bool
is_ascii_hexdigit c = between b'0' b'9' c || between b'a' b'f' c || between b'A' b'F' c

-- `char::to_digit` in base 16.
unfoldable pub digit_value : ℕ → Option ℕ
digit_value c =
    if between b'0' b'9' c
    then some (c - b'0')
    else if between b'a' b'f' c
    then some (c - b'a' + 10)
    else if between b'A' b'F' c
    then some (c - b'A' + 10)
    else none

abbrev pub pair_value : Option ℕ → Option ℕ → Option ℕ
pair_value (some hi) (some lo) = some (hi * 16 + lo)
pair_value _ _ = none

-- `u8::from_str_radix` in base 16 on two characters, of which the first may be a sign.
abbrev pub from_str_radix : ℕ → ℕ → Option ℕ
from_str_radix hi lo =
    if hi == b'+' then digit_value lo else pair_value (digit_value hi) (digit_value lo)

-- The chunks of two bytes, up to the first that is no number.
unfoldable pub decode_chunks : List ℕ → Result HexError (List ℕ)
unfolding digit_value
decode_chunks (hi ∷ lo ∷ rest) = do
  byte ← ok_or invalid_hex (from_str_radix hi lo)
  bytes ← decode_chunks rest
  ok (byte ∷ bytes)
decode_chunks _ = ok []

-- `decode_hex`.
unfoldable pub decode_hex : Text → Result HexError (List ℕ)
unfolding decode_chunks is_ascii_hexdigit
decode_hex value = do
  guard (length (as_bytes value) % 2 == 0) odd_length
  guard (all is_ascii_hexdigit (as_bytes value)) non_hex_digit
  decode_chunks (as_bytes value)
