-- ===== src/Backend/Hex/Digits.antt =====
-- One hexadecimal digit, one chunk of two, and the bytes of a text of digits.
use qubic_random_client.Base.{
  ℕ, ◌+◌, ◌-◌, ◌*◌, ◌<◌, ◌≡◌, refl, true, [], ◌∷◌, some, ltb, ◌==◌, ==_iff, if◌then◌else◌, all, All,
  arith, Text, as_bytes, to_ascii_lowercase, passes_under, passes_under→true,
}
use qubic_random_client.Backend.Hex.{hex, nth, is_ascii_hexdigit, digit_value, from_str_radix}

-- The table's entry, as arithmetic.
abbrev hex_char : ℕ → ℕ
hex_char n = if ltb n 10 then 48 + n else 87 + n

hex_table : passes_under (λ n. nth hex n == hex_char n) 16 ≡ true
unfolding passes_under
hex_table = refl

nth-hex : (n : ℕ) → n < 16 → nth hex n ≡ hex_char n
nth-hex n h = (==_iff _ (hex_char n)).0 (passes_under→true _ 16 n h hex_table)

-- A digit and its value determine one another, up to the case of the letter.
pub digit_value-nth :
    (c v : ℕ) → digit_value c ≡ some v → (v < 16) × (nth hex v ≡ to_ascii_lowercase c)
unfolding digit_value to_ascii_lowercase
digit_value-nth c v h = let b : v < 16 = ground arith in (b, rw (nth-hex v b) (ground arith))

pub nth-digit_value :
    (c v : ℕ)
    → v < 16
    → nth hex v ≡ to_ascii_lowercase c
    → (digit_value c ≡ some v) × (is_ascii_hexdigit c ≡ true) × (c < 128)
unfolding digit_value to_ascii_lowercase is_ascii_hexdigit
nth-digit_value c v b h =
    let e : hex_char v ≡ to_ascii_lowercase c = rw (nth-hex v b) at h in
    (ground arith, ground arith, ground arith)

pub hexdigit-value : (c : ℕ) → is_ascii_hexdigit c ≡ true → (v : ℕ) × (digit_value c ≡ some v)
unfolding digit_value is_ascii_hexdigit
hexdigit-value c h =
    (if ltb c 58 then c - 48 else if ltb 96 c then c - 97 + 10 else c - 65 + 10, ground arith)

-- Two digits are the number that they print.
pub from_str_radix-pair :
    (c d v w : ℕ)
    → digit_value c ≡ some v
    → digit_value d ≡ some w
    → from_str_radix c d ≡ some (v * 16 + w)
unfolding digit_value
from_str_radix-pair c d v w h k = ground arith

-- A text whose bytes are digits is its own bytes.
pub as_bytes-hexdigits : (s : Text) → all is_ascii_hexdigit (as_bytes s) ≡ true → as_bytes s ≡ s
unfolding as_bytes is_ascii_hexdigit
as_bytes-hexdigits [] h = refl
as_bytes-hexdigits (c ∷ s) h = ground (arith, as_bytes-hexdigits s)

pub as_bytes_ascii : (s : Text) → All (λ c. c < 128) s → as_bytes s ≡ s
unfolding as_bytes
as_bytes_ascii [] h = refl
as_bytes_ascii (c ∷ s) (lt, h) = ground (arith, as_bytes_ascii s h)
