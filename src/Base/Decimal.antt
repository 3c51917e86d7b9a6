-- ===== src/Base/Decimal.antt =====
-- Unsigned numbers written and read in decimal, as Rust's `Display` and `str::parse` do.
use Prim.Native.Nat.{ℕ, zero, suc, ◌+◌, ◌-◌, ◌*◌, ◌/◌, ◌%◌, ◌≤◌, ◌<◌}
use mathlib.Core.Path.{◌≡◌, refl, ◌∙◌}
use mathlib.Core.List.{[], ◌∷◌, ◌++◌}
use mathlib.Core.Logic.{inl, inr}
use mathlib.Core.Option.{Option, none, some}
use native.Mathlib.Omega.{arith}
use qubic_random_client.Base.Tests.{ltb, leb, ◌==◌, if◌then◌else◌, Bool-cases, ltb→lt}
use qubic_random_client.Base.Texts.{Text, between}

-- The number has fewer digits than the fuel, which is more than the number itself.
unfoldable pub digits : ℕ → ℕ → Text
digits zero n = []
digits (suc f) n =
    let front = digits f (n / 10) in
    if ltb n 10 then (48 + n) ∷ [] else front ++ ((48 + n % 10) ∷ [])

-- `ToString::to_string` of an unsigned number.
unfoldable pub decimal : ℕ → Text
unfolding digits
decimal n = digits (suc n) n

-- One digit after the other; a digit that is none, or a value above the maximum, is an error.
unfoldable pub parse_digits : ℕ → ℕ → Text → Option ℕ
parse_digits limit acc [] = some acc
parse_digits limit acc (c ∷ s) =
    if between b'0' b'9' c
    then if leb (acc * 10 + (c - 48)) limit
      then parse_digits limit (acc * 10 + (c - 48)) s
      else none
    else none

-- `str::parse` for the unsigned type whose greatest value is the limit.
unfoldable pub parse_unsigned : ℕ → Text → Option ℕ
unfolding parse_digits
parse_unsigned limit [] = none
parse_unsigned limit (c ∷ []) = parse_digits limit 0 (c ∷ [])
parse_unsigned limit (c ∷ d ∷ s) = parse_digits limit 0 (if c == b'+' then d ∷ s else c ∷ d ∷ s)

parse_digits-append :
    (limit acc : ℕ) (s t : Text) (n : ℕ)
    → parse_digits limit acc s ≡ some n
    → parse_digits limit acc (s ++ t) ≡ parse_digits limit n t
unfolding parse_digits
parse_digits-append limit acc [] t n h = ground arith
parse_digits-append limit acc (c ∷ s) t n h =
    ground (arith, parse_digits-append limit (acc * 10 + (c - 48)) s t n)

parse_digits-digits :
    (limit f n : ℕ) → n < f → n ≤ limit → parse_digits limit 0 (digits f n) ≡ some n
unfolding digits
parse_digits-digits limit zero n h hl = elim h [ ]
parse_digits-digits limit (suc f) n h hl = elim (Bool-cases (ltb n 10)) [
  | inl small ↦ rw small (unfold parse_digits in ground arith)
  | inr large ↦ rw large (
      parse_digits-append limit 0 (digits f (n / 10)) ((48 + n % 10) ∷ []) (n / 10)
        (parse_digits-digits limit f (n / 10) (ground arith) (omega arith))
      ∙ unfold parse_digits in ground arith)
]

-- What is read is in the type's range.
pub parse_digits-le :
    (limit acc : ℕ) (s : Text) (n : ℕ) → acc ≤ limit → parse_digits limit acc s ≡ some n → n ≤ limit
unfolding parse_digits
parse_digits-le limit acc [] n h e = ground arith
parse_digits-le limit acc (c ∷ s) n h e =
    ground (arith, parse_digits-le limit (acc * 10 + (c - 48)) s n)

pub parse_unsigned-le : (limit : ℕ) (s : Text) {n : ℕ} → parse_unsigned limit s ≡ some n → n ≤ limit
unfolding parse_unsigned
parse_unsigned-le limit [] e = cc
parse_unsigned-le limit (c ∷ []) {n} e = parse_digits-le limit 0 (c ∷ []) n (omega arith) e
parse_unsigned-le limit (c ∷ d ∷ s) {n} e =
    parse_digits-le limit 0 (if c == b'+' then d ∷ s else c ∷ d ∷ s) n (omega arith) e

-- The first character is a digit, so it is no sign.
abbrev StartsWithDigit : Text → Type 0
StartsWithDigit [] = ⊥
StartsWithDigit (c ∷ s) = (b'0' ≤ c) × (c ≤ b'9')

StartsWithDigit-append : (s t : Text) → StartsWithDigit s → StartsWithDigit (s ++ t)
StartsWithDigit-append [] t h = elim h [ ]
StartsWithDigit-append (c ∷ s) t h = h

digits-StartsWithDigit : (f n : ℕ) → n < f → StartsWithDigit (digits f n)
unfolding digits
digits-StartsWithDigit zero n h = elim h [ ]
digits-StartsWithDigit (suc f) n h = elim (Bool-cases (ltb n 10)) [
  | inl small ↦ rw small (omega (arith, ltb→lt n 10 small))
  | inr large ↦ rw large (
      StartsWithDigit-append (digits f (n / 10)) ((48 + n % 10) ∷ [])
        (digits-StartsWithDigit f (n / 10) (ground arith)))
]

parse_unsigned-parse_digits :
    (limit : ℕ) (s : Text) → StartsWithDigit s → parse_unsigned limit s ≡ parse_digits limit 0 s
unfolding parse_unsigned
parse_unsigned-parse_digits limit [] h = elim h [ ]
parse_unsigned-parse_digits limit (c ∷ []) h = refl
parse_unsigned-parse_digits limit (c ∷ d ∷ s) (lo, hi) = elim (Bool-cases (c == b'+')) [
  | inl sign ↦ absurd (ground arith)
  | inr digit ↦ rw digit refl
]

-- A number of the type is read back from its decimal digits.
pub parse_unsigned-decimal : (limit n : ℕ) → n ≤ limit → parse_unsigned limit (decimal n) ≡ some n
unfolding decimal
parse_unsigned-decimal limit n h =
    parse_unsigned-parse_digits limit _ (digits-StartsWithDigit (suc n) n (omega arith))
    ∙ parse_digits-digits limit (suc n) n (omega arith) h
