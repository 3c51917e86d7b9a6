-- ===== src/Backend/Hex/RoundTrip.antt =====
-- What is printed is read back, and nothing else is read.
use qubic_random_client.Base.{
  ℕ, ◌+◌, ◌*◌, ◌/◌, ◌%◌, ◌<◌, ◌≡◌, ◌↔◌, refl, true, List, [], ◌∷◌, ==_iff, all, All, length, map,
  arith, Text, to_ascii_lowercase,
}
use qubic_random_client.Base.Result.{ok, >>=-ok, guard-ok}
use qubic_random_client.Backend.Hex.{
  hex, nth, bytes_to_hex, is_ascii_hexdigit, decode_chunks, decode_hex,
}
use qubic_random_client.Backend.Hex.Digits.{
  digit_value-nth, nth-digit_value, hexdigit-value, from_str_radix-pair, as_bytes-hexdigits,
  as_bytes_ascii,
}

abbrev pub IsByte : ℕ → Type 0
IsByte b = b < 256

chunk-decoded :
    (c d : ℕ) (s : Text) (bytes : List ℕ)
    → is_ascii_hexdigit c ≡ true
    → is_ascii_hexdigit d ≡ true
    → decode_chunks (c ∷ d ∷ s) ≡ ok bytes
    → (b : ℕ) × (rest : List ℕ) × (bytes ≡ b ∷ rest)
      × IsByte b
      × (decode_chunks s ≡ ok rest)
      × (nth hex (b / 16) ≡ to_ascii_lowercase c)
      × (nth hex (b % 16) ≡ to_ascii_lowercase d)
unfolding decode_chunks
chunk-decoded c d s bytes hc hd e =
    let (v, ev) = hexdigit-value c hc in
    let (w, ew) = hexdigit-value d hd in
    let (lv, nv) = digit_value-nth c v ev in
    let (lw, nw) = digit_value-nth d w ew in
    let e' = rw (from_str_radix-pair c d v w ev ew) at e in
    let (rest, er, eb) = >>=-ok (decode_chunks s) _ e' in
    let q : (v * 16 + w) / 16 ≡ v = omega arith in
    let r : (v * 16 + w) % 16 ≡ w = omega arith in
    (v * 16 + w, rest, cc, omega arith, er, rw q nv, rw r nw)

decode_chunks-printed :
    (s : Text) (bytes : List ℕ)
    → length s % 2 ≡ 0
    → all is_ascii_hexdigit s ≡ true
    → decode_chunks s ≡ ok bytes
    → All IsByte bytes × (bytes_to_hex bytes ≡ map to_ascii_lowercase s)
unfolding bytes_to_hex
decode_chunks-printed [] bytes len digits e =
    let nil : bytes ≡ [] = unfold decode_chunks in cc in rw nil (tt, refl)
decode_chunks-printed (c ∷ []) bytes len digits e = absurd (omega arith)
decode_chunks-printed (c ∷ d ∷ s) bytes len digits e =
    let hc : is_ascii_hexdigit c ≡ true = ground arith in
    let hd : is_ascii_hexdigit d ≡ true = ground arith in
    let hs : all is_ascii_hexdigit s ≡ true = ground arith in
    let (b, rest, split, byte, decoded, hi, lo) = chunk-decoded c d s bytes hc hd e in
    let (later, printed) = decode_chunks-printed s rest (omega arith) hs decoded in
    rw split ((byte, later), cc)

printed-decode_chunks :
    (bytes : List ℕ) (s : Text)
    → All IsByte bytes
    → bytes_to_hex bytes ≡ map to_ascii_lowercase s
    → (length s % 2 ≡ 0)
      × (all is_ascii_hexdigit s ≡ true)
      × All (λ c. c < 128) s
      × (decode_chunks s ≡ ok bytes)
unfolding bytes_to_hex decode_chunks
printed-decode_chunks [] [] h e = (refl, refl, tt, refl)
printed-decode_chunks [] (c ∷ s) h e = cc
printed-decode_chunks (b ∷ bytes) [] h e = cc
printed-decode_chunks (b ∷ bytes) (c ∷ []) h e = cc
printed-decode_chunks (b ∷ bytes) (c ∷ d ∷ s) (hb, h) e =
    let (vc, dc, ac) = nth-digit_value c (b / 16) (omega arith) (cc) in
    let (vd, dd, ad) = nth-digit_value d (b % 16) (omega arith) (cc) in
    let (len, digits, ascii, decoded) = printed-decode_chunks bytes s h (cc) in
    let q : b / 16 * 16 + b % 16 ≡ b = omega arith in
    (
      omega arith,
      ground arith,
      (ac, (ad, ascii)),
      rw (from_str_radix-pair c d _ _ vc vd, decoded, q),
    )

-- A text is decoded as some bytes exactly when these are bytes and, up to the case of its letters,
-- it is what is printed for them; every other text, of an odd length or with a character that is no
-- hexadecimal digit, is an error.
pub decode_hex_iff :
    (text : Text) (bytes : List ℕ)
    → (decode_hex text ≡ ok bytes)
      ↔ (All IsByte bytes × (bytes_to_hex bytes ≡ map to_ascii_lowercase text))
unfolding decode_hex
decode_hex_iff text bytes = (
  λ e.
      let (len, e') = guard-ok _ _ _ e in
      let (digits, e'') = guard-ok _ _ _ e' in
      let same = as_bytes-hexdigits text digits in
      decode_chunks-printed text bytes (rw same at ((==_iff _ 0).0 len)) (rw same at digits)
        (rw same at e''),
  λ (h, e).
      let (len, digits, ascii, decoded) = printed-decode_chunks bytes text h e in
      rw (as_bytes_ascii text ascii, (==_iff _ 0).1 len, digits) decoded,
)
