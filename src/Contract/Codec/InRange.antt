-- ===== src/Contract/Codec/InRange.antt =====
-- src/contract.rs, `ProviderStatus::decode`: its index into the bytes is always in range.
use qubic_random_client.Base.{
  ℕ, zero, suc, ◌+◌, ◌*◌, ◌≤◌, ◌<◌, ◌≡◌, ◌≢◌, List, arith, inl, inr, Bool-cases, length, ltb, ◌==◌,
  ==_iff,
}
use qubic_random_client.Contract.Codec.{
  Decoded, ok, err, out_of_range, ◌>>=◌, decode, decode_counted, decode_slots, decode_slot,
  check_slot, read_slot, read_u32, read_u64, byte_at,
}

module _ {ℓ} {A : Type ℓ} where
  -- The result is no panic.
  abbrev InRange : Decoded A → Type ℓ
  InRange m = (n : ℕ) → m ≢ err (out_of_range n)

>>=-InRange :
    {A B : Type 0} (m : Decoded A) (next : A → Decoded B)
    → InRange m
    → ((a : A) → InRange (next a))
    → InRange (m >>= next)
>>=-InRange (ok a) next h k = k a
>>=-InRange (err e) next h k = λ n p. ground (arith, h n)

read_u32-InRange : (bytes : List ℕ) (offset : ℕ) → InRange (read_u32 bytes offset)
unfolding read_u32
read_u32-InRange bytes offset n h = ground arith

read_u64-InRange : (bytes : List ℕ) (offset : ℕ) → InRange (read_u64 bytes offset)
unfolding read_u64
read_u64-InRange bytes offset n h = ground arith

byte_at-InRange :
    (bytes : List ℕ) (offset : ℕ) → offset < length bytes → InRange (byte_at bytes offset)
unfolding byte_at
byte_at-InRange bytes offset l n h = ground arith

read_slot-InRange :
    (bytes : List ℕ) (index stream tier contributed : ℕ)
    → InRange (read_slot bytes index stream tier contributed)
unfolding read_slot
read_slot-InRange bytes index stream tier contributed =
    >>=-InRange _ _ (read_u64-InRange bytes (264 + index * 8)) (λ collateral.
      >>=-InRange _ _ (read_u32-InRange bytes (552 + index * 4)) (λ tick n h. ground arith))

check_slot-InRange :
    (bytes : List ℕ) (index seen stream tier contributed : ℕ)
    → InRange (check_slot bytes index seen stream tier contributed)
unfolding check_slot
check_slot-InRange bytes index seen stream tier contributed n h =
    ground (arith, read_slot-InRange bytes index stream tier contributed n)

decode_slot-InRange :
    (bytes : List ℕ) (index seen : ℕ)
    → 520 + index < length bytes
    → InRange (decode_slot bytes index seen)
unfolding decode_slot
decode_slot-InRange bytes index seen l =
    >>=-InRange _ _ (read_u32-InRange bytes (4 + index * 4)) (λ stream.
      >>=-InRange _ _ (read_u32-InRange bytes (132 + index * 4)) (λ tier.
        >>=-InRange _ _ (byte_at-InRange bytes (520 + index) l)
          (λ contributed. check_slot-InRange bytes index seen stream tier contributed)))

decode_slots-InRange :
    (bytes : List ℕ) (left index seen : ℕ)
    → 520 + index + left ≤ length bytes
    → InRange (decode_slots bytes left index seen)
unfolding decode_slots
decode_slots-InRange bytes zero index seen l = λ n h. ground arith
decode_slots-InRange bytes (suc left) index seen l =
    >>=-InRange _ _ (decode_slot-InRange bytes index seen (omega arith)) (λ slot.
      >>=-InRange _ _ (decode_slots-InRange bytes left (suc index) _ (omega arith))
        (λ slots n h. ground arith))

decode_counted-InRange :
    (bytes : List ℕ) (count : ℕ) → length bytes ≡ 680 → InRange (decode_counted bytes count)
unfolding decode_counted
decode_counted-InRange bytes count e = elim (Bool-cases (ltb 32 count)) [
  | inl l ↦ rw l (λ n h. ground arith)
  | inr l ↦ rw l (
      >>=-InRange _ _ (decode_slots-InRange bytes count 0 0 (ground arith))
        (λ slots n h. ground arith))
]

-- Whatever the bytes are, decoding them never indexes out of range.
pub decode-in_range : (bytes : List ℕ) (n : ℕ) → decode bytes ≢ err (out_of_range n)
unfolding decode
decode-in_range bytes = elim (Bool-cases (length bytes == 680)) [
  | inr e ↦ rw e (λ n h. ground arith)
  | inl e ↦ rw e (
      >>=-InRange _ _ (read_u32-InRange bytes 0)
        (λ count. decode_counted-InRange bytes count ((==_iff (length bytes) 680).0 e)))
]
