-- ===== src/Contract/Codec/Accepts.antt =====
-- src/contract.rs, `ProviderStatus::decode`: every status that the layout allows is decoded.
use qubic_random_client.Base.{
  ℕ, zero, suc, ◌/◌, ◌≤◌, ◌≡◌, ◌≢◌, ◌↔◌, refl, Bool, true, false, List, [], ◌∷◌, arith, inl, inr,
  All, length, ltb, ◌==◌, if◌then◌else◌, ap, ==_iff,
}
use qubic_random_client.Contract.{ProviderSlot, ProviderStatus}
use qubic_random_client.Contract.Codec.{
  ok, decode, decode_counted, decode_slots, decode_slot, check_slot, read_slot, has_bit, with_bit,
  bit_of,
}
use qubic_random_client.Contract.Codec.Valid.{
  IsSlotAt, AreSlotsFrom, IsStatus, Differ, AllDiffer, IsClearIn, half, decode-IsStatus,
}

with_bit-clear :
    (seen n m : ℕ) → n ≢ m → has_bit seen m ≡ false → has_bit (with_bit seen n) m ≡ false
with_bit-clear seen zero zero d h = absurd (d refl)
with_bit-clear seen zero (suc m) d h = ground arith
with_bit-clear seen (suc n) zero d h = ground arith
with_bit-clear seen (suc n) (suc m) d h =
    rw half (with_bit-clear (seen / 2) n m (λ e. d (ap suc e)) h)

flag_back : (b : Bool) → ((if b then 1 else 0) == 1) ≡ b
flag_back true = refl
flag_back false = refl

flag_small : (b : Bool) → ltb 1 (if b then 1 else 0) ≡ false
flag_small true = refl
flag_small false = refl

check_slot-accepts :
    (bytes : List ℕ) (index seen : ℕ) (s : ProviderSlot)
    → IsSlotAt bytes index s
    → IsClearIn seen s
    → check_slot bytes index seen s.key.stream s.key.collateral_tier
        (if s.contributed_to_entropy then 1 else 0)
      ≡ ok s
unfolding check_slot read_slot
check_slot-accepts bytes index seen s v c =
    let stream : ltb 2 s.key.stream ≡ false = ground (arith, v.stream_valid) in
    let tier : ltb 9 s.key.collateral_tier ≡ false = ground (arith, v.tier_valid) in
    rw
      (
        stream,
        tier,
        flag_small s.contributed_to_entropy,
        c,
        read_slot,
        v.collateral,
        v.tick,
        flag_back s.contributed_to_entropy,
      )
      refl

decode_slot-accepts :
    (bytes : List ℕ) (index seen : ℕ) (s : ProviderSlot)
    → IsSlotAt bytes index s
    → IsClearIn seen s
    → decode_slot bytes index seen ≡ ok s
unfolding decode_slot
decode_slot-accepts bytes index seen s v c =
    rw (v.stream, v.tier, v.flag) (check_slot-accepts bytes index seen s v c)

-- The bits of two slots in range that differ are different.
Differ-bits :
    (s t : ProviderSlot)
    → s.key.collateral_tier ≤ 9
    → t.key.collateral_tier ≤ 9
    → Differ s t
    → bit_of s.key.stream s.key.collateral_tier ≢ bit_of t.key.stream t.key.collateral_tier
Differ-bits s t ls lt (inl d) e = d (omega (arith, e))
Differ-bits s t ls lt (inr d) e = d (omega (arith, e))

rest-clear :
    (bytes : List ℕ) (index seen : ℕ) (s : ProviderSlot) (ss : List ProviderSlot)
    → s.key.collateral_tier ≤ 9
    → AreSlotsFrom bytes index ss
    → All (Differ s) ss
    → All (IsClearIn seen) ss
    → All (IsClearIn (with_bit seen (bit_of s.key.stream s.key.collateral_tier))) ss
rest-clear bytes index seen s [] l v d c = tt
rest-clear bytes index seen s (t ∷ ts) l v d c = (
  with_bit-clear seen (bit_of s.key.stream s.key.collateral_tier)
      (bit_of t.key.stream t.key.collateral_tier) (Differ-bits s t l v.0.tier_valid d.0) c.0,
  rest-clear bytes (suc index) seen s ts l v.1 d.1 c.1,
)

decode_slots-accepts :
    (bytes : List ℕ) (index seen : ℕ) (ss : List ProviderSlot)
    → AreSlotsFrom bytes index ss
    → AllDiffer ss
    → All (IsClearIn seen) ss
    → decode_slots bytes (length ss) index seen ≡ ok ss
unfolding decode_slots
decode_slots-accepts bytes index seen [] v d c = refl
decode_slots-accepts bytes index seen (s ∷ ss) v d c =
    rw
      (
        decode_slot-accepts bytes index seen s v.0 c.0,
        decode_slots-accepts bytes (suc index)
            (with_bit seen (bit_of s.key.stream s.key.collateral_tier)) ss v.1 d.1
            (rest-clear bytes (suc index) seen s ss v.0.tier_valid v.1 d.0 c.1),
      )
      refl

zero-clear : (m : ℕ) → has_bit 0 m ≡ false
zero-clear zero = refl
zero-clear (suc m) = zero-clear m

nothing_seen : (ss : List ProviderSlot) → All (IsClearIn 0) ss
nothing_seen [] = tt
nothing_seen (s ∷ ss) = (zero-clear (bit_of s.key.stream s.key.collateral_tier), nothing_seen ss)

decode-accepts :
    (bytes : List ℕ) (status : ProviderStatus) → IsStatus bytes status → decode bytes ≡ ok status
unfolding decode decode_counted
decode-accepts bytes status v =
    let size : (length bytes == 680) ≡ true = (==_iff (length bytes) 680).1 v.size in
    let few : ltb 32 (length status.slots) ≡ false = ground (arith, v.few) in
    rw
      (
        size,
        v.count,
        decode_counted,
        few,
        decode_slots-accepts bytes 0 0 status.slots v.slots v.distinct (nothing_seen status.slots),
      )
      refl

-- A status is decoded without an error exactly when it is what the bytes say, slot by slot, in the
-- layout's size, with at most 32 slots, all in range, no two of them of the same stream and tier.
pub decode_iff :
    (bytes : List ℕ) (status : ProviderStatus) → (decode bytes ≡ ok status) ↔ IsStatus bytes status
decode_iff bytes status = (decode-IsStatus bytes status, decode-accepts bytes status)
