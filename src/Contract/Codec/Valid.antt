-- ===== src/Contract/Codec/Valid.antt =====
-- src/contract.rs, `ProviderStatus::decode`: what a decoded status is known to be.
use qubic_random_client.Base.{
  ℕ, zero, suc, ◌+◌, ◌*◌, ◌/◌, ◌%◌, ◌≤◌, ◌≡◌, ◌≢◌, ◌⊎◌, refl, false, List, [], ◌∷◌, arith, inl, inr,
  Bool-cases, All, All-map, length, ltb, ◌==◌, if◌then◌else◌, ap, ◌∙◌, sym, ==_iff,
}
use native.Mathlib.Decide.{ℕ_discrete}
use mathlib.Core.Path.{subst}
use qubic_random_client.Contract.{ProviderSlot, ProviderStatus}
use qubic_random_client.Contract.Codec.{
  Decoded, CodecError, ok, err, ◌>>=◌, decode, decode_counted, decode_slots, decode_slot,
  check_slot, read_slot, read_u32, read_u64, byte_at, has_bit, with_bit, bit_of, collateral_offset,
  last_update_offset, streams_offset, tiers_offset, contributed_offset,
}

pub half : (x s : ℕ) → (2 * x + s % 2) / 2 ≡ x
half x s = omega arith

-- A bit that is clear after another was set is another one, and was clear before.
with_bit-other :
    (seen n m : ℕ) → has_bit (with_bit seen n) m ≡ false → (n ≢ m) × (has_bit seen m ≡ false)
with_bit-other seen zero zero h = absurd (ground arith)
with_bit-other seen zero (suc m) h = (omega arith, ground arith)
with_bit-other seen (suc n) zero h = (omega arith, ground arith)
with_bit-other seen (suc n) (suc m) h =
    let below = with_bit-other (seen / 2) n m (rw half at h) in
    (λ e. below.0 (omega arith), below.1)

module _ {ℓ κ} {A : Type ℓ} {B : Type κ} where
  >>=-ok :
      (m : Decoded A) (next : A → Decoded B) (b : B)
      → (m >>= next) ≡ ok b
      → (a : A) × (m ≡ ok a) × (next a ≡ ok b)
  >>=-ok (ok a) next b h = (a, refl, h)
  >>=-ok (err e) next b h = cc

ok-injective : {A : Type 0} (a b : A) → ok a ≡ ok b → a ≡ b
ok-injective a b h = ap (λ d. elim d [ ok x ↦ x | err _ ↦ a ]) h

-- Two slots are not of the same stream and tier.
abbrev pub Differ : ProviderSlot → ProviderSlot → Type 0
Differ s t = (s.key.stream ≢ t.key.stream) ⊎ (s.key.collateral_tier ≢ t.key.collateral_tier)

abbrev pub AllDiffer : List ProviderSlot → Type 0
AllDiffer [] = Unit {0}
AllDiffer (s ∷ ss) = All (Differ s) ss × AllDiffer ss

bits-Differ :
    (s t : ProviderSlot)
    → bit_of s.key.stream s.key.collateral_tier ≢ bit_of t.key.stream t.key.collateral_tier
    → Differ s t
bits-Differ s t n = elim (ℕ_discrete s.key.stream t.key.stream) [
  | no other ↦ inl other
  | yes same ↦ inr (λ e. n (omega (arith, same, e)))
]

err-not_ok : {A : Type 0} {e : CodecError} {a : A} → ◌≡◌ {A = Decoded A} (err e) (ok a) → ⊥
err-not_ok h = cc

ltb-bound : (count : ℕ) → ltb 32 count ≡ false → count ≤ 32
ltb-bound count h = ground arith

-- What the bytes say of a slot at an index, and the ranges that the contract allows.
pub record IsSlotAt (bytes : List ℕ) (index : ℕ) (s : ProviderSlot) : Type 0 where
  pub stream : read_u32 bytes (streams_offset + index * 4) ≡ ok s.key.stream
  pub tier : read_u32 bytes (tiers_offset + index * 4) ≡ ok s.key.collateral_tier
  pub collateral : read_u64 bytes (collateral_offset + index * 8) ≡ ok s.locked_collateral
  pub flag :
      byte_at bytes (contributed_offset + index) ≡ ok (if s.contributed_to_entropy then 1 else 0)
  pub tick : read_u32 bytes (last_update_offset + index * 4) ≡ ok s.last_update_tick
  pub stream_valid : s.key.stream ≤ 2
  pub tier_valid : s.key.collateral_tier ≤ 9

abbrev pub AreSlotsFrom : List ℕ → ℕ → List ProviderSlot → Type 0
AreSlotsFrom bytes index [] = Unit {0}
AreSlotsFrom bytes index (s ∷ ss) = IsSlotAt bytes index s × AreSlotsFrom bytes (suc index) ss

abbrev pub IsClearIn : ℕ → ProviderSlot → Type 0
IsClearIn seen s = has_bit seen (bit_of s.key.stream s.key.collateral_tier) ≡ false

flag_byte : (c : ℕ) → c ≤ 1 → c ≡ (if c == 1 then 1 else 0)
flag_byte c l = ground arith

read_slot-ok :
    (bytes : List ℕ) (index stream tier contributed : ℕ) (s : ProviderSlot)
    → read_u32 bytes (streams_offset + index * 4) ≡ ok stream
    → read_u32 bytes (tiers_offset + index * 4) ≡ ok tier
    → byte_at bytes (contributed_offset + index) ≡ ok contributed
    → stream ≤ 2
    → tier ≤ 9
    → contributed ≤ 1
    → read_slot bytes index stream tier contributed ≡ ok s
    → IsSlotAt bytes index s × (s.key ≡ record { stream = stream; collateral_tier = tier })
unfolding read_slot
read_slot-ok bytes index stream tier contributed s hs ht hc ls lt lc h =
    let (collateral, ec, h') = >>=-ok (read_u64 bytes (collateral_offset + index * 8)) _ s h in
    let (tick, et, h'') = >>=-ok (read_u32 bytes (last_update_offset + index * 4)) _ s h' in
    let read : ProviderSlot = record {
      key = record { stream = stream; collateral_tier = tier };
      locked_collateral = collateral;
      contributed_to_entropy = contributed == 1;
      last_update_tick = tick;
    } in
    subst
      (λ r. IsSlotAt bytes index r × (r.key ≡ record { stream = stream; collateral_tier = tier }))
      (ok-injective read s h'')
      (
        record {
          stream = hs;
          tier = ht;
          collateral = ec;
          flag = hc ∙ ap ok (flag_byte contributed lc);
          tick = et;
          stream_valid = ls;
          tier_valid = lt;
        },
        refl,
      )

check_slot-ok :
    (bytes : List ℕ) (index seen stream tier contributed : ℕ) (s : ProviderSlot)
    → check_slot bytes index seen stream tier contributed ≡ ok s
    → (stream ≤ 2)
      × (tier ≤ 9)
      × (contributed ≤ 1)
      × (has_bit seen (bit_of stream tier) ≡ false)
      × (read_slot bytes index stream tier contributed ≡ ok s)
unfolding check_slot
check_slot-ok bytes index seen stream tier contributed s h = ground arith

decode_slot-ok :
    (bytes : List ℕ) (index seen : ℕ) (s : ProviderSlot)
    → decode_slot bytes index seen ≡ ok s
    → IsSlotAt bytes index s × IsClearIn seen s
unfolding decode_slot
decode_slot-ok bytes index seen s h =
    let (stream, hs, h1) = >>=-ok (read_u32 bytes (streams_offset + index * 4)) _ s h in
    let (tier, ht, h2) = >>=-ok (read_u32 bytes (tiers_offset + index * 4)) _ s h1 in
    let (contributed, hc, h3) = >>=-ok (byte_at bytes (contributed_offset + index)) _ s h2 in
    let (ls, lt, lc, clear, read) = check_slot-ok bytes index seen stream tier contributed s h3 in
    let (valid, key) = read_slot-ok bytes index stream tier contributed s hs ht hc ls lt lc read in
    (valid, subst (λ k. has_bit seen (bit_of k.stream k.collateral_tier) ≡ false) (sym key) clear)

-- Slots that are clear once a slot's bit is set differ from it, and were clear before.
clear-Differ :
    (seen : ℕ) (s t : ProviderSlot)
    → IsClearIn (with_bit seen (bit_of s.key.stream s.key.collateral_tier)) t
    → Differ s t × IsClearIn seen t
clear-Differ seen s t h =
    let other = with_bit-other seen _ _ h in (bits-Differ s t other.0, other.1)

decode_slots-ok :
    (bytes : List ℕ) (left index seen : ℕ) (ss : List ProviderSlot)
    → decode_slots bytes left index seen ≡ ok ss
    → (length ss ≡ left) × AreSlotsFrom bytes index ss × AllDiffer ss × All (IsClearIn seen) ss
unfolding decode_slots
decode_slots-ok bytes zero index seen [] h = (refl, tt, tt, tt)
decode_slots-ok bytes zero index seen (s ∷ ss) h = absurd (ground arith)
decode_slots-ok bytes (suc left) index seen ss h =
    let (s, hs, h1) = >>=-ok (decode_slot bytes index seen) _ ss h in
    let seen' = with_bit seen (bit_of s.key.stream s.key.collateral_tier) in
    let (rest, hr, h2) = >>=-ok (decode_slots bytes left (suc index) seen') _ ss h1 in
    let (size, slots, differ, clear) = decode_slots-ok bytes left (suc index) seen' rest hr in
    let (at, first) = decode_slot-ok bytes index seen s hs in
    let apart =
      All-map (IsClearIn seen') (λ t. Differ s t × IsClearIn seen t) (clear-Differ seen s) rest
        clear in
    subst
      (λ l.
        (length l ≡ suc left) × AreSlotsFrom bytes index l × AllDiffer l × All (IsClearIn seen) l)
      (ok-injective (s ∷ rest) ss h2)
      (
        ap suc size,
        (at, slots),
        (All-map _ (Differ s) (λ t p. p.0) rest apart, differ),
        (first, All-map _ (IsClearIn seen) (λ t p. p.1) rest apart),
      )

-- What a decoded status is: the bytes are as many as the layout has, their count is that of the
-- slots, at most 32, each slot is what the bytes say at its index, its stream and tier are in range,
-- and no two slots are of the same stream and tier.
pub record IsStatus (bytes : List ℕ) (status : ProviderStatus) : Type 0 where
  pub size : length bytes ≡ 680
  pub count : read_u32 bytes 0 ≡ ok (length status.slots)
  pub few : length status.slots ≤ 32
  pub slots : AreSlotsFrom bytes 0 status.slots
  pub distinct : AllDiffer status.slots

decode_counted-ok :
    (bytes : List ℕ) (count : ℕ) (status : ProviderStatus)
    → length bytes ≡ 680
    → read_u32 bytes 0 ≡ ok count
    → decode_counted bytes count ≡ ok status
    → IsStatus bytes status
unfolding decode_counted
decode_counted-ok bytes count status n c h = elim (Bool-cases (ltb 32 count)) [
  | inl l ↦ absurd (err-not_ok (rw l at h))
  | inr l ↦
      let (ss, hs, h1) = >>=-ok (decode_slots bytes count 0 0) _ status (rw l at h) in
      let (size, slots, differ, clear) = decode_slots-ok bytes count 0 0 ss hs in
      subst (IsStatus bytes) (ok-injective (record { slots = ss }) status h1) (record {
        size = n;
        count = c ∙ ap ok (sym size);
        few = omega (arith, ltb-bound count l);
        slots = slots;
        distinct = differ;
      })
]

-- A status that is decoded without an error is what the bytes say, slot by slot, in the layout's
-- size, with at most 32 slots, all in range, no two of them of the same stream and tier.
pub decode-IsStatus :
    (bytes : List ℕ) (status : ProviderStatus) → decode bytes ≡ ok status → IsStatus bytes status
unfolding decode
decode-IsStatus bytes status h = elim (Bool-cases (length bytes == 680)) [
  | inr n ↦ absurd (err-not_ok (rw n at h))
  | inl n ↦
      let (count, hc, h1) = >>=-ok (read_u32 bytes 0) _ status (rw n at h) in
      decode_counted-ok bytes count status ((==_iff (length bytes) 680).0 n) hc h1
]
