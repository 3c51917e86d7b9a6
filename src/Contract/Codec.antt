-- ===== src/Contract/Codec.antt =====
-- src/contract.rs: `ProviderStatus::decode`, which reads the status that the contract reports.
pub mod Valid
pub mod Accepts
pub mod InRange
use qubic_random_client.Base.{
  ℕ, zero, suc, ◌+◌, ◌*◌, ◌/◌, ◌%◌, Bool, List, [], ◌∷◌, ltb, leb, ◌==◌, if◌then◌else◌, length,
  take, drop, not,
}
use qubic_random_client.Contract.{SlotKey, ProviderSlot, ProviderStatus}

-- `ContractCodecError`, one constructor for each message, and the panic of an index out of range.
pub data CodecError : Type 0 where
  wrong_size too_many missing_u32 missing_u64 : ℕ → CodecError
  invalid_stream invalid_tier invalid_flag : ℕ → ℕ → CodecError
  duplicate : ℕ → ℕ → ℕ → CodecError
  out_of_range : ℕ → CodecError

-- `Result<A, ContractCodecError>`.
pub data Decoded {ℓ} (A : Type ℓ) : Type ℓ where
  ok : A → Decoded A
  err : CodecError → Decoded A

infixl 5 ◌>>=◌
abbrev pub ◌>>=◌ {ℓ κ} : {A : Type ℓ} {B : Type κ} → Decoded A → (A → Decoded B) → Decoded B
ok a >>= next = next a
err e >>= next = err e

abbrev pub provider_status_size : ℕ
provider_status_size = 680

abbrev pub max_provider_slots : ℕ
max_provider_slots = 32

abbrev pub streams_offset : ℕ
streams_offset = 4

abbrev pub tiers_offset : ℕ
tiers_offset = 132

abbrev pub collateral_offset : ℕ
collateral_offset = 264

abbrev pub contributed_offset : ℕ
contributed_offset = 520

abbrev pub last_update_offset : ℕ
last_update_offset = 552

-- `from_le_bytes`.
abbrev pub from_le_bytes : List ℕ → ℕ
from_le_bytes [] = 0
from_le_bytes (b ∷ bs) = b + 256 * from_le_bytes bs

abbrev slice : List ℕ → ℕ → ℕ → List ℕ
slice bytes offset size = take size (drop offset bytes)

-- `read_u32`.
unfoldable pub read_u32 : List ℕ → ℕ → Decoded ℕ
read_u32 bytes offset =
    if leb (offset + 4) (length bytes)
    then ok (from_le_bytes (slice bytes offset 4))
    else err (missing_u32 offset)

-- `read_u64`.
unfoldable pub read_u64 : List ℕ → ℕ → Decoded ℕ
read_u64 bytes offset =
    if leb (offset + 8) (length bytes)
    then ok (from_le_bytes (slice bytes offset 8))
    else err (missing_u64 offset)

-- `bytes[offset]`.
unfoldable pub byte_at : List ℕ → ℕ → Decoded ℕ
byte_at bytes offset =
    if ltb offset (length bytes)
    then ok (from_le_bytes (slice bytes offset 1))
    else err (out_of_range offset)

-- `seen & (1 << n) != 0`.
abbrev pub has_bit : ℕ → ℕ → Bool
has_bit seen zero = seen % 2 == 1
has_bit seen (suc n) = has_bit (seen / 2) n

-- `seen | (1 << n)`.
abbrev pub with_bit : ℕ → ℕ → ℕ
with_bit seen zero = if seen % 2 == 1 then seen else seen + 1
with_bit seen (suc n) = 2 * with_bit (seen / 2) n + seen % 2

-- The index of the bit `slot_bit`.
abbrev pub bit_of : ℕ → ℕ → ℕ
bit_of stream tier = stream * 10 + tier

-- The end of the body of the loop of `decode`.
unfoldable pub read_slot : List ℕ → ℕ → ℕ → ℕ → ℕ → Decoded ProviderSlot
unfolding read_u32 read_u64
read_slot bytes index stream tier contributed = do
  collateral ← read_u64 bytes (collateral_offset + index * 8)
  tick ← read_u32 bytes (last_update_offset + index * 4)
  ok (record {
    key = record { stream = stream; collateral_tier = tier };
    locked_collateral = collateral;
    contributed_to_entropy = contributed == 1;
    last_update_tick = tick;
  })

-- Its tests.
unfoldable pub check_slot : List ℕ → ℕ → ℕ → ℕ → ℕ → ℕ → Decoded ProviderSlot
unfolding read_slot
check_slot bytes index seen stream tier contributed =
    if ltb 2 stream
    then err (invalid_stream index stream)
    else if ltb 9 tier
    then err (invalid_tier index tier)
    else if ltb 1 contributed
    then err (invalid_flag index contributed)
    else if has_bit seen (bit_of stream tier)
    then err (duplicate index stream tier)
    else read_slot bytes index stream tier contributed

-- The body of the loop of `decode`.
unfoldable pub decode_slot : List ℕ → ℕ → ℕ → Decoded ProviderSlot
unfolding read_u32 byte_at check_slot
decode_slot bytes index seen = do
  stream ← read_u32 bytes (streams_offset + index * 4)
  tier ← read_u32 bytes (tiers_offset + index * 4)
  contributed ← byte_at bytes (contributed_offset + index)
  check_slot bytes index seen stream tier contributed

-- The loop, with the number of slots left.
unfoldable pub decode_slots : List ℕ → ℕ → ℕ → ℕ → Decoded (List ProviderSlot)
unfolding decode_slot
decode_slots bytes zero index seen = ok []
decode_slots bytes (suc left) index seen = do
  slot ← decode_slot bytes index seen
  slots ←
      decode_slots bytes left (suc index)
        (with_bit seen (bit_of slot.key.stream slot.key.collateral_tier))
  ok (slot ∷ slots)

unfoldable pub decode_counted : List ℕ → ℕ → Decoded ProviderStatus
unfolding decode_slots
decode_counted bytes count =
    if ltb max_provider_slots count
    then err (too_many count)
    else do slots ← decode_slots bytes count 0 0; ok (record { slots = slots })

-- `ProviderStatus::decode`.
unfoldable pub decode : List ℕ → Decoded ProviderStatus
unfolding read_u32 decode_counted
decode bytes =
    if not (length bytes == provider_status_size)
    then err (wrong_size (length bytes))
    else do count ← read_u32 bytes 0; decode_counted bytes count
