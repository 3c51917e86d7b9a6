-- ===== src/Scenarios/Statuses.antt =====
-- Examples of the status codec of src/contract.rs.
use qubic_random_client.Base.{ℕ, ◌≡◌, ◌≢◌, ◌↔◌, refl, List, [], ◌∷◌, ◌++◌, true, replicate}
use qubic_random_client.Contract.{ProviderStatus}
use qubic_random_client.Contract.Codec.{
  ok, err, out_of_range, decode, decode_counted, decode_slots, decode_slot, check_slot, read_slot,
  read_u32, read_u64, byte_at,
}
use qubic_random_client.Contract.Codec.Valid.{IsStatus}
use qubic_random_client.Contract.Codec.Accepts.{decode_iff}
use qubic_random_client.Contract.Codec.InRange.{decode-in_range}

-- One slot, of stream 1 and tier 3, in the layout's 680 bytes.
abbrev one_slot : List ℕ
one_slot =
    (1 ∷ 0 ∷ 0 ∷ 0 ∷ [])
    ++ (1 ∷ replicate 127 0)
    ++ (3 ∷ replicate 131 0)
    ++ (16 ∷ 39 ∷ replicate 254 0)
    ++ (1 ∷ replicate 31 0)
    ++ (106 ∷ replicate 127 0)

abbrev one_status : ProviderStatus
one_status = record {
  slots =
      record {
        key = record { stream = 1; collateral_tier = 3 };
        locked_collateral = 10_000;
        contributed_to_entropy = true;
        last_update_tick = 106;
      }
      ∷ [];
}

decodes : decode one_slot ≡ ok one_status
unfolding decode decode_counted decode_slots decode_slot check_slot read_slot read_u32 read_u64
    byte_at
decodes = refl

decode_iff_example : (decode one_slot ≡ ok one_status) ↔ IsStatus one_slot one_status
decode_iff_example = decode_iff one_slot one_status

decode-in_range_example : decode one_slot ≢ err (out_of_range 520)
decode-in_range_example = decode-in_range one_slot 520
