-- ===== src/Backend/Lawful.antt =====
-- What every backend promises to the engine.
pub mod Service
pub mod Node
pub mod Light
pub mod Three
use qubic_random_client.Base.{
  ℕ, ◌≤◌, ◌<◌, ◌≡◌, ◌≢◌, ◌⊎◌, refl, sym, ap, ◌∙◌, Bool, true, false, not, List, [], ◌∷◌, Option,
  none, some, ◌==◌, leb, leb→le, ltb, if◌then◌else◌, All, arith, Text, codes, trim, is_empty,
  parse_unsigned, parse_unsigned-le, u32_max, max, Bool-cases, Option-cases, inl, inr,
}
use mathlib.Core.Path.{subst}
use qubic_random_client.Base.Result.{
  Result, ok, err, map_err, ok_or, >>=-ok, guard-ok, ok_or-ok, map_err-ok,
}
use qubic_random_client.Json.{ℤ, pos, negsuc, Value, get, as_u64, as_str}
use qubic_random_client.Bob.{extract_result, extract_u64_field, then_get, or_else}
use qubic_random_client.Http.{
  HttpError, request_failed, url_for, no_payload, Network, Payload, fetch, max_response_bytes,
}
use qubic_random_client.Http.Bounded.{Carries, concat, read_json_iff}
use qubic_random_client.Backend.{TickInfo, TickTransactions}
use qubic_random_client.Backend.Clients.{
  BackendError, status_failed, NetworkBackend, ContractFunctionRequest, validate_transaction_id,
  from_bool, missing_field, field_out_of_range,
}
use qubic_random_client.Backend.Rpc.{
  Wire, RpcBackend, TickInfoResponse, rpc_tick_info, rpc_backend, normalize_rpc_tick_duration_ms,
}
use qubic_random_client.Backend.BobNode.{
  BobBackend, Rounds, Decoder, checked_u32_field, read_status, status_fields, bob_result, fits_u32,
  optional_u32_field, unwrap_or, read_broadcast, tick_duration, bob_backend,
}
use qubic_random_client.Backend.Qln.{
  LightNode, QlnTickFallback, GetStatusResponse, TickStatus, qln_backend, normalize_qln_tick_info,
  next_fallback, status_of,
}
use qubic_random_client.Backend.Qln.Digests.{AreDigests, read_tick_transactions_iff}

-- What the engine computes with: 32-bit numbers, and a tick that takes time.
pub record InRange (info : TickInfo) : Type 0 where
  pub epoch : info.epoch ≤ u32_max
  pub tick : info.tick ≤ u32_max
  pub initial_tick : info.initial_tick ≤ u32_max
  pub duration : (1 ≤ info.tick_duration_ms) × (info.tick_duration_ms ≤ u32_max)

-- Digests, if any are told, are those of a tick: 32 bytes each, none zero or twice there, and some
-- exactly if there are transactions.
abbrev pub Consistent : Bool → Option (List (List ℕ)) → Type 0
Consistent has none = Unit
Consistent has (some digests) = AreDigests [] digests × (has ≡ not (is_empty digests))

-- The trait's contract, for the states that an invariant describes.
pub record IsLawful {S : Type 0} (Inv : S → Type 0) (b : NetworkBackend S) : Type 0 where
  pub tick_info : (s : S) → Inv s → Inv (b.tick_info s).1
  pub others :
      (s : S) (tick : ℕ) (request : ContractFunctionRequest) (bytes : List ℕ)
      → Inv s
      → Inv (b.tick_has_transactions s tick).1
        × Inv (b.query_contract_function s request).1
        × Inv (b.broadcast_transaction s bytes).1
  pub tick_info_range :
      (s : S) (info : TickInfo) → Inv s → (b.tick_info s).0 ≡ ok info → InRange info
  pub digests :
      (s : S) (tick : ℕ) (t : TickTransactions)
      → (b.tick_has_transactions s tick).0 ≡ ok t
      → Consistent t.has_transactions t.transaction_digests
  pub transaction_id :
      (s : S) (bytes : List ℕ) (id : Text)
      → (b.broadcast_transaction s bytes).0 ≡ ok id
      → is_empty (trim id) ≡ false

pub validate_transaction_id-nonblank :
    (text id : Text) → validate_transaction_id text ≡ ok id → is_empty (trim id) ≡ false
unfolding validate_transaction_id
validate_transaction_id-nonblank text id e = ground arith
