-- ===== src/Backend/Rpc.antt =====
-- src/backend.rs: the backend that speaks to the public RPC service.
use qubic_random_client.Base.{
  ℕ, false, not, List, Option, none, some, ◌==◌, if◌then◌else◌, Text, codes, is_empty, length,
}
use qubic_random_client.Base.Result.{Result, ok, err, ◌>>=◌, ok_or, map_err}
use qubic_random_client.Json.{ℤ, pos, negsuc, Value, string, object, end, field, get, as_str}
use qubic_random_client.Bob.{then_get, or_else}
use qubic_random_client.Config.Endpoint.{append_endpoint_path}
use qubic_random_client.Http.{
  Network, json, post_json, get_tick_info_with, get_tick_data_with, broadcast_transaction_with,
  from_u64,
}
use qubic_random_client.Backend.{TickInfo, TickTransactions}
use qubic_random_client.Backend.Clients.{
  BackendError, status_failed, tick_data_failed, different_tick, contract_query_failed, no_output,
  invalid_base64, broadcast_failed, no_peers, invalid_peers, default_tick_duration_ms,
  ContractFunctionRequest, from_bool, validate_transaction_id, NetworkBackend,
}

-- Messages of the package `scapi`, as far as they are read.
pub record TickInfoResponse : Type 0 where
  pub epoch : ℕ
  pub tick : ℕ
  pub initial_tick : ℕ
  pub duration : ℕ

pub record TickData : Type 0 where
  pub tick_number : ℕ
  pub transaction_hashes : List Text

pub record BroadcastResponse : Type 0 where
  pub peers_broadcasted : ℤ
  pub transaction_id : Text

-- The decoders of `scapi` and `serde_json`, and the `base64` package.
pub record Wire : Type 0 where
  pub tick_info_response : List ℕ → Option TickInfoResponse
  pub tick_data_response : List ℕ → Option (Option TickData)
  pub broadcast_response : List ℕ → Option BroadcastResponse
  pub json_value : List ℕ → Option Value
  pub base64_encode : List ℕ → Text
  pub base64_decode : Text → Option (List ℕ)

-- `RpcBackend`, by the base addresses of its two clients.
pub record RpcBackend : Type 0 where
  pub live : Text
  pub query : Text

-- `RpcBackend::new`.
unfoldable pub new_rpc : Text → RpcBackend
new_rpc root = record {
  live = append_endpoint_path root (codes "live/v1");
  query = append_endpoint_path root (codes "query/v1");
}

-- `normalize_rpc_tick_duration_ms`.
unfoldable pub normalize_rpc_tick_duration_ms : ℕ → ℕ
normalize_rpc_tick_duration_ms duration_ms =
    if duration_ms == 0 then default_tick_duration_ms else duration_ms

-- `RpcContractQuery`, serialised.
abbrev pub contract_query : Wire → ContractFunctionRequest → Value
contract_query w request = object (
    field (codes "contractIndex") (from_u64 request.contract_index) (
      field (codes "inputType") (from_u64 request.input_type) (
        field (codes "inputSize") (from_u64 (length request.input))
          (field (codes "requestData") (string (w.base64_encode request.input)) end))))

abbrev pub text_at : Text → Value → Option Text
text_at key value = then_get (get key value) as_str

-- `decode_rpc_contract_response`.
unfoldable pub decode_rpc_contract_response : Wire → Value → Result BackendError (List ℕ)
decode_rpc_contract_response w value = do
  encoded ← ok_or no_output (
      or_else (text_at (codes "responseData") value)
        (or_else (text_at (codes "data") value) (text_at (codes "result") value)))
  ok_or invalid_base64 (w.base64_decode encoded)

unfoldable pub rpc_tick_info : Wire → Network → RpcBackend → Result BackendError TickInfo
unfolding normalize_rpc_tick_duration_ms
rpc_tick_info w send backend = do
  response ← map_err status_failed (get_tick_info_with send w.tick_info_response backend.live)
  ok (record {
    epoch = response.epoch;
    tick = response.tick;
    initial_tick = response.initial_tick;
    tick_duration_ms = normalize_rpc_tick_duration_ms response.duration;
  })

abbrev pub has_hashes : ℕ → Option TickData → Result BackendError TickTransactions
has_hashes tick none = ok (from_bool false)
has_hashes tick (some found) =
    if not (found.tick_number == tick)
    then err different_tick
    else ok (from_bool (not (is_empty found.transaction_hashes)))

unfoldable pub rpc_tick_has_transactions :
    Wire → Network → RpcBackend → ℕ → Result BackendError TickTransactions
unfolding from_bool
rpc_tick_has_transactions w send backend tick = do
  response ←
      map_err tick_data_failed (get_tick_data_with send w.tick_data_response backend.query tick)
  has_hashes tick response

unfoldable pub rpc_query_contract_function :
    Wire → Network → RpcBackend → ContractFunctionRequest → Result BackendError (List ℕ)
unfolding decode_rpc_contract_response
rpc_query_contract_function w send backend request = do
  value ← map_err contract_query_failed (
      post_json send w.json_value backend.live (codes "querySmartContract")
        (json (contract_query w request)))
  decode_rpc_contract_response w value

abbrev pub accepted_by : ℤ → Text → Result BackendError Text
accepted_by (pos n) id = if n == 0 then err no_peers else validate_transaction_id id
accepted_by (negsuc n) id = err invalid_peers

unfoldable pub rpc_broadcast_transaction :
    Wire → Network → RpcBackend → List ℕ → Result BackendError Text
unfolding validate_transaction_id
rpc_broadcast_transaction w send backend tx_bytes = do
  response ←
      map_err broadcast_failed (
        broadcast_transaction_with send w.broadcast_response backend.live
          (w.base64_encode tx_bytes))
  accepted_by response.peers_broadcasted response.transaction_id

-- `impl NetworkBackend for RpcBackend`; the calls leave it as it is.
unfoldable pub rpc_backend : Wire → Network → NetworkBackend RpcBackend
unfolding rpc_tick_info rpc_tick_has_transactions rpc_query_contract_function
    rpc_broadcast_transaction
rpc_backend w send = record {
  tick_info = λ b. (rpc_tick_info w send b, b);
  tick_has_transactions = λ b tick. (rpc_tick_has_transactions w send b tick, b);
  query_contract_function = λ b request. (rpc_query_contract_function w send b request, b);
  broadcast_transaction = λ b bytes. (rpc_broadcast_transaction w send b bytes, b);
}
