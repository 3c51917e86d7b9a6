-- ===== src/Backend/BobNode.antt =====
-- src/backend.rs: the backend that speaks to a Bob node.
pub mod Polling
use qubic_random_client.Base.{
  ℕ, zero, suc, ◌+◌, ◌%◌, ◌^◌, Bool, true, false, not, ◌&&◌, List, [], ◌∷◌, ◌++◌, Option, none,
  some, ltb, leb, ◌==◌, if◌then◌else◌, is_some, max, Text, codes, is_empty, u32_max, parse_unsigned,
}
use qubic_random_client.Base.Result.{Result, ok, err, ◌>>=◌, ◌>>◌, guard, ok_or, map_err}
use qubic_random_client.Json.{
  Value, null, boolean, number, string, array, object, nil, cons, end, field, get, as_str, as_u64,
  as_array, no_items, lookup,
}
use qubic_random_client.Bob.{
  RpcError, then_get, or_else, extract_result, extract_u64_field, extract_string_field,
}
use qubic_random_client.Http.{
  HttpError, Network, BobClient, call, from_u64, new_bob_client, qubic_status, qubic_get_transfers,
  qubic_broadcast_transaction,
}
use qubic_random_client.Backend.{TickInfo, TickTransactions}
use qubic_random_client.Backend.Hex.{bytes_to_hex, decode_hex}
use qubic_random_client.Backend.Clients.{
  BackendError, status_failed, tick_data_failed, contract_query_failed, broadcast_failed, bob_error,
  missing_field, field_out_of_range, missing_transfers, unexpected_shape, invalid_hex_output,
  contract_query_timed_out, no_transaction_id, invalid_broadcast_response, default_tick_duration_ms,
  ContractFunctionRequest, from_bool, validate_transaction_id, NetworkBackend,
}

-- `BobBackend`.
pub record BobBackend : Type 0 where
  pub rpc : BobClient
  pub next_nonce : ℕ

-- `BobBackend::new`, at a time in microseconds since 1970.
unfoldable pub new_bob : Text → ℕ → BobBackend
unfolding new_bob_client
new_bob endpoint micros = record {
  rpc = new_bob_client endpoint;
  next_nonce = max (micros % 2 ^ 64) 1;
}

-- `checked_u32_field`.
unfoldable pub checked_u32_field : Value → Text → Result BackendError ℕ
unfolding extract_u64_field
checked_u32_field value key = do
  n ← ok_or (missing_field key) (extract_u64_field value (key ∷ []))
  guard (leb n u32_max) (field_out_of_range key n)
  ok n

abbrev pub fits_u32 : ℕ → Option ℕ
fits_u32 n = if leb n u32_max then some n else none

-- `optional_u32_field`.
unfoldable pub optional_u32_field : Value → Text → Option ℕ
optional_u32_field value key =
    then_get (get key value)
      λ v. or_else (then_get (as_u64 v) fits_u32) (then_get (as_str v) (parse_unsigned u32_max))

abbrev pub unwrap_or : ℕ → Option ℕ → ℕ
unwrap_or default none = default
unwrap_or default (some n) = n

abbrev pub tick_duration : Value → ℕ
tick_duration result =
    max
      (unwrap_or default_tick_duration_ms (
        or_else (optional_u32_field result (codes "tickDurationMs")) (
          or_else (optional_u32_field result (codes "tickDuration"))
            (optional_u32_field result (codes "duration")))))
      1

abbrev pub bob_result : Result RpcError Value → Result BackendError Value
bob_result (ok r) = ok r
bob_result (err e) = err (bob_error e)

-- The fields of a status.
unfoldable pub status_fields : Value → Result BackendError TickInfo
unfolding checked_u32_field optional_u32_field
status_fields result = do
  epoch ← checked_u32_field result (codes "currentProcessingEpoch")
  tick ← checked_u32_field result (codes "currentVerifyLoggingTick")
  initial_tick ← checked_u32_field result (codes "initialTick")
  ok (record {
    epoch = epoch;
    tick = tick;
    initial_tick = initial_tick;
    tick_duration_ms = tick_duration result;
  })

-- `tick_info`, on the answer of the call.
unfoldable pub read_status : Result HttpError Value → Result BackendError TickInfo
unfolding extract_result status_fields
read_status answer = do
  value ← map_err status_failed answer
  result ← bob_result (extract_result value)
  status_fields result

abbrev pub Decoder : Type 0
Decoder = List ℕ → Option Value

unfoldable pub bob_tick_info :
    Network → Decoder → BobBackend → Result BackendError TickInfo × BobBackend
unfolding call read_status
bob_tick_info send from_slice backend =
    let (answer, rpc) = qubic_status send from_slice backend.rpc in
    (read_status answer, record backend { rpc = rpc })

-- `bob_tick_has_transactions`.
unfoldable pub bob_has_transactions : Value → Result BackendError Bool
bob_has_transactions (array transfers) = ok (not (no_items transfers))
bob_has_transactions (object map) = elim (then_get (lookup (codes "transfers") map) as_array) [
  | none ↦ err missing_transfers
  | some transfers ↦ ok (not (no_items transfers))
]
bob_has_transactions _ = err unexpected_shape

unfoldable pub read_transfers : Result HttpError Value → Result BackendError TickTransactions
unfolding extract_result bob_has_transactions from_bool
read_transfers answer = do
  value ← map_err tick_data_failed answer
  result ← bob_result (extract_result value)
  has ← bob_has_transactions result
  ok (from_bool has)

abbrev pub transfers_request : ℕ → Value
transfers_request tick = object (
    field (codes "identity") (string [])
      (field (codes "fromTick") (from_u64 tick) (field (codes "toTick") (from_u64 tick) end)))

unfoldable pub bob_tick_has_transactions :
    Network → Decoder → BobBackend → ℕ → Result BackendError TickTransactions × BobBackend
unfolding call read_transfers
bob_tick_has_transactions send from_slice backend tick =
    let (answer, rpc) = qubic_get_transfers send from_slice backend.rpc (transfers_request tick) in
    (read_transfers answer, record backend { rpc = rpc })

abbrev pub transaction_id_of : Value → Option Text
transaction_id_of result = or_else (as_str result) (
    extract_string_field result
      (codes "transactionId" ∷ codes "txId" ∷ codes "hash" ∷ codes "id" ∷ []))

unfoldable pub read_broadcast : Result HttpError Value → Result BackendError Text
unfolding extract_result extract_string_field validate_transaction_id
read_broadcast answer = do
  value ← map_err broadcast_failed answer
  result ← map_err invalid_broadcast_response (extract_result value)
  id ← ok_or no_transaction_id (transaction_id_of result)
  validate_transaction_id id

unfoldable pub bob_broadcast_transaction :
    Network → Decoder → BobBackend → List ℕ → Result BackendError Text × BobBackend
unfolding call read_broadcast bytes_to_hex
bob_broadcast_transaction send from_slice backend tx_bytes =
    let (answer, rpc) =
      qubic_broadcast_transaction send from_slice backend.rpc (bytes_to_hex tx_bytes) in
    (read_broadcast answer, record backend { rpc = rpc })

-- `str::trim_start_matches("0x")`.
unfoldable pub trim_0x : Text → Text
trim_0x (c ∷ d ∷ s) = if c == b'0' && d == b'x' then trim_0x s else c ∷ d ∷ s
trim_0x s = s

abbrev pub network_timeout : ℕ
network_timeout = 8_000

abbrev pub bob_poll_interval : ℕ
bob_poll_interval = 100

-- What one answer to a query says: the output, an error, or that there is none so far.
pub data Polled : Type 0 where
  done : Result BackendError (List ℕ) → Polled
  pending : Polled

abbrev pub poll_result : Value → Polled
poll_result result = elim (extract_string_field result (codes "data" ∷ [])) [
  | some text ↦
      done (elim (decode_hex (trim_0x text)) [ ok b ↦ ok b | err e ↦ err (invalid_hex_output e) ])
  | none ↦
      if is_some (extract_string_field result (codes "error" ∷ []))
      then done (err contract_query_failed)
      else pending
]

unfoldable pub poll_answer : Result HttpError Value → Polled
unfolding extract_result extract_string_field decode_hex trim_0x
poll_answer (err e) = done (err contract_query_failed)
poll_answer (ok value) = elim (extract_result value) [
  | err e ↦ done (err (bob_error e))
  | ok result ↦ poll_result result
]

abbrev pub query_params : ℕ → ContractFunctionRequest → Value
query_params nonce request = array (
    cons
      (object (
        field (codes "nonce") (from_u64 nonce) (
          field (codes "scIndex") (from_u64 request.contract_index) (
            field (codes "funcNumber") (from_u64 request.input_type)
              (field (codes "data") (string (codes "0x" ++ bytes_to_hex request.input)) end)))))
      nil)

-- The surroundings of the loop: the network in each round, and the clock when its answer is there,
-- in milliseconds.
pub record Rounds : Type 0 where
  pub network : ℕ → Network
  pub clock : ℕ → ℕ

-- The loop of `query_contract_function` from a round on; `none` is fuel that ran out.
unfoldable pub poll_loop :
    ℕ
    → Rounds
    → Decoder
    → ℕ
    → Value
    → ℕ
    → BobClient
    → Option (Result BackendError (List ℕ) × BobClient)
unfolding call poll_answer
poll_loop zero env from_slice deadline params round client = none
poll_loop (suc fuel) env from_slice deadline params round client =
    let (answer, client') =
      call (env.network round) from_slice client (codes "qubic_querySmartContract") params in
    let rest = poll_loop fuel env from_slice deadline params (suc round) client' in
    elim (poll_answer answer) [
      | done result ↦ some (result, client')
      | pending ↦
          if leb deadline (env.clock round)
          then some (err contract_query_timed_out, client')
          else rest
    ]

-- `query_contract_function`, started at a time.
unfoldable pub bob_query_contract_function :
    ℕ
    → Rounds
    → Decoder
    → ℕ
    → BobBackend
    → ContractFunctionRequest
    → Option (Result BackendError (List ℕ) × BobBackend)
unfolding poll_loop bytes_to_hex
bob_query_contract_function fuel env from_slice start backend request =
    let nonce = backend.next_nonce in
    elim (poll_loop fuel env from_slice (start + network_timeout) (query_params nonce request) 0
      backend.rpc) [
        | none ↦ none
        | some (result, rpc) ↦
            some (result, record backend { rpc = rpc; next_nonce = (nonce + 1) % 2 ^ 64 })
      ]

-- The fuel that every query ends within.
abbrev pub enough_rounds : ℕ
enough_rounds = 81

abbrev pub query_or_timeout :
    Rounds
    → Decoder
    → ℕ
    → BobBackend
    → ContractFunctionRequest
    → Result BackendError (List ℕ) × BobBackend
query_or_timeout env from_slice start backend request =
    elim (bob_query_contract_function enough_rounds env from_slice start backend request) [
      | none ↦ (err contract_query_timed_out, backend)
      | some outcome ↦ outcome
    ]

-- `impl NetworkBackend for BobBackend`, at a time, with the network as it answers from then on.
unfoldable pub bob_backend : Rounds → Decoder → ℕ → NetworkBackend BobBackend
unfolding bob_tick_info bob_tick_has_transactions bob_query_contract_function
    bob_broadcast_transaction
bob_backend env from_slice start = record {
  tick_info = bob_tick_info (env.network 0) from_slice;
  tick_has_transactions = bob_tick_has_transactions (env.network 0) from_slice;
  query_contract_function = query_or_timeout env from_slice start;
  broadcast_transaction = bob_broadcast_transaction (env.network 0) from_slice;
}
