-- ===== src/Backend/Qln.antt =====
-- src/backend.rs: the backend that speaks to a QLN light node over gRPC.
pub mod Digests
pub mod Fallback
use qubic_random_client.Base.{
  ℕ, Bool, true, false, not, ◌&&◌, ◌||◌, List, [], ◌∷◌, Option, none, some, ltb, ◌==◌,
  if◌then◌else◌, Text, is_empty, length, replicate,
}
use qubic_random_client.Base.Result.{Result, ok, err, ◌>>=◌, ◌>>◌, guard, ok_or}
use qubic_random_client.Backend.{TickInfo, TickTransactions, bytes_eq, has_digest}
use qubic_random_client.Backend.Clients.{
  BackendError, status_failed, tick_data_failed, different_tick, contract_query_failed,
  broadcast_failed, missing_status, incomplete_digests, inconsistent_digests, invalid_digest_size,
  bad_digest, broadcast_rejected, default_tick_duration_ms, ContractFunctionRequest, from_bool,
  validate_transaction_id, NetworkBackend,
}

-- The messages of `lightnode.proto`, as far as they are read.
pub record TickStatus : Type 0 where
  pub epoch : ℕ
  pub tick : ℕ
  pub initial_tick : ℕ
  pub tick_duration_ms : ℕ

pub record GetStatusResponse : Type 0 where
  pub success : Bool
  pub status : Option TickStatus

pub record GetTickTransactionsResponse : Type 0 where
  pub success : Bool
  pub tick : ℕ
  pub has_transactions : Bool
  pub digests_complete : Bool
  pub transaction_digests : List (List ℕ)

pub record QueryContractFunctionResponse : Type 0 where
  pub success : Bool
  pub output : List ℕ

pub record BroadcastTransactionResponse : Type 0 where
  pub success : Bool
  pub tx_id : Text

-- The generated gRPC client with the network behind it; `none` is a call that fails.
pub record LightNode : Type 0 where
  pub get_status : Option GetStatusResponse
  pub get_tick_transactions : ℕ → Option GetTickTransactionsResponse
  pub query_contract_function : ContractFunctionRequest → Option QueryContractFunctionResponse
  pub broadcast_transaction : List ℕ → Option BroadcastTransactionResponse

-- `QlnTickFallback`.
pub record QlnTickFallback : Type 0 where
  pub epoch : Option ℕ
  pub initial_tick : ℕ

abbrev pub is_fallback_epoch : Option ℕ → ℕ → Bool
is_fallback_epoch none epoch = false
is_fallback_epoch (some known) epoch = known == epoch

abbrev pub next_fallback : TickStatus → QlnTickFallback → QlnTickFallback
next_fallback status fallback =
    if not (status.initial_tick == 0)
    then record { epoch = some status.epoch; initial_tick = status.initial_tick }
    else if not (is_fallback_epoch fallback.epoch status.epoch)
    then record { epoch = some status.epoch; initial_tick = status.tick }
    else fallback

-- `normalize_qln_tick_info`: the tick info, and the fallback that it leaves.
unfoldable pub normalize_qln_tick_info : TickStatus → QlnTickFallback → TickInfo × QlnTickFallback
normalize_qln_tick_info status fallback =
    let next = next_fallback status fallback in
    (
      record {
        epoch = status.epoch;
        tick = status.tick;
        initial_tick = next.initial_tick;
        tick_duration_ms =
            if status.tick_duration_ms == 0
            then default_tick_duration_ms
            else status.tick_duration_ms;
      },
      next,
    )

abbrev pub status_of : Option GetStatusResponse → Result BackendError TickStatus
status_of answer = do
  response ← ok_or status_failed answer
  guard response.success status_failed
  ok_or missing_status response.status

-- `tick_info`; a failed call leaves the fallback as it is.
unfoldable pub qln_tick_info :
    LightNode → QlnTickFallback → Result BackendError TickInfo × QlnTickFallback
unfolding normalize_qln_tick_info
qln_tick_info node fallback = elim (status_of node.get_status) [
  | err e ↦ (err e, fallback)
  | ok status ↦ let (info, next) = normalize_qln_tick_info status fallback in (ok info, next)
]

-- The loop over the digests, with those that were seen.
unfoldable pub check_digests : List (List ℕ) → List (List ℕ) → Result BackendError (List (List ℕ))
check_digests seen [] = ok []
check_digests seen (digest ∷ rest) = do
  guard (length digest == 32) invalid_digest_size
  guard (not (bytes_eq digest (replicate 32 0)) && not (has_digest digest seen)) bad_digest
  checked ← check_digests (digest ∷ seen) rest
  ok (digest ∷ checked)

abbrev pub is_equal : Bool → Bool → Bool
is_equal true b = b
is_equal false b = not b

abbrev pub complete_digests : GetTickTransactionsResponse → Result BackendError TickTransactions
complete_digests response = do
  guard
      (not (ltb 4096 (length response.transaction_digests))
        && not (is_equal response.has_transactions (is_empty response.transaction_digests)))
      inconsistent_digests
  digests ← check_digests [] response.transaction_digests
  ok (record { has_transactions = response.has_transactions; transaction_digests = some digests })

abbrev pub legacy_answer : GetTickTransactionsResponse → Result BackendError TickTransactions
legacy_answer response = do
  guard (is_empty response.transaction_digests) incomplete_digests
  ok (from_bool response.has_transactions)

-- `qln_tick_has_transactions`.
unfoldable pub read_tick_transactions :
    GetTickTransactionsResponse → ℕ → Result BackendError TickTransactions
unfolding check_digests from_bool
read_tick_transactions response requested = do
  guard response.success tick_data_failed
  guard (response.tick == requested) different_tick
  if response.digests_complete then complete_digests response else legacy_answer response

unfoldable pub qln_tick_has_transactions : LightNode → ℕ → Result BackendError TickTransactions
unfolding read_tick_transactions
qln_tick_has_transactions node tick = do
  response ← ok_or tick_data_failed (node.get_tick_transactions tick)
  read_tick_transactions response tick

unfoldable pub qln_query_contract_function :
    LightNode → ContractFunctionRequest → Result BackendError (List ℕ)
qln_query_contract_function node request = do
  response ← ok_or contract_query_failed (node.query_contract_function request)
  if response.success then ok response.output else err contract_query_failed

unfoldable pub qln_broadcast_transaction : LightNode → List ℕ → Result BackendError Text
unfolding validate_transaction_id
qln_broadcast_transaction node tx_bytes = do
  response ← ok_or broadcast_failed (node.broadcast_transaction tx_bytes)
  if response.success then validate_transaction_id response.tx_id else err broadcast_rejected

-- `impl NetworkBackend for QlnBackend`.
unfoldable pub qln_backend : LightNode → NetworkBackend QlnTickFallback
unfolding qln_tick_info qln_tick_has_transactions qln_query_contract_function
    qln_broadcast_transaction
qln_backend node = record {
  tick_info = qln_tick_info node;
  tick_has_transactions = λ f tick. (qln_tick_has_transactions node tick, f);
  query_contract_function = λ f request. (qln_query_contract_function node request, f);
  broadcast_transaction = λ f bytes. (qln_broadcast_transaction node bytes, f);
}
