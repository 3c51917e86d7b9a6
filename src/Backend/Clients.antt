-- ===== src/Backend/Clients.antt =====
-- src/backend.rs: what the three backends share, and the trait that they implement.
use qubic_random_client.Base.{ℕ, Bool, List, none, if◌then◌else◌, Text, is_empty, trim}
use qubic_random_client.Base.Result.{Result, ok, err}
use qubic_random_client.Bob.{RpcError}
use qubic_random_client.Backend.{TickInfo, TickTransactions}
use qubic_random_client.Backend.Hex.{HexError}

-- `BackendError`, by its messages.
pub data BackendError : Type 0 where
  status_failed : BackendError
  tick_data_failed : BackendError
  different_tick : BackendError
  contract_query_failed : BackendError
  no_output : BackendError
  invalid_base64 : BackendError
  broadcast_failed : BackendError
  no_peers : BackendError
  invalid_peers : BackendError
  empty_transaction_id : BackendError
  bob_error : RpcError → BackendError
  missing_field : Text → BackendError
  field_out_of_range : Text → ℕ → BackendError
  missing_transfers : BackendError
  unexpected_shape : BackendError
  invalid_hex_output : HexError → BackendError
  contract_query_timed_out : BackendError
  no_transaction_id : BackendError
  invalid_broadcast_response : BackendError
  missing_status : BackendError
  incomplete_digests : BackendError
  inconsistent_digests : BackendError
  invalid_digest_size : BackendError
  bad_digest : BackendError
  broadcast_rejected : BackendError

abbrev pub default_tick_duration_ms : ℕ
default_tick_duration_ms = 1_000

pub record ContractFunctionRequest : Type 0 where
  pub contract_index : ℕ
  pub input_type : ℕ
  pub input : List ℕ

-- `From<bool>`.
unfoldable pub from_bool : Bool → TickTransactions
from_bool has = record { has_transactions = has; transaction_digests = none }

-- `validate_transaction_id`.
unfoldable pub validate_transaction_id : Text → Result BackendError Text
validate_transaction_id id = if is_empty (trim id) then err empty_transaction_id else ok id

-- `trait NetworkBackend`, over the state that a backend keeps between its calls.
pub record NetworkBackend (S : Type 0) : Type 0 where
  pub tick_info : S → Result BackendError TickInfo × S
  pub tick_has_transactions : S → ℕ → Result BackendError TickTransactions × S
  pub query_contract_function : S → ContractFunctionRequest → Result BackendError (List ℕ) × S
  pub broadcast_transaction : S → List ℕ → Result BackendError Text × S
