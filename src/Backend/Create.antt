-- ===== src/Backend/Create.antt =====
-- src/backend.rs, `create_backend`: the backend that a configuration asks for, before any call.
use qubic_random_client.Base.{ℕ, Bool, Text, if◌then◌else◌, none}
use qubic_random_client.Base.Result.{Result, ok, err}
use qubic_random_client.Config.Endpoint.{BackendKind, rpc, bob, grpc}
use qubic_random_client.Backend.Rpc.{RpcBackend, new_rpc}
use qubic_random_client.Backend.BobNode.{BobBackend, new_bob}
use qubic_random_client.Backend.Qln.{QlnTickFallback}

pub data Created : Type 0 where
  rpc_client : RpcBackend → Created
  bob_client : BobBackend → Created
  grpc_client : QlnTickFallback → Created

pub data CreateError : Type 0 where
  invalid_endpoint : CreateError

-- `QlnBackend::new`, given whether the gRPC package takes the endpoint.
unfoldable pub new_qln : Bool → Result CreateError QlnTickFallback
new_qln valid =
    if valid then ok (record { epoch = none; initial_tick = 0 }) else err invalid_endpoint

-- `create_backend`, at a time in microseconds since 1970.
unfoldable pub create_backend : Bool → ℕ → BackendKind → Text → Result CreateError Created
unfolding new_rpc new_bob new_qln
create_backend valid micros rpc endpoint = ok (rpc_client (new_rpc endpoint))
create_backend valid micros bob endpoint = ok (bob_client (new_bob endpoint micros))
create_backend valid micros grpc endpoint = elim (new_qln valid) [
  | ok fallback ↦ ok (grpc_client fallback)
  | err e ↦ err e
]
