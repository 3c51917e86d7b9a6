-- ===== src/Scenarios/Clients.antt =====
-- The backends and their transport, by example.
use qubic_random_client.Base.{
  ℕ, ◌+◌, ◌*◌, ◌≡◌, ◌↔◌, refl, true, ◌∷◌, [], List, map, Option, none, some, All, arith, codes,
  replicate, to_ascii_lowercase, as_bytes,
}
use mathlib.Core.Option
use qubic_random_client.Base.Result.{Result, ok, err}
use qubic_random_client.Json.{Value, string, object, end, field, array, nil, lookup}
use qubic_random_client.Http.{
  Network, Response, BobClient, exceeds_limit, read_json, call, max_response_bytes, json,
  bob_request, from_u64,
}
use qubic_random_client.Http.Bounded.{Carries, read_json_iff}
use qubic_random_client.Http.Matching.{Answers, call_iff}
use qubic_random_client.Backend.{TickTransactions}
use qubic_random_client.Backend.Clients.{ContractFunctionRequest, BackendError}
use qubic_random_client.Backend.Hex.{bytes_to_hex, decode_hex, digit_value, non_hex_digit}
use qubic_random_client.Backend.Hex.RoundTrip.{IsByte, decode_hex_iff}
use qubic_random_client.Backend.Rpc.{Wire, rpc_backend}
use qubic_random_client.Backend.BobNode.{
  BobBackend, Rounds, bob_backend, bob_query_contract_function, query_params, network_timeout,
}
use qubic_random_client.Backend.BobNode.Polling.{Ended, bob_query_contract_function-Ended}
use qubic_random_client.Backend.Qln.{
  TickStatus, LightNode, GetTickTransactionsResponse, QlnTickFallback, read_tick_transactions,
  qln_backend,
}
use qubic_random_client.Backend.Qln.Digests.{Believed, read_tick_transactions_iff}
use qubic_random_client.Backend.Qln.Fallback.{Told, told, normalize_qln_tick_info-Told}
use qubic_random_client.Backend.Lawful.{IsLawful}
use qubic_random_client.Backend.Lawful.Light.{IsFallback}
use qubic_random_client.Backend.Lawful.Three.{backends-IsLawful}

hex_read : decode_hex (codes "0aFF") ≡ ok (10 ∷ 255 ∷ [])
unfolding decode_hex as_bytes digit_value
hex_read = refl

hex_refused : decode_hex (codes "0x") ≡ err non_hex_digit
unfolding decode_hex as_bytes
hex_refused = refl

decode_hex_iff_example : (decode_hex (codes "0aFF") ≡ ok (10 ∷ 255 ∷ [])) ↔ (
    All IsByte (10 ∷ 255 ∷ [])
    × (bytes_to_hex (10 ∷ 255 ∷ []) ≡ map to_ascii_lowercase (codes "0aFF")))
decode_hex_iff_example = decode_hex_iff (codes "0aFF") (10 ∷ 255 ∷ [])

abbrev all_bytes : List ℕ → Option (List ℕ)
all_bytes bytes = some bytes

abbrev in_parts : Response
in_parts = record {
  is_success = true;
  content_length = none;
  chunks = some (1 ∷ 2 ∷ []) ∷ some (3 ∷ []) ∷ [];
}

within_limit : read_json all_bytes in_parts 3 ≡ ok (1 ∷ 2 ∷ 3 ∷ [])
unfolding read_json
within_limit = refl

over_limit : read_json all_bytes in_parts 2 ≡ err exceeds_limit
unfolding read_json
over_limit = refl

read_json_iff_example :
    (read_json all_bytes in_parts 3 ≡ ok (1 ∷ 2 ∷ 3 ∷ []))
    ↔ Carries all_bytes in_parts 3 (1 ∷ 2 ∷ 3 ∷ [])
read_json_iff_example = read_json_iff all_bytes in_parts 3 (1 ∷ 2 ∷ 3 ∷ [])

abbrev output : Value
output = object (
    field (codes "id") (from_u64 1)
      (field (codes "result") (object (field (codes "data") (string (codes "0x0a")) end)) end))

abbrev answering : Network
answering url body = some in_parts

abbrev reads_output : List ℕ → Option Value
reads_output bytes = some output

abbrev client : BobClient
client = record { endpoint = codes "http://node/qubic"; next_id = 1 }

call_iff_example :
    ((call answering reads_output client (codes "qubic_status") (array nil)).0 ≡ ok output) ↔ (
      (response : Response) × (answering client.endpoint
          (json (bob_request (codes "qubic_status") (array nil) client.next_id))
        ≡ some response)
      × Carries reads_output response max_response_bytes output
      × Answers client.next_id output)
call_iff_example = call_iff answering reads_output client (codes "qubic_status") (array nil) output

abbrev rounds : Rounds
rounds = record { network = λ n. answering; clock = λ n. 1_000 + 150 * n }

abbrev backend : BobBackend
backend = record { rpc = client; next_nonce = 7 }

abbrev request : ContractFunctionRequest
request = record { contract_index = 3; input_type = 2; input = 1 ∷ 2 ∷ [] }

queried :
    Option.map
      (λ (p : Result BackendError (List ℕ) × BobBackend). p.0)
      (bob_query_contract_function 81 rounds reads_output 900 backend request)
    ≡ some (ok (10 ∷ []))
unfolding bob_query_contract_function read_json decode_hex as_bytes digit_value lookup
queried = refl

bob_query_contract_function-Ended_example :
    (result : Result BackendError (List ℕ)) × (final : BobBackend) × (bob_query_contract_function 81
        rounds reads_output 900 backend request
      ≡ some (result, final))
    × Ended rounds reads_output
        (query_params backend.next_nonce request)
        (900 + network_timeout)
        0
        backend.rpc
        81
        result
        final.rpc
bob_query_contract_function-Ended_example =
    bob_query_contract_function-Ended rounds reads_output 900 backend request (omega arith)
      (λ n. omega arith)

abbrev answer : GetTickTransactionsResponse
answer = record {
  success = true;
  tick = 20;
  has_transactions = true;
  digests_complete = true;
  transaction_digests = replicate 32 5 ∷ replicate 32 6 ∷ [];
}

abbrev believed : TickTransactions
believed = record {
  has_transactions = true;
  transaction_digests = some (replicate 32 5 ∷ replicate 32 6 ∷ []);
}

digests_taken : read_tick_transactions answer 20 ≡ ok believed
unfolding read_tick_transactions
digests_taken = refl

read_tick_transactions_iff_example :
    (read_tick_transactions answer 20 ≡ ok believed) ↔ Believed answer 20 believed
read_tick_transactions_iff_example = read_tick_transactions_iff answer 20 believed

abbrev status_at : ℕ → TickStatus
status_at tick = record { epoch = 7; tick = tick; initial_tick = 0; tick_duration_ms = 0 }

abbrev nothing_known : QlnTickFallback
nothing_known = record { epoch = none; initial_tick = 0 }

normalize_qln_tick_info-Told_example :
    All (Told 7 100) (told nothing_known (status_at 100 ∷ status_at 101 ∷ status_at 102 ∷ []))
normalize_qln_tick_info-Told_example =
    normalize_qln_tick_info-Told nothing_known (status_at 100) (status_at 101 ∷ status_at 102 ∷ [])
      refl (omega arith)

abbrev wire : Wire
wire = record {
  tick_info_response =
      λ bytes. some (record { epoch = 7; tick = 100; initial_tick = 90; duration = 0 });
  tick_data_response = λ bytes. some none;
  broadcast_response = λ bytes. none;
  json_value = reads_output;
  base64_encode = λ bytes. bytes;
  base64_decode = λ text. some text;
}

abbrev node : LightNode
node = record {
  get_status = some (record { success = true; status = some (status_at 100) });
  get_tick_transactions = λ tick. some answer;
  query_contract_function = λ request. none;
  broadcast_transaction = λ bytes. some (record { success = true; tx_id = codes "id" });
}

backends-IsLawful_example :
    IsLawful (λ b. Unit {0}) (rpc_backend wire answering)
    × IsLawful (λ b. Unit {0}) (bob_backend rounds reads_output 900)
    × IsLawful IsFallback (qln_backend node)
backends-IsLawful_example =
    backends-IsLawful wire answering rounds reads_output 900 node (λ bytes r e. ground arith)
      (λ s e. ground arith)
