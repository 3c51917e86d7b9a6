-- ===== src/Http.antt =====
-- src/http.rs: the transport, which reads bodies up to a limit, and the client of a Bob node.
pub mod Bounded
pub mod Matching
use qubic_random_client.Base.{
  ℕ, ◌+◌, ◌-◌, ◌*◌, ◌%◌, ◌^◌, Bool, true, false, not, ◌&&◌, ◌||◌, List, [], ◌∷◌, ◌++◌, Option, none,
  some, ltb, ◌==◌, if◌then◌else◌, is_some, is_some_and, length, Text, codes,
}
use qubic_random_client.Base.Result.{Result, ok, err, ◌>>=◌, ◌>>◌, guard, ok_or}
use qubic_random_client.Json.{
  Value, Number, number, string, array, object, nil, cons, end, field, get, as_u64, pos,
}
use qubic_random_client.Bob.{then_get}
use qubic_random_client.Config.Endpoint.{append_endpoint_path}

pub data HttpError : Type 0 where
  request_failed : HttpError
  exceeds_limit : HttpError
  read_failed : HttpError
  invalid_json : HttpError
  other_id : HttpError

-- A `reqwest::Response`: the chunks of its body come one by one, and `none` is a failed read.
pub record Response : Type 0 where
  pub is_success : Bool
  pub content_length : Option ℕ
  pub chunks : List (Option (List ℕ))

abbrev pub max_response_bytes : ℕ
max_response_bytes = 16 * 1024 * 1024

-- The loop of `read_json` over the chunks.
unfoldable pub read_chunks : ℕ → List ℕ → List (Option (List ℕ)) → Result HttpError (List ℕ)
read_chunks limit body [] = ok body
read_chunks limit body (none ∷ chunks) = err read_failed
read_chunks limit body (some chunk ∷ chunks) =
    if ltb (limit - length body) (length chunk)
    then err exceeds_limit
    else read_chunks limit (body ++ chunk) chunks

-- `read_json`, for a type that `from_slice` reads.
unfoldable pub read_json : {A : Type 0} → (List ℕ → Option A) → Response → ℕ → Result HttpError A
unfolding read_chunks
read_json from_slice response limit = do
  guard response.is_success request_failed
  guard (not (is_some_and response.content_length (λ len. ltb limit len))) exceeds_limit
  body ← read_chunks limit [] response.chunks
  ok_or invalid_json (from_slice body)

-- What is sent: a GET, or a POST with a payload that is a JSON value or of a type of another package.
pub data Payload : Type 0 where
  no_payload : Payload
  json : Value → Payload
  get_tick_data_request : ℕ → Payload
  broadcast_transaction_request : Text → Payload

-- `reqwest` and the network: the response to a request on an address, unless sending fails.
abbrev pub Network : Type 0
Network = Text → Payload → Option Response

-- `get_json` and `post_json_url`.
unfoldable pub fetch :
    {A : Type 0} → Network → (List ℕ → Option A) → Text → Payload → Result HttpError A
unfolding read_json
fetch send from_slice url payload = do
  response ← ok_or request_failed (send url payload)
  read_json from_slice response max_response_bytes

-- `BoundedRpcClient::url_for`, on the client's base address.
unfoldable pub url_for : Text → Text → Text
url_for base_url path = append_endpoint_path base_url path

-- `BoundedRpcClient::get_json` and `post_json`, on a client's base address.
abbrev pub get_json :
    {A : Type 0} → Network → (List ℕ → Option A) → Text → Text → Result HttpError A
get_json send from_slice base_url path = fetch send from_slice (url_for base_url path) no_payload

abbrev pub post_json :
    {A : Type 0} → Network → (List ℕ → Option A) → Text → Text → Payload → Result HttpError A
post_json send from_slice base_url path payload =
    fetch send from_slice (url_for base_url path) payload

-- `get_tick_info_with`, `get_tick_data_with` and `broadcast_transaction_with`.
abbrev pub get_tick_info_with :
    {A : Type 0} → Network → (List ℕ → Option A) → Text → Result HttpError A
get_tick_info_with send from_slice base_url = get_json send from_slice base_url (codes "tick-info")

abbrev pub get_tick_data_with :
    {A : Type 0} → Network → (List ℕ → Option A) → Text → ℕ → Result HttpError A
get_tick_data_with send from_slice base_url tick =
    post_json send from_slice base_url (codes "getTickData") (get_tick_data_request tick)

abbrev pub broadcast_transaction_with :
    {A : Type 0} → Network → (List ℕ → Option A) → Text → Text → Result HttpError A
broadcast_transaction_with send from_slice base_url encoded =
    post_json send from_slice base_url (codes "broadcast-transaction")
      (broadcast_transaction_request encoded)

-- `BoundedBobClient`; the base address of its inner client is not used.
pub record BobClient : Type 0 where
  pub endpoint : Text
  pub next_id : ℕ

-- `BoundedBobClient::with_base_url`.
unfoldable pub new_bob_client : Text → BobClient
new_bob_client endpoint = record {
  endpoint = append_endpoint_path endpoint (codes "qubic");
  next_id = 1;
}

abbrev pub from_u64 : ℕ → Value
from_u64 n = number (record {
  as_u64 = some n;
  as_i64 = if ltb n 9_223_372_036_854_775_808 then some (pos n) else none;
})

abbrev pub bob_request : Text → Value → ℕ → Value
bob_request method params id = object (
    field (codes "jsonrpc") (string (codes "2.0")) (
      field (codes "method") (string method)
        (field (codes "params") params (field (codes "id") (from_u64 id) end))))

abbrev pub is_envelope : Value → Bool
is_envelope response =
    is_some (get (codes "jsonrpc") response)
    || (is_some (get (codes "id") response)
        && (is_some (get (codes "result") response) || is_some (get (codes "error") response)))

abbrev pub has_id : ℕ → Value → Bool
has_id id response = is_some_and (then_get (get (codes "id") response) as_u64) (λ n. n == id)

-- The check of `call` on the answer.
unfoldable pub check_answer : ℕ → Value → Result HttpError Value
check_answer id response = do
  guard (not (is_envelope response && not (has_id id response))) other_id
  ok response

-- `BoundedBobClient::call`; the counter of the requests wraps around.
unfoldable pub call :
    Network
    → (List ℕ → Option Value)
    → BobClient
    → Text
    → Value
    → Result HttpError Value × BobClient
unfolding fetch check_answer
call send from_slice client method params = (
  fetch send from_slice client.endpoint (json (bob_request method params client.next_id))
      >>= check_answer client.next_id,
  record client { next_id = (client.next_id + 1) % 2 ^ 64 },
)

-- The calls of `BoundedBobClient` by name.
abbrev pub qubic_status :
    Network → (List ℕ → Option Value) → BobClient → Result HttpError Value × BobClient
qubic_status send from_slice client = call send from_slice client (codes "qubic_status") (array nil)

abbrev pub qubic_get_transfers :
    Network → (List ℕ → Option Value) → BobClient → Value → Result HttpError Value × BobClient
qubic_get_transfers send from_slice client params =
    call send from_slice client (codes "qubic_getTransfers") (array (cons params nil))

abbrev pub qubic_broadcast_transaction :
    Network → (List ℕ → Option Value) → BobClient → Text → Result HttpError Value × BobClient
qubic_broadcast_transaction send from_slice client signed_tx =
    call send from_slice client (codes "qubic_broadcastTransaction")
      (array (cons (string signed_tx) nil))
