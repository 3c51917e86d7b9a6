-- ===== src/Bob.antt =====
-- src/bob.rs: what is read out of the answers of a Bob node.
use qubic_random_client.Base.{
  ℕ, List, [], ◌∷◌, Option, none, some, Text, codes, parse_unsigned, u64_max, if◌then◌else◌,
}
use qubic_random_client.Base.Result.{Result, ok, err}
use qubic_random_client.Json.{
  ℤ, Value, number, string, object, Fields, lookup, get, is_null, as_str, as_i64,
}

-- `bob rpc error`, with the code that the answer gives.
pub data RpcError : Type 0 where
  rpc_error : Option ℤ → RpcError

abbrev pub then_get {ℓ κ} : {A : Type ℓ} {B : Type κ} → Option A → (A → Option B) → Option B
then_get none f = none
then_get (some a) f = f a

abbrev pub or_else {ℓ} : {A : Type ℓ} → Option A → Option A → Option A
or_else none other = other
or_else (some a) other = some a

-- The result of an answer that reports no error; an answer without a result is its own.
abbrev pub result_of : Value → Result RpcError Value
result_of value = elim (get (codes "result") value) [ none ↦ ok value | some result ↦ ok result ]

abbrev pub checked_result : Value → Option Value → Result RpcError Value
checked_result value none = result_of value
checked_result value (some e) =
    if is_null e then result_of value else err (rpc_error (then_get (get (codes "code") e) as_i64))

-- `extract_result`.
unfoldable pub extract_result : Value → Result RpcError Value
extract_result value = checked_result value (get (codes "error") value)

-- `value_to_u64`.
unfoldable pub value_to_u64 : Value → Option ℕ
value_to_u64 (number n) = n.as_u64
value_to_u64 (string text) = parse_unsigned u64_max text
value_to_u64 _ = none

-- The first of the keys that has a value.
unfoldable pub find_key : Fields → List Text → Option Value
find_key map [] = none
find_key map (key ∷ keys) = or_else (lookup key map) (find_key map keys)

-- `extract_u64_field`.
unfoldable pub extract_u64_field : Value → List Text → Option ℕ
unfolding find_key value_to_u64
extract_u64_field (object map) keys = then_get (find_key map keys) value_to_u64
extract_u64_field _ keys = none

-- The first of the keys that has a text.
unfoldable pub find_text : Fields → List Text → Option Text
find_text map [] = none
find_text map (key ∷ keys) = or_else (then_get (lookup key map) as_str) (find_text map keys)

-- `extract_string_field`.
unfoldable pub extract_string_field : Value → List Text → Option Text
unfolding find_text
extract_string_field (object map) keys = find_text map keys
extract_string_field _ keys = none
