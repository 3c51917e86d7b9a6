-- ===== src/Json.antt =====
-- The values of `serde_json` as src/bob.rs, src/http.rs and src/backend.rs take them apart. How
-- bytes are read as a value is a parameter of the code that does it.
use qubic_random_client.Base.{
  ℕ, Bool, true, false, Option, none, some, Text, text_eq, if◌then◌else◌,
}

-- An `i64`; `negsuc n` is -(n + 1).
pub data ℤ : Type 0 where
  pos : ℕ → ℤ
  negsuc : ℕ → ℤ

-- A `serde_json::Number`, by what it answers.
pub record Number : Type 0 where
  pub as_u64 : Option ℕ
  pub as_i64 : Option ℤ

mutual
  pub data Value : Type 0 where
    null : Value
    boolean : Bool → Value
    number : Number → Value
    string : Text → Value
    array : Items → Value
    object : Fields → Value

  pub data Items : Type 0 where
    nil : Items
    cons : Value → Items → Items

  pub data Fields : Type 0 where
    end : Fields
    field : Text → Value → Fields → Fields

-- `Map::get`.
unfoldable pub lookup : Text → Fields → Option Value
lookup key end = none
lookup key (field k v rest) = if text_eq k key then some v else lookup key rest

-- `Value::get`, for a key.
abbrev pub get : Text → Value → Option Value
get key (object fields) = lookup key fields
get key _ = none

abbrev pub is_null : Value → Bool
is_null null = true
is_null _ = false

abbrev pub as_str : Value → Option Text
as_str (string s) = some s
as_str _ = none

abbrev pub as_array : Value → Option Items
as_array (array items) = some items
as_array _ = none

abbrev pub as_u64 : Value → Option ℕ
as_u64 (number n) = n.as_u64
as_u64 _ = none

abbrev pub as_i64 : Value → Option ℤ
as_i64 (number n) = n.as_i64
as_i64 _ = none

abbrev pub no_items : Items → Bool
no_items nil = true
no_items (cons v rest) = false
