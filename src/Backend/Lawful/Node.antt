-- ===== src/Backend/Lawful/Node.antt =====
-- The Bob backend keeps the promises.
use qubic_random_client.Base.{
  ℕ, ◌≤◌, ◌≡◌, sym, false, [], ◌∷◌, Option, none, some, leb, leb→le, arith, Text, codes, trim,
  is_empty, parse_unsigned, parse_unsigned-le, u32_max, max, Bool-cases, Option-cases, inl, inr,
}
use mathlib.Core.Path.{subst}
use qubic_random_client.Base.Result.{Result, ok, map_err, ok_or, >>=-ok, guard-ok}
use qubic_random_client.Json.{Value, get, as_u64, as_str}
use qubic_random_client.Bob.{extract_result, extract_u64_field, then_get, or_else}
use qubic_random_client.Http.{HttpError}
use qubic_random_client.Backend.{TickInfo, TickTransactions}
use qubic_random_client.Backend.Clients.{
  status_failed, tick_data_failed, broadcast_failed, no_transaction_id, invalid_broadcast_response,
  from_bool, missing_field,
}
use qubic_random_client.Backend.BobNode.{
  Rounds, Decoder, checked_u32_field, read_status, status_fields, bob_result, fits_u32,
  optional_u32_field, unwrap_or, read_broadcast, tick_duration, bob_backend, transaction_id_of,
  read_transfers, bob_has_transactions, bob_tick_info, bob_tick_has_transactions,
  bob_broadcast_transaction,
}
use qubic_random_client.Backend.Lawful.{InRange, IsLawful, validate_transaction_id-nonblank}

checked_u32_field-le :
    (v : Value) (key : Text) (n : ℕ) → checked_u32_field v key ≡ ok n → n ≤ u32_max
unfolding checked_u32_field
checked_u32_field-le v key n e =
    let (m, em, e') = >>=-ok (ok_or (missing_field key) (extract_u64_field v (key ∷ []))) _ e in
    let (fits, same) = guard-ok (leb m u32_max) _ _ e' in
    let eq : m ≡ n = cc in rw (← eq) (leb→le m u32_max fits)

abbrev Fits : Option ℕ → Type 0
Fits none = Unit
Fits (some n) = n ≤ u32_max

fits_u32-Fits : (n : ℕ) → Fits (fits_u32 n)
fits_u32-Fits n = elim (Bool-cases (leb n u32_max)) [
  | inl e ↦ rw e (leb→le n u32_max e)
  | inr e ↦ rw e tt
]

or_else-Fits : (o p : Option ℕ) → Fits o → Fits p → Fits (or_else o p)
or_else-Fits none p h k = k
or_else-Fits (some n) p h k = h

parse_unsigned-Fits : (text : Text) → Fits (parse_unsigned u32_max text)
parse_unsigned-Fits text = elim (Option-cases (parse_unsigned u32_max text)) [
  | inl e ↦ rw e tt
  | inr (n, e) ↦ rw e (parse_unsigned-le u32_max text e)
]

u64_Fits : (o : Option ℕ) → Fits (then_get o fits_u32)
u64_Fits none = tt
u64_Fits (some n) = fits_u32-Fits n

text_Fits : (o : Option Text) → Fits (then_get o (parse_unsigned u32_max))
text_Fits none = tt
text_Fits (some text) = parse_unsigned-Fits text

optional_u32_field-Fits : (v : Value) (key : Text) → Fits (optional_u32_field v key)
unfolding optional_u32_field
optional_u32_field-Fits v key = elim (Option-cases (get key v)) [
  | inl e ↦ rw e tt
  | inr (found, e) ↦ rw e (
      or_else-Fits (then_get (as_u64 found) fits_u32) _ (u64_Fits (as_u64 found))
        (text_Fits (as_str found)))
]

duration_bounds :
    (o : Option ℕ)
    → Fits o
    → (1 ≤ max (unwrap_or 1_000 o) 1) × (max (unwrap_or 1_000 o) 1 ≤ u32_max)
duration_bounds none h = omega arith
duration_bounds (some n) h = omega arith

tick_duration_bounds : (v : Value) → (1 ≤ tick_duration v) × (tick_duration v ≤ u32_max)
tick_duration_bounds v = duration_bounds _ (
    or_else-Fits (optional_u32_field v (codes "tickDurationMs")) _ (optional_u32_field-Fits v _) (
      or_else-Fits (optional_u32_field v (codes "tickDuration")) _ (optional_u32_field-Fits v _)
        (optional_u32_field-Fits v (codes "duration"))))

status_fields-InRange : (r : Value) (info : TickInfo) → status_fields r ≡ ok info → InRange info
unfolding status_fields
status_fields-InRange r info e2 =
    let (epoch, ee, e3) = >>=-ok (checked_u32_field r (codes "currentProcessingEpoch")) _ e2 in
    let (tick, et, e4) = >>=-ok (checked_u32_field r (codes "currentVerifyLoggingTick")) _ e3 in
    let (initial, ei, e5) = >>=-ok (checked_u32_field r (codes "initialTick")) _ e4 in
    let same : info ≡ record {
      epoch = epoch;
      tick = tick;
      initial_tick = initial;
      tick_duration_ms = tick_duration r;
    } =
      cc in
    subst InRange (sym same) (record {
      epoch = checked_u32_field-le r _ epoch ee;
      tick = checked_u32_field-le r _ tick et;
      initial_tick = checked_u32_field-le r _ initial ei;
      duration = tick_duration_bounds r;
    })

read_status-InRange :
    (answer : Result HttpError Value) (info : TickInfo)
    → read_status answer ≡ ok info
    → InRange info
unfolding read_status
read_status-InRange answer info e =
    let (value, ev, e1) = >>=-ok (map_err status_failed answer) _ e in
    let (r, er, e2) = >>=-ok (bob_result (extract_result value)) _ e1 in
    status_fields-InRange r info e2

read_transfers-none :
    (answer : Result HttpError Value) (t : TickTransactions)
    → read_transfers answer ≡ ok t
    → t.transaction_digests ≡ none
unfolding read_transfers from_bool
read_transfers-none answer t e =
    let (value, ev, e1) = >>=-ok (map_err tick_data_failed answer) _ e in
    let (r, er, e2) = >>=-ok (bob_result (extract_result value)) _ e1 in
    let (has, eh, e3) = >>=-ok (bob_has_transactions r) _ e2 in ground arith

read_broadcast-nonblank :
    (answer : Result HttpError Value) (id : Text)
    → read_broadcast answer ≡ ok id
    → is_empty (trim id) ≡ false
unfolding read_broadcast
read_broadcast-nonblank answer id e =
    let (value, ev, e1) = >>=-ok (map_err broadcast_failed answer) _ e in
    let (r, er, e2) = >>=-ok (map_err invalid_broadcast_response (extract_result value)) _ e1 in
    let (text, et, e3) = >>=-ok (ok_or no_transaction_id (transaction_id_of r)) _ e2 in
    validate_transaction_id-nonblank text id e3

pub bob_backend-IsLawful :
    (env : Rounds) (from_slice : Decoder) (start : ℕ)
    → IsLawful (λ b. Unit {0}) (bob_backend env from_slice start)
unfolding bob_backend bob_tick_info bob_tick_has_transactions bob_broadcast_transaction
bob_backend-IsLawful env from_slice start = record {
  tick_info = λ s h. tt;
  others = λ s tick request bytes h. (tt, tt, tt);
  tick_info_range = λ s info h e. read_status-InRange _ info e;
  digests = λ s tick t e. rw (read_transfers-none _ t e) tt;
  transaction_id = λ s bytes id e. read_broadcast-nonblank _ id e;
}
