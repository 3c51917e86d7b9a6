-- ===== src/Backend/Lawful/Service.antt =====
-- The RPC backend keeps the promises.
use qubic_random_client.Base.{
  ℕ, ◌≤◌, ◌≡◌, false, List, Option, none, some, ◌==◌, arith, Text, codes, trim, is_empty, u32_max,
  Bool-cases, inl, inr,
}
use qubic_random_client.Base.Result.{ok, map_err, ok_or, >>=-ok, map_err-ok}
use qubic_random_client.Json.{ℤ, pos, negsuc}
use qubic_random_client.Http.{
  request_failed, url_for, no_payload, get_tick_data_request, broadcast_transaction_request,
  Network, Payload, fetch, max_response_bytes,
}
use qubic_random_client.Http.Bounded.{concat, read_json_iff}
use qubic_random_client.Backend.{TickInfo, TickTransactions}
use qubic_random_client.Backend.Clients.{
  status_failed, tick_data_failed, broadcast_failed, from_bool,
}
use qubic_random_client.Backend.Rpc.{
  Wire, RpcBackend, TickInfoResponse, rpc_tick_info, rpc_backend, rpc_broadcast_transaction,
  accepted_by, rpc_tick_has_transactions, TickData, has_hashes, normalize_rpc_tick_duration_ms,
}
use qubic_random_client.Backend.Lawful.{InRange, IsLawful, validate_transaction_id-nonblank}

-- The numbers of `scapi`'s messages are 32-bit, as their types say.
abbrev pub IsWire : Wire → Type 0
IsWire w =
    (bytes : List ℕ) (r : TickInfoResponse)
    → w.tick_info_response bytes ≡ some r
    → (r.epoch ≤ u32_max) × (r.tick ≤ u32_max) × (r.initial_tick ≤ u32_max) × (r.duration ≤ u32_max)

fetch-decoded :
    {A : Type 0} (send : Network) (from_slice : List ℕ → Option A) (url : Text) (payload : Payload)
    (value : A)
    → fetch send from_slice url payload ≡ ok value
    → (bytes : List ℕ) × (from_slice bytes ≡ some value)
unfolding fetch
fetch-decoded send from_slice url payload value e =
    let (response, er, ev) = >>=-ok (ok_or request_failed (send url payload)) _ e in
    let c = (read_json_iff from_slice response max_response_bytes value).0 ev in
    (concat c.parts, c.decoded)

rpc_tick_info-InRange :
    (w : Wire) (send : Network) (b : RpcBackend) (info : TickInfo)
    → IsWire w
    → rpc_tick_info w send b ≡ ok info
    → InRange info
unfolding rpc_tick_info normalize_rpc_tick_duration_ms
rpc_tick_info-InRange w send b info wire e =
    let url = url_for b.live (codes "tick-info") in
    let (r, er, same) =
      >>=-ok (map_err status_failed (fetch send w.tick_info_response url no_payload)) _ e in
    let (bytes, decoded) =
      fetch-decoded send w.tick_info_response url no_payload r (map_err-ok _ _ er) in
    let (epoch, tick, initial, duration) = wire bytes r decoded in ground arith

rpc_broadcast_transaction-nonblank :
    (w : Wire) (send : Network) (b : RpcBackend) (bytes : List ℕ) (id : Text)
    → rpc_broadcast_transaction w send b bytes ≡ ok id
    → is_empty (trim id) ≡ false
unfolding rpc_broadcast_transaction
rpc_broadcast_transaction-nonblank w send b bytes id e =
    let answer =
      fetch send w.broadcast_response (url_for b.live (codes "broadcast-transaction"))
        (broadcast_transaction_request (w.base64_encode bytes)) in
    let (r, er, e') = >>=-ok (map_err broadcast_failed answer) _ e in
    accepted r.peers_broadcasted r.transaction_id e'
  where
    accepted :
        (peers : ℤ) (text : Text) → accepted_by peers text ≡ ok id → is_empty (trim id) ≡ false
    accepted (pos n) text e = elim (Bool-cases (n == 0)) [
      | inl nobody ↦ let e' = rw nobody at e in cc
      | inr some_peer ↦ validate_transaction_id-nonblank text id (rw some_peer at e)
    ]
    accepted (negsuc n) text e = cc

rpc_tick_has_transactions-Consistent :
    (w : Wire) (send : Network) (b : RpcBackend) (tick : ℕ) (t : TickTransactions)
    → rpc_tick_has_transactions w send b tick ≡ ok t
    → t.transaction_digests ≡ none
unfolding rpc_tick_has_transactions from_bool
rpc_tick_has_transactions-Consistent w send b tick t e =
    let answer =
      fetch send w.tick_data_response (url_for b.query (codes "getTickData"))
        (get_tick_data_request tick) in
    let (r, er, e') = >>=-ok (map_err tick_data_failed answer) _ e in told r e'
  where
    told : (r : Option TickData) → has_hashes tick r ≡ ok t → t.transaction_digests ≡ none
    told none e = ground arith
    told (some found) e = ground arith

pub rpc_backend-IsLawful :
    (w : Wire) (send : Network) → IsWire w → IsLawful (λ b. Unit {0}) (rpc_backend w send)
unfolding rpc_backend
rpc_backend-IsLawful w send wire = record {
  tick_info = λ s h. tt;
  others = λ s tick request bytes h. (tt, tt, tt);
  tick_info_range = λ s info h e. rpc_tick_info-InRange w send s info wire e;
  digests = λ s tick t e. rw (rpc_tick_has_transactions-Consistent w send s tick t e) tt;
  transaction_id = λ s bytes id e. rpc_broadcast_transaction-nonblank w send s bytes id e;
}
