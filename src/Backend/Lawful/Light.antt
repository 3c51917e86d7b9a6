-- ===== src/Backend/Lawful/Light.antt =====
-- The gRPC backend keeps the promises.
use qubic_random_client.Base.{
  ℕ, ◌≤◌, ◌≡◌, Bool, true, false, List, if◌then◌else◌, arith, Text, trim, is_empty, u32_max, inl,
  inr,
}
use qubic_random_client.Base.Result.{ok, err, ok_or, >>=-ok, Result-cases}
use qubic_random_client.Backend.{TickInfo, TickTransactions}
use qubic_random_client.Backend.Clients.{
  tick_data_failed, broadcast_failed, broadcast_rejected, validate_transaction_id,
}
use qubic_random_client.Backend.Qln.{
  LightNode, QlnTickFallback, TickStatus, qln_backend, normalize_qln_tick_info, status_of,
  qln_tick_info, qln_tick_has_transactions, GetTickTransactionsResponse, qln_broadcast_transaction,
}
use qubic_random_client.Backend.Qln.Digests.{Content, read_tick_transactions_iff}
use qubic_random_client.Backend.Lawful.{
  InRange, Consistent, IsLawful, validate_transaction_id-nonblank,
}

abbrev pub IsNode : LightNode → Type 0
IsNode node =
    (s : TickStatus)
    → status_of node.get_status ≡ ok s
    → (s.epoch ≤ u32_max)
      × (s.tick ≤ u32_max)
      × (s.initial_tick ≤ u32_max)
      × (s.tick_duration_ms ≤ u32_max)

abbrev pub IsFallback : QlnTickFallback → Type 0
IsFallback f = f.initial_tick ≤ u32_max

normalize_qln_tick_info-InRange :
    (s : TickStatus) (f : QlnTickFallback)
    → IsFallback f
    → (s.epoch ≤ u32_max)
      × (s.tick ≤ u32_max)
      × (s.initial_tick ≤ u32_max)
      × (s.tick_duration_ms ≤ u32_max)
    → InRange (normalize_qln_tick_info s f).0 × IsFallback (normalize_qln_tick_info s f).1
unfolding normalize_qln_tick_info
normalize_qln_tick_info-InRange s f h range = (ground arith, ground arith)

qln_tick_info-InRange :
    (node : LightNode) (f : QlnTickFallback)
    → IsFallback f
    → IsNode node
    → IsFallback (qln_tick_info node f).1
      × ((info : TickInfo) → (qln_tick_info node f).0 ≡ ok info → InRange info)
unfolding qln_tick_info
qln_tick_info-InRange node f h range = elim (Result-cases (status_of node.get_status)) [
  | inl (s, e) ↦
      let (fits, kept) = normalize_qln_tick_info-InRange s f h (range s e) in
      rw (e, qln_tick_info)
        (kept, λ info same. let eq : (normalize_qln_tick_info s f).0 ≡ info = cc in rw (← eq) fits)
  | inr (x, e) ↦ rw (e, qln_tick_info) (h, λ info bad. cc)
]

qln_tick_has_transactions-Consistent :
    (node : LightNode) (tick : ℕ) (t : TickTransactions)
    → qln_tick_has_transactions node tick ≡ ok t
    → Consistent t.has_transactions t.transaction_digests
unfolding qln_tick_has_transactions
qln_tick_has_transactions-Consistent node tick t e =
    let (r, er, e') = >>=-ok (ok_or tick_data_failed (node.get_tick_transactions tick)) _ e in
    let (success, asked, same, content) = (read_tick_transactions_iff r tick t).0 e' in
    consistent r.digests_complete r same content
  where
    consistent :
        (complete : Bool) (r : GetTickTransactionsResponse)
        → t.has_transactions ≡ r.has_transactions
        → Content complete r t
        → Consistent t.has_transactions t.transaction_digests
    consistent true r same (all, short, agrees, valid) = rw (all, same) (valid, agrees)
    consistent false r same (told_none, nothing) = rw told_none tt

qln_broadcast_transaction-nonblank :
    (node : LightNode) (bytes : List ℕ) (id : Text)
    → qln_broadcast_transaction node bytes ≡ ok id
    → is_empty (trim id) ≡ false
unfolding qln_broadcast_transaction
qln_broadcast_transaction-nonblank node bytes id e =
    let (r, er, e') = >>=-ok (ok_or broadcast_failed (node.broadcast_transaction bytes)) _ e in
    accepted r.success r.tx_id e'
  where
    accepted :
        (success : Bool) (text : Text)
        → (if success then validate_transaction_id text else err broadcast_rejected) ≡ ok id
        → is_empty (trim id) ≡ false
    accepted true text e = validate_transaction_id-nonblank text id e
    accepted false text e = cc

pub qln_backend-IsLawful : (node : LightNode) → IsNode node → IsLawful IsFallback (qln_backend node)
unfolding qln_backend
qln_backend-IsLawful node range = record {
  tick_info = λ f h. (qln_tick_info-InRange node f h range).0;
  others = λ s tick request bytes h. (h, h, h);
  tick_info_range = λ f info h e. (qln_tick_info-InRange node f h range).1 info e;
  digests = λ f tick t e. qln_tick_has_transactions-Consistent node tick t e;
  transaction_id = λ f bytes id e. qln_broadcast_transaction-nonblank node bytes id e;
}
