-- ===== src/Engine/Recorded.antt =====
-- src/engine.rs: every handler of a slot keeps the record of the broadcasts.
use qubic_random_client.Base.{ℕ, ◌≡◌, List, none}
use qubic_random_client.Entropy.{External}
use qubic_random_client.Slot.{Focus, Attempt, ◌>>=◌, >>=-keeps, DrainReason, ManagedSlot}
use qubic_random_client.Slot.Keys.{
  expire_calls-key, harvest_broadcasts-key, finish_drain-key, finish_status_restart-key,
  prune_calls-key, enter_drain-key, start_if_ready-key, apply_status-key, extend_chain-key,
}
use qubic_random_client.Slot.Invariant.{IsSlot}
use qubic_random_client.Slot.Ledger.{Knows}
use qubic_random_client.Slot.Status.{StatusObservation, apply_status}
use qubic_random_client.Slot.Status.Ledger.{apply_status-Knows}
use qubic_random_client.Slot.Plan.{start_if_ready, extend_chain, enter_drain}
use qubic_random_client.Slot.Plan.Starts.{start_if_ready-IsSlot}
use qubic_random_client.Slot.Plan.Keeps.{extend_chain-IsSlot}
use qubic_random_client.Slot.Plan.Ledger.{start_if_ready-Knows}
use qubic_random_client.Slot.Plan.Ledger.Chains.{extend_chain-Knows, enter_drain-Knows}
use qubic_random_client.Slot.Deliver.{expire_calls, dispatch_calls, harvest_broadcasts}
use qubic_random_client.Slot.Deliver.Keeps.{expire_calls-IsSlot, dispatch_calls-IsSlot}
use qubic_random_client.Slot.Deliver.Ledger.{expire_calls-Knows, harvest_broadcasts-Knows}
use qubic_random_client.Slot.Deliver.Recorded.{
  IsRecorded, IsRecorded-slot, dispatch_calls-IsRecorded,
}
use qubic_random_client.Slot.Finish.{finish_drain, finish_status_restart, prune_calls}
use qubic_random_client.Slot.Finish.Keeps.{finish_drain-IsSlot, finish_status_restart-IsSlot}
use qubic_random_client.Slot.Finish.Ledger.{
  finish_drain-Knows, finish_status_restart-Knows, prune_calls-Knows,
}
use qubic_random_client.Slot.Outbox.{
  expire_calls-outbox, harvest_broadcasts-outbox, finish_drain-outbox, finish_status_restart-outbox,
  prune_calls-outbox, enter_drain-outbox, start_if_ready-outbox, apply_status-outbox,
  extend_chain-outbox,
}
use qubic_random_client.Engine.Cycle.{deliver}

abbrev pub Records : (Focus → Attempt Focus) → Type 0
Records op =
    (others : List ManagedSlot) (f : Focus)
    → IsSlot f.slot
    → IsRecorded f.slot others f.outbox
    → IsRecorded (op f).0.slot others (op f).0.outbox

-- A handler that starts no broadcast and forgets none.
Records-of :
    (op : Focus → Attempt Focus)
    → ((f : Focus) → (op f).0.slot.key ≡ f.slot.key)
    → ((f : Focus) → (op f).0.outbox ≡ f.outbox)
    → ((t : ℕ) (bytes : List ℕ) (f : Focus)
        → IsSlot f.slot
        → Knows t bytes f.slot
        → Knows t bytes (op f).0.slot)
    → Records op
Records-of op key outbox knows others f v h = rw (outbox f) (
    IsRecorded-slot f.slot (op f).0.slot others f.outbox (key f) (λ t bytes k. knows t bytes f v k)
      h)

Records-of_total :
    (op : Focus → Focus)
    → ((f : Focus) → (op f).slot.key ≡ f.slot.key)
    → ((f : Focus) → (op f).outbox ≡ f.outbox)
    → ((t : ℕ) (bytes : List ℕ) (f : Focus)
        → IsSlot f.slot
        → Knows t bytes f.slot
        → Knows t bytes (op f).slot)
    → Records (λ f. (op f, none))
Records-of_total op = Records-of (λ f. (op f, none))

pub enter_drain-Records : (x : External) (reason : DrainReason) → Records (enter_drain x reason)
enter_drain-Records x reason =
    Records-of (enter_drain x reason) (enter_drain-key x reason) (enter_drain-outbox x reason)
      (λ t bytes f v. enter_drain-Knows t bytes x reason f)

pub apply_status-Records : (o : StatusObservation) → Records (λ f. (apply_status o f, none))
apply_status-Records o =
    Records-of_total (apply_status o) (apply_status-key o) (apply_status-outbox o)
      (λ t bytes. apply_status-Knows t bytes o)

pub harvest_broadcasts-Records : Records (λ f. (harvest_broadcasts f, none))
harvest_broadcasts-Records =
    Records-of_total harvest_broadcasts harvest_broadcasts-key harvest_broadcasts-outbox
      (λ t bytes f v. harvest_broadcasts-Knows t bytes f)

module _ (x : External) (tick : ℕ) where
  start_if_ready-Records : Records (start_if_ready x tick)
  start_if_ready-Records =
      Records-of (start_if_ready x tick) (start_if_ready-key x tick) (start_if_ready-outbox x tick)
        (λ t bytes. start_if_ready-Knows t bytes x tick)

  extend_chain-Records : Records (extend_chain x tick)
  extend_chain-Records =
      Records-of (extend_chain x tick) (extend_chain-key x tick) (extend_chain-outbox x tick)
        (λ t bytes. extend_chain-Knows t bytes x tick)

  pub plan-Records : Records (λ f. start_if_ready x tick f >>= extend_chain x tick)
  plan-Records others f v h =
      (>>=-keeps (λ g. IsSlot g.slot × IsRecorded g.slot others g.outbox) (start_if_ready x tick f)
        (extend_chain x tick)
        (start_if_ready-IsSlot x tick f v, start_if_ready-Records others f v h)
        (λ g k. (extend_chain-IsSlot x tick g k.0, extend_chain-Records others g k.0 k.1))).1

expire_calls-Records : (tick : ℕ) → Records (λ f. (expire_calls tick f, none))
expire_calls-Records tick =
    Records-of_total (expire_calls tick) (expire_calls-key tick) (expire_calls-outbox tick)
      (λ t bytes. expire_calls-Knows t bytes tick)

finish_drain-Records : Records (λ f. (finish_drain f, none))
finish_drain-Records =
    Records-of_total finish_drain finish_drain-key finish_drain-outbox
      (λ t bytes f v. finish_drain-Knows t bytes f)

finish_status_restart-Records : (tick : ℕ) → Records (λ f. (finish_status_restart tick f, none))
finish_status_restart-Records tick =
    Records-of_total (finish_status_restart tick) (finish_status_restart-key tick)
      (finish_status_restart-outbox tick) (λ t bytes. finish_status_restart-Knows t bytes tick)

prune_calls-Records : (tick : ℕ) → Records (λ f. (prune_calls tick f, none))
prune_calls-Records tick =
    Records-of_total (prune_calls tick) (prune_calls-key tick) (prune_calls-outbox tick)
      (λ t bytes f v. prune_calls-Knows t bytes tick f)

pub deliver-Records :
    (x : External) (tick duration : ℕ) → Records (λ f. (deliver x tick duration f, none))
unfolding deliver
deliver-Records x tick duration others f v h =
    let expired = expire_calls tick f in
    let sent = dispatch_calls x tick duration expired in
    let ended = finish_drain sent in
    let v1 = expire_calls-IsSlot tick f v in
    let v2 = dispatch_calls-IsSlot x tick duration expired v1 in
    let v3 = finish_drain-IsSlot sent v2 in
    let h1 = expire_calls-Records tick others f v h in
    let h2 = dispatch_calls-IsRecorded x tick duration others expired v1 h1 in
    let h3 = finish_drain-Records others sent v2 h2 in
    prune_calls-Records tick others _ (finish_status_restart-IsSlot tick ended v3)
      (finish_status_restart-Records tick others ended v3 h3)
