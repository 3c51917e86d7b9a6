-- ===== src/Engine/Handlers.antt =====
-- src/engine.rs: what every handler of a slot keeps, and that the handlers of a cycle keep it.
use qubic_random_client.Base.{ℕ, ◌≡◌, ◌∙◌, ap, none, All}
use qubic_random_client.Entropy.{External}
use qubic_random_client.Slot.{Focus, Attempt, ◌>>=◌, >>=-keeps, DrainReason}
use qubic_random_client.Slot.Keys.{
  expire_calls-key, dispatch_calls-key, harvest_broadcasts-key, finish_drain-key,
  finish_status_restart-key, prune_calls-key, enter_drain-key, start_if_ready-key, apply_status-key,
  extend_chain-key,
}
use qubic_random_client.Slot.Invariant.{IsSlot}
use qubic_random_client.Slot.Status.{StatusObservation, apply_status}
use qubic_random_client.Slot.Status.Keeps.{apply_status-IsSlot}
use qubic_random_client.Slot.Plan.{start_if_ready, extend_chain, enter_drain}
use qubic_random_client.Slot.Plan.Starts.{start_if_ready-IsSlot}
use qubic_random_client.Slot.Plan.Keeps.{extend_chain-IsSlot, enter_drain-IsSlot}
use qubic_random_client.Slot.Deliver.{expire_calls, dispatch_calls, harvest_broadcasts}
use qubic_random_client.Slot.Deliver.Keeps.{
  expire_calls-IsSlot, dispatch_calls-IsSlot, harvest_broadcasts-IsSlot,
}
use qubic_random_client.Slot.Deliver.Timely.{IsTimely, dispatch_calls-IsTimely}
use qubic_random_client.Slot.Finish.{finish_drain, finish_status_restart, prune_calls}
use qubic_random_client.Slot.Finish.Keeps.{
  finish_drain-IsSlot, finish_status_restart-IsSlot, prune_calls-IsSlot,
}
use qubic_random_client.Slot.Outbox.{
  expire_calls-outbox, harvest_broadcasts-outbox, finish_drain-outbox, finish_status_restart-outbox,
  prune_calls-outbox, enter_drain-outbox, start_if_ready-outbox, apply_status-outbox,
  extend_chain-outbox,
}
use qubic_random_client.Engine.Cycle.{deliver}

-- The slot stays well formed and keeps its stream, and every broadcast started is timely.
pub record IsHandled (stream : ℕ) (f : Focus) : Type 0 where
  pub slot_valid : IsSlot f.slot
  pub on_stream : f.slot.key.stream ≡ stream
  pub timely : All IsTimely f.outbox

abbrev pub Keeps : (Focus → Attempt Focus) → Type 0
Keeps op = (stream : ℕ) (f : Focus) → IsHandled stream f → IsHandled stream (op f).0

module _ (op : Focus → Attempt Focus) where
  -- A handler that starts no broadcast.
  pub Keeps-of :
      ((f : Focus) → IsSlot f.slot → IsSlot (op f).0.slot)
      → ((f : Focus) → (op f).0.slot.key ≡ f.slot.key)
      → ((f : Focus) → (op f).0.outbox ≡ f.outbox)
      → Keeps op
  Keeps-of slot key outbox stream f h = record {
    slot_valid = slot f h.slot_valid;
    on_stream = ap (λ k. k.stream) (key f) ∙ h.on_stream;
    timely = rw (outbox f) h.timely;
  }

Keeps-of_total :
    (op : Focus → Focus)
    → ((f : Focus) → IsSlot f.slot → IsSlot (op f).slot)
    → ((f : Focus) → (op f).slot.key ≡ f.slot.key)
    → ((f : Focus) → (op f).outbox ≡ f.outbox)
    → Keeps (λ f. (op f, none))
Keeps-of_total op = Keeps-of (λ f. (op f, none))

pub Keeps-then :
    (op next : Focus → Attempt Focus) → Keeps op → Keeps next → Keeps (λ f. op f >>= next)
Keeps-then op next h k stream f v =
    >>=-keeps (IsHandled stream) (op f) next (h stream f v) (k stream)

module _ (x : External) (tick : ℕ) where
  pub start_if_ready-Keeps : Keeps (start_if_ready x tick)
  start_if_ready-Keeps =
      Keeps-of (start_if_ready x tick) (start_if_ready-IsSlot x tick) (start_if_ready-key x tick)
        (start_if_ready-outbox x tick)

  pub extend_chain-Keeps : Keeps (extend_chain x tick)
  extend_chain-Keeps =
      Keeps-of (extend_chain x tick) (extend_chain-IsSlot x tick) (extend_chain-key x tick)
        (extend_chain-outbox x tick)

pub enter_drain-Keeps : (x : External) (reason : DrainReason) → Keeps (enter_drain x reason)
enter_drain-Keeps x reason =
    Keeps-of (enter_drain x reason) (enter_drain-IsSlot x reason) (enter_drain-key x reason)
      (enter_drain-outbox x reason)

pub apply_status-Keeps : (o : StatusObservation) → Keeps (λ f. (apply_status o f, none))
apply_status-Keeps o =
    Keeps-of_total (apply_status o) (apply_status-IsSlot o) (apply_status-key o)
      (apply_status-outbox o)

pub harvest_broadcasts-Keeps : Keeps (λ f. (harvest_broadcasts f, none))
harvest_broadcasts-Keeps =
    Keeps-of_total harvest_broadcasts harvest_broadcasts-IsSlot harvest_broadcasts-key
      harvest_broadcasts-outbox

expire_calls-Keeps : (tick : ℕ) → Keeps (λ f. (expire_calls tick f, none))
expire_calls-Keeps tick =
    Keeps-of_total (expire_calls tick) (expire_calls-IsSlot tick) (expire_calls-key tick)
      (expire_calls-outbox tick)

finish_drain-Keeps : Keeps (λ f. (finish_drain f, none))
finish_drain-Keeps =
    Keeps-of_total finish_drain finish_drain-IsSlot finish_drain-key finish_drain-outbox

finish_status_restart-Keeps : (tick : ℕ) → Keeps (λ f. (finish_status_restart tick f, none))
finish_status_restart-Keeps tick =
    Keeps-of_total (finish_status_restart tick) (finish_status_restart-IsSlot tick)
      (finish_status_restart-key tick) (finish_status_restart-outbox tick)

prune_calls-Keeps : (tick : ℕ) → Keeps (λ f. (prune_calls tick f, none))
prune_calls-Keeps tick =
    Keeps-of_total (prune_calls tick) (prune_calls-IsSlot tick) (prune_calls-key tick)
      (prune_calls-outbox tick)

dispatch_calls-Keeps :
    (x : External) (tick duration : ℕ) → Keeps (λ f. (dispatch_calls x tick duration f, none))
dispatch_calls-Keeps x tick duration stream f h = record {
  slot_valid = dispatch_calls-IsSlot x tick duration f h.slot_valid;
  on_stream = ap (λ k. k.stream) (dispatch_calls-key x tick duration f) ∙ h.on_stream;
  timely = dispatch_calls-IsTimely x tick duration f h.timely;
}

pub deliver-Keeps :
    (x : External) (tick duration : ℕ) → Keeps (λ f. (deliver x tick duration f, none))
unfolding deliver
deliver-Keeps x tick duration stream f h = prune_calls-Keeps tick stream _ (
    finish_status_restart-Keeps tick stream _ (
      finish_drain-Keeps stream _
        (dispatch_calls-Keeps x tick duration stream _ (expire_calls-Keeps tick stream f h))))
