-- ===== src/Engine.antt =====
-- src/engine.rs: `ProviderEngine`, its cycle and its run loop.
pub mod Handlers
pub mod Recorded
pub mod Invariant
pub mod Phase
pub mod Cycle
pub mod Run
pub mod Events
pub mod Ledger
pub mod Checked
pub mod Safety
use qubic_random_client.Base.{ℕ, Bool, false, List, [], ◌∷◌, Option, none, some}
use qubic_random_client.Contract.{SlotKey, ProviderStatus}
use qubic_random_client.Chain.{NetworkTask}
use qubic_random_client.Monitor.{Monitor}
use qubic_random_client.Slot.{ManagedSlot, Focus, Attempt, Broadcast, Error, waiting}
use qubic_random_client.Epoch.{EpochPhase}

pub record PendingStatusQuery : Type 0 where
  pub epoch : ℕ
  pub requested_tick : ℕ
  pub task : NetworkTask ProviderStatus

-- The fields of `ProviderEngine`; those that the slots share but `collateral` are in `monitor`.
-- `drawn` counts the preimages drawn, `outbox` holds the broadcast tasks started, newest first.
pub record Engine : Type 0 where
  pub collateral : ℕ
  pub slots : List ManagedSlot
  pub status_query : Option PendingStatusQuery
  pub next_status_query_at : ℕ
  pub epoch_phase : Option EpochPhase
  pub epoch_stop_lead_time_secs : ℕ
  pub epoch_resume_delay_ticks : ℕ
  pub monitor : Monitor
  pub drawn : ℕ
  pub outbox : List Broadcast

-- The engine as the handlers of one slot see it.
abbrev pub focus : Engine → ManagedSlot → Focus
focus e slot = record {
  collateral = e.collateral;
  slot = slot;
  monitor = e.monitor;
  drawn = e.drawn;
  outbox = e.outbox;
}

-- What the handlers of a slot leave in the shared fields.
abbrev pub absorb : Focus → Engine → Engine
absorb f e = record e { monitor = f.monitor; drawn = f.drawn; outbox = f.outbox }

-- `for index in 0..self.slots.len() { op(index)?; }` from one slot on: the slots as they are left,
-- the engine, and the error that ended the loop.
unfoldable pub for_slots :
    (Focus → Attempt Focus) → List ManagedSlot → Engine → List ManagedSlot × Engine × Option Error
for_slots op [] e = ([], e, none)
for_slots op (slot ∷ slots) e =
    let (f, error) = op (focus e slot) in
    let (slots', e', error') = for_slots op slots (absorb f e) in
    elim error [
      | some x ↦ (f.slot ∷ slots, absorb f e, some x)
      | none ↦ (f.slot ∷ slots', e', error')
    ]

unfoldable pub each_slot : (Focus → Attempt Focus) → Engine → Attempt Engine
unfolding for_slots
each_slot op e =
    let (slots, e', error) = for_slots op e.slots e in (record e' { slots = slots }, error)

-- A loop over the slots with a body that cannot fail.
abbrev pub each_slot_total : (Focus → Focus) → Engine → Attempt Engine
each_slot_total op = each_slot (λ f. (op f, none))

-- The slot that `ProviderEngine::new` and `reset_slots` leave.
abbrev pub fresh_slot : SlotKey → ManagedSlot
fresh_slot key = record { key = key; state = waiting 0 false; chain = none; restart_at = 0 }
