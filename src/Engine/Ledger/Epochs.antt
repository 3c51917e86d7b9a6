-- ===== src/Engine/Ledger/Epochs.antt =====
-- src/engine.rs: the events of one epoch keep the record of its broadcasts.
use qubic_random_client.Base.{
  ℕ, ◌≡◌, ◌⊎◌, refl, List, [], ◌∷◌, Option, none, some, arith, All, inl, inr, Option-cases, Bool,
  true, Bool-cases,
}
use qubic_random_client.Backend.{TickInfo}
use qubic_random_client.Epoch.{EpochPhase, UtcTime, warmup, active, draining}
use qubic_random_client.Slot.{ManagedSlot, Focus, Attempt}
use qubic_random_client.Slot.Deliver.Recorded.{Remembers}
use qubic_random_client.Engine.{Engine, focus, absorb, for_slots, each_slot}
use qubic_random_client.Engine.Phase.{
  update_epoch_phase, observe_epoch, reset_slots, finish_warmup, begin_draining, is_epoch,
}
use qubic_random_client.Engine.Handlers.{Keeps}
use qubic_random_client.Engine.Recorded.{Records}
use qubic_random_client.Engine.Invariant.{
  IsEngine, streams, each_slot-IsEngine, update_epoch_phase-IsEngine,
}
use qubic_random_client.Engine.Ledger.{IsLedger, for_slots-Ledger}

-- A well-formed engine whose broadcasts are recorded.
pub record IsBooked (e : Engine) : Type 0 where
  pub valid : IsEngine e
  pub ledger : IsLedger e.slots e.outbox

pub each_slot-IsBooked :
    (op : Focus → Attempt Focus) (e : Engine)
    → Keeps op
    → Records op
    → IsBooked e
    → IsBooked (each_slot op e).0
unfolding each_slot
each_slot-IsBooked op e k r b = record {
  valid = each_slot-IsEngine op e k b.valid;
  ledger =
      (for_slots-Ledger op 0 streams [] e.slots e k r (omega arith) b.valid.slots_valid
        b.valid.timely tt b.ledger).0;
}

for_slots-phase :
    (op : Focus → Attempt Focus) (slots : List ManagedSlot) (e : Engine)
    → (for_slots op slots e).1.epoch_phase ≡ e.epoch_phase
unfolding for_slots
for_slots-phase op [] e = refl
for_slots-phase op (s ∷ ss) e =
    let rest = for_slots-phase op ss (absorb (op (focus e s)).0 e) in
    elim (Option-cases (op (focus e s)).1) [
      | inl n ↦ rw (n, for_slots) rest
      | inr (x, n) ↦ rw (n, for_slots) refl
    ]

pub each_slot-phase :
    (op : Focus → Attempt Focus) (e : Engine) → (each_slot op e).0.epoch_phase ≡ e.epoch_phase
unfolding each_slot
each_slot-phase op e = for_slots-phase op e.slots e

known-nothing : (slots : List ManagedSlot) → All (λ s. All (Remembers s) []) slots
known-nothing [] = tt
known-nothing (s ∷ ss) = (tt, known-nothing ss)

pub empty-IsLedger : (slots : List ManagedSlot) → IsLedger slots []
empty-IsLedger slots = record { agreeing = tt; known = known-nothing slots }

-- Recorded, within the epoch.
pub record IsCurrent (epoch : ℕ) (e : Engine) : Type 0 where
  pub booked : IsBooked e
  pub current : is_epoch e.epoch_phase epoch ≡ true

module _ (epoch : ℕ) where
  pub each_slot-IsCurrent :
      (op : Focus → Attempt Focus) (e : Engine)
      → Keeps op
      → Records op
      → IsCurrent epoch e
      → IsCurrent epoch (each_slot op e).0
  each_slot-IsCurrent op e k r c = record {
    booked = each_slot-IsBooked op e k r c.booked;
    current = rw (each_slot-phase op e) c.current;
  }

  pub phase-is_epoch :
      (tick : TickInfo) (stopping : Bool) (p : Option EpochPhase)
      → tick.epoch ≡ epoch
      → is_epoch p epoch ≡ true
      → is_epoch (begin_draining tick stopping (finish_warmup tick p)) epoch ≡ true
  unfolding begin_draining finish_warmup
  phase-is_epoch tick stopping none h p = cc
  phase-is_epoch tick stopping (some (warmup _ _)) h p = ground arith
  phase-is_epoch tick stopping (some (active _)) h p = ground arith
  phase-is_epoch tick stopping (some (draining _)) h p = ground arith

  -- Before the first tick of the epoch nothing is recorded.
  abbrev pub IsOpen : Engine → Type 0
  IsOpen e = IsBooked e × ((is_epoch e.epoch_phase epoch ≡ true) ⊎ (e.outbox ≡ []))

  observe_epoch-IsLedger :
      (tick : TickInfo) (now : ℕ) (e : Engine)
      → tick.epoch ≡ epoch
      → IsOpen e
      → IsLedger (observe_epoch tick now e).slots (observe_epoch tick now e).outbox
        × (is_epoch (observe_epoch tick now e).epoch_phase epoch ≡ true)
  unfolding observe_epoch reset_slots
  observe_epoch-IsLedger tick now e h (b, inl p) =
      let same : is_epoch e.epoch_phase tick.epoch ≡ true = rw h p in rw same (b.ledger, p)
  observe_epoch-IsLedger tick now e h (b, inr n) =
      elim (Bool-cases (is_epoch e.epoch_phase tick.epoch)) [
        | inl p ↦ rw p (b.ledger, rw h at p)
        | inr p ↦ rw p (rw n (empty-IsLedger _), ground arith)
      ]

  pub update_epoch_phase-IsCurrent :
      (tick : TickInfo) (utc : UtcTime) (now : ℕ) (e : Engine)
      → tick.epoch ≡ epoch
      → IsOpen e
      → IsCurrent epoch (update_epoch_phase tick utc now e)
  unfolding update_epoch_phase
  update_epoch_phase-IsCurrent tick utc now e h o =
      let seen = observe_epoch-IsLedger tick now e h o in
      record {
        booked = record {
          valid = update_epoch_phase-IsEngine tick utc now e o.0.valid;
          ledger = seen.0;
        };
        current = phase-is_epoch tick _ _ h seen.1;
      }
