-- ===== src/Slot.antt =====
-- src/engine.rs: `ManagedSlot`, the state of one stream, and what its handlers reach of the engine.
pub mod Keys
pub mod Outbox
pub mod Monitored
pub mod Shape
pub mod Invariant
pub mod Ledger
pub mod Status
pub mod Plan
pub mod Deliver
pub mod Finish
use qubic_random_client.Base.{ℕ, Bool, true, false, List, [], Option, none, some, checked_add}
use qubic_random_client.Contract.{SlotKey}
use qubic_random_client.Chain.{Chain, CallKind, stream_count}
use qubic_random_client.Monitor.{Monitor}

pub data DrainReason : Type 0 where
  epoch shutdown : DrainReason

pub data DrainOutcome : Type 0 where
  nothing_to_drain accepted failed : DrainOutcome

-- `waiting after observed`, `starting first`, `restarting tail after observed reason` and
-- `draining reason terminal` carry the fields of the source's variants in their order.
pub data SlotState : Type 0 where
  waiting : ℕ → Bool → SlotState
  starting : ℕ → SlotState
  active : SlotState
  restarting : ℕ → ℕ → Bool → Option DrainReason → SlotState
  draining : DrainReason → ℕ → SlotState
  drained : DrainOutcome → SlotState

pub record ManagedSlot : Type 0 where
  pub key : SlotKey
  pub state : SlotState
  pub chain : Option Chain
  pub restart_at : ℕ

-- The `Err` values of the handlers, one for each message.
pub data Error : Type 0 where
  initial_target_overflowed stream_target_overflowed planning_horizon_overflowed : Error
  chain_disappeared no_local_chain terminal_target_overflowed wrong_stream signing_failed : Error
  tick_info_failed : Error

-- A broadcast task handed to the runtime: the stream it is for, the tick at which it was started,
-- the call and the time limit of the attempt.
pub record Broadcast : Type 0 where
  pub stream : ℕ
  pub started_at : ℕ
  pub target_tick : ℕ
  pub kind : CallKind
  pub tx_bytes : List ℕ
  pub timeout_ms : ℕ
  pub redundant : Bool

-- `&mut self` as the handlers of the slot at `index` use it: that slot, the shared fields, the
-- number of preimages drawn, and the broadcast tasks started so far, the newest first.
pub record Focus : Type 0 where
  pub collateral : ℕ
  pub slot : ManagedSlot
  pub monitor : Monitor
  pub drawn : ℕ
  pub outbox : List Broadcast

-- `AppResult<()>` with the state that is left behind: an error keeps the changes made before it.
abbrev pub Attempt : Type 0 → Type 0
Attempt S = S × Option Error

infixl 5 ◌>>=◌
abbrev pub ◌>>=◌ : {S : Type 0} → Attempt S → (S → Attempt S) → Attempt S
(s, none) >>= next = next s
(s, some e) >>= next = (s, some e)

-- What holds of the state before and after each step holds at the end, with or without an error.
pub >>=-keeps {ℓ} :
    {S : Type 0} (P : S → Type ℓ) (m : Attempt S) (next : S → Attempt S)
    → P m.0
    → ((s : S) → P s → P (next s).0)
    → P (m >>= next).0
>>=-keeps P (s, none) next h k = k s h
>>=-keeps P (s, some _) next h k = h

abbrev pub set_state : SlotState → Focus → Focus
set_state state f = record f { slot = record (f.slot) { state = state } }

abbrev pub set_chain : Option Chain → Focus → Focus
set_chain chain f = record f { slot = record (f.slot) { chain = chain } }

-- The start of `lose_chain`: the tail of the chain that is given up, or what `restart_at` holds.
abbrev old_tail : ManagedSlot → Option Chain → ℕ
old_tail slot none = slot.restart_at
old_tail slot (some chain) = chain.last_target

-- `ProviderEngine::lose_chain`. `abort_chain` ends the tasks of the chain, which is dropped.
unfoldable pub lose_chain : ℕ → Bool → Focus → Focus
lose_chain absence_after_tick absence_observed f =
    let slot = f.slot in
    elim (checked_add (old_tail slot slot.chain) stream_count) [
      | none ↦ record f {
        slot = record slot { chain = none; restart_at = 4_294_967_295; state = drained failed };
      }
      | some restart_at ↦ record f {
        slot = record slot {
          chain = none;
          restart_at = restart_at;
          state = waiting absence_after_tick absence_observed;
        };
      }
    ]
