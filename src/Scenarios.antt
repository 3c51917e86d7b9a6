-- ===== src/Scenarios.antt =====
-- Concrete runs of the engine of src/engine.rs: the data that the examples share.
pub mod Histories
pub mod Settings
pub mod Clients
pub mod Calls
pub mod Rules
pub mod Statuses
use qubic_random_client.Base.{
  ℕ, List, [], ◌∷◌, ◌++◌, Option, none, some, take, false, replicate, true,
}
use qubic_random_client.Contract.{ProviderStatus, SlotKey}
use qubic_random_client.Backend.{TickInfo}
use qubic_random_client.Entropy.{External}
use qubic_random_client.Chain.{
  Chain, PlannedCall, NetworkTask, BroadcastState, CallKind, running, finished_ok, first_commit,
  reveal_and_commit, terminal_reveal, ready, accepted,
}
use qubic_random_client.Monitor.{Monitor}
use qubic_random_client.Slot.{ManagedSlot, Focus, SlotState, active, draining, waiting, shutdown}
use qubic_random_client.Epoch.{UtcTime}
use qubic_random_client.Engine.{Engine}
use qubic_random_client.Engine.Phase.{new, new_monitor}
use qubic_random_client.Engine.Cycle.{CycleInput}
use qubic_random_client.Engine.Events.{Event, cycles, query_ends, broadcast_ends, shuts_down}

-- A hash that keeps the first 32 bytes, a random source that counts, and a wallet that signs all.
abbrev pub sample : External
sample = record {
  kangaroo_twelve = take 32;
  fill_bytes = λ drawn. drawn ∷ [];
  build_ticket_tx_bytes = λ contract amount tick procedure payload. some (tick ∷ amount ∷ payload);
}

abbrev pub monday : UtcTime
monday = record { weekday = 0; hour = 10; minute = 30; second = 0 }

abbrev pub tick_at : ℕ → TickInfo
tick_at tick = record { epoch = 7; tick = tick; initial_tick = 90; tick_duration_ms = 1000 }

abbrev pub input_at : ℕ → CycleInput
input_at tick = record {
  tick_info = some (tick_at tick);
  utc = monday;
  cancelled = false;
  reset_now = 0;
  query_now = 0;
  expire_now = 0;
  harvest_now = 0;
  recheck_now = 0;
  check_now = 0;
}

abbrev pub no_slots : ProviderStatus
no_slots = record { slots = [] }

-- Two cycles with an empty status between them, so that all streams start, and a third that sends.
abbrev pub events : List Event
events =
    cycles (input_at 100)
    ∷ query_ends (finished_ok no_slots)
    ∷ cycles (input_at 101)
    ∷ cycles (input_at 103)
    ∷ broadcast_ends 0 0 (finished_ok tt)
    ∷ cycles (input_at 104)
    ∷ []

abbrev pub fresh_engine : Engine
fresh_engine = new 1 3600 5 1000 5 0

abbrev pub key : SlotKey
key = record { stream = 1; collateral_tier = 0 }

abbrev pub call_at : ℕ → CallKind → BroadcastState → PlannedCall
call_at target kind state = record {
  target_tick = target;
  tx_bytes = target ∷ [];
  kind = kind;
  state = state;
  broadcast = none;
  redundant_attempted = false;
}

-- A chain of two calls on stream 1.
abbrev pub chain : Chain
chain = record {
  first_target = 106;
  last_target = 109;
  confirmed_through = none;
  status_suspicion = none;
  outstanding_preimage = 5 ∷ [];
  calls = call_at 106 first_commit accepted ∷ call_at 109 reveal_and_commit ready ∷ [];
}

-- The chain with its terminal reveal, all calls before it accepted.
abbrev pub draining_chain : Chain
draining_chain = record chain {
  calls =
      call_at 106 first_commit accepted
      ∷ call_at 109 reveal_and_commit accepted
      ∷ call_at 112 terminal_reveal ready
      ∷ [];
}

abbrev pub slot_with : SlotState → Option Chain → ManagedSlot
slot_with state held = record { key = key; state = state; chain = held; restart_at = 0 }

abbrev pub focus_on : ManagedSlot → Focus
focus_on slot = record {
  collateral = 10_000;
  slot = slot;
  monitor = new_monitor 1000 5 0;
  drawn = 0;
  outbox = [];
}

abbrev pub active_focus : Focus
active_focus = focus_on (slot_with active (some chain))

abbrev pub waiting_focus : Focus
waiting_focus = focus_on (slot_with (waiting 0 true) none)

abbrev pub draining_slot : ManagedSlot
draining_slot = slot_with (draining shutdown 112) (some draining_chain)
