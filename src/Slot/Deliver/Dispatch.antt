-- ===== src/Slot/Deliver/Dispatch.antt =====
-- src/engine.rs: `dispatch_calls`.
use qubic_random_client.Base.{
  ℕ, ◌-◌, Bool, true, false, not, ◌&&◌, ◌||◌, List, [], ◌∷◌, Option, none, some, ltb, leb,
  if◌then◌else◌, is_some, all, saturating_add, lookup, insert_entry,
}
use qubic_random_client.Entropy.{External, transaction_digest}
use qubic_random_client.Chain.{
  running, Chain, PlannedCall, CallKind, first_commit, reveal_and_commit, terminal_reveal,
  broadcasting, failed,
}
use qubic_random_client.Slot.{SlotState, ManagedSlot, Focus, Broadcast, starting, active, draining}
use qubic_random_client.Slot.Deliver.Timing.{broadcast_attempt_timeout}
use qubic_random_client.Slot.Deliver.Calls.{
  is_terminal, is_first, is_accepted, is_sendable, is_retry, mark_failure, is_shutdown_drain,
}

-- What the loop of `dispatch_calls` reads: the slot's stream and first target, the tick, and the
-- values computed before the loop.
pub record Round : Type 0 where
  pub stream : ℕ
  pub first_target : ℕ
  pub current_tick : ℕ
  pub tick_duration_ms : ℕ
  pub redundant_allowed : Bool
  pub terminal_ready : Bool
  pub shutdown_drain : Bool

-- What it changes besides the calls.
pub record Sweep : Type 0 where
  pub digests : List (ℕ × List ℕ)
  pub outbox : List Broadcast
  pub failed_terminal_target : Option ℕ

abbrev pub lead_ticks : CallKind → ℕ
lead_ticks first_commit = 6
lead_ticks reveal_and_commit = 4
lead_ticks terminal_reveal = 4

abbrev pub redundant_lead : CallKind → ℕ
redundant_lead first_commit = 4
redundant_lead reveal_and_commit = 3
redundant_lead terminal_reveal = 0

abbrev pub tick_data_publication_lead_ticks : ℕ
tick_data_publication_lead_ticks = 2

-- `redundant` in `dispatch_calls`.
unfoldable pub is_redundant : Round → PlannedCall → Bool
is_redundant r call =
    r.redundant_allowed
    && leb r.first_target call.target_tick
    && is_accepted call.state
    && not (is_terminal call.kind)
    && not call.redundant_attempted
    && ltb tick_data_publication_lead_ticks (call.target_tick - r.current_tick)
    && leb (call.target_tick - r.current_tick) (redundant_lead call.kind)

-- `entry(..).or_insert_with(..)`.
abbrev pub keep_digest : ℕ → List ℕ → List (ℕ × List ℕ) → List (ℕ × List ℕ)
keep_digest target digest m = if is_some (lookup target m) then m else insert_entry target digest m

-- The task that the loop spawns for a call.
unfoldable pub spawned : Round → PlannedCall → Broadcast
unfolding is_redundant broadcast_attempt_timeout
spawned r call = record {
  stream = r.stream;
  started_at = r.current_tick;
  target_tick = call.target_tick;
  kind = call.kind;
  tx_bytes = call.tx_bytes;
  timeout_ms = broadcast_attempt_timeout (call.target_tick - r.current_tick) r.tick_duration_ms;
  redundant = is_redundant r call;
}

unfoldable pub send_call : External → Round → PlannedCall → Sweep → PlannedCall × Sweep
unfolding is_redundant transaction_digest broadcast_attempt_timeout spawned
send_call x r call w = (
  if is_redundant r call
      then record call { broadcast = some running; redundant_attempted = true }
      else record call { broadcast = some running; state = broadcasting },
  record w {
    digests =
        if is_first call.kind
        then w.digests
        else keep_digest call.target_tick (transaction_digest x call.tx_bytes) w.digests;
    outbox = spawned r call ∷ w.outbox;
  },
)

-- The body of the loop of `dispatch_calls`.
unfoldable pub dispatch_call : External → Round → PlannedCall → Sweep → PlannedCall × Sweep
unfolding is_redundant send_call
dispatch_call x r call w =
    if leb call.target_tick r.current_tick
      || ltb (saturating_add r.current_tick (lead_ticks call.kind)) call.target_tick
    then (call, w)
    else if is_terminal call.kind && not r.terminal_ready
    then (call, w)
    else if not (is_redundant r call) && not (is_sendable call.state)
    then (call, w)
    else if is_terminal call.kind && r.shutdown_drain && is_retry call.state
    then (
      record call { state = failed },
      record w { failed_terminal_target = some call.target_tick },
    )
    else send_call x r call w

unfoldable pub dispatch_list :
    External → Round → List PlannedCall → Sweep → List PlannedCall × Sweep
unfolding dispatch_call
dispatch_list x r [] w = ([], w)
dispatch_list x r (call ∷ calls) w =
    let (call', w') = dispatch_call x r call w in
    let (calls', w'') = dispatch_list x r calls w' in (call' ∷ calls', w'')

-- A call that does not hold the terminal reveal back.
abbrev pub is_clear : ℕ → ℕ → PlannedCall → Bool
is_clear first_target terminal_target call =
    ltb call.target_tick first_target
    || is_terminal call.kind
    || ltb terminal_target call.target_tick
    || is_accepted call.state

-- `redundant_allowed`.
abbrev pub allows_redundant : SlotState → Bool
allows_redundant (starting _) = true
allows_redundant active = true
allows_redundant _ = false

-- `terminal_ready`.
abbrev pub terminal_ready_in : SlotState → Chain → Bool
terminal_ready_in (draining _ terminal_target) chain =
    all (is_clear chain.first_target terminal_target) chain.calls
terminal_ready_in _ chain = true

abbrev pub round_of : ManagedSlot → Chain → ℕ → ℕ → Round
round_of slot chain current_tick tick_duration_ms = record {
  stream = slot.key.stream;
  first_target = chain.first_target;
  current_tick = current_tick;
  tick_duration_ms = tick_duration_ms;
  redundant_allowed = allows_redundant slot.state;
  terminal_ready = terminal_ready_in slot.state chain;
  shutdown_drain = is_shutdown_drain slot.state;
}

abbrev pub sweep_of : Focus → Sweep
sweep_of f = record {
  digests = f.monitor.target_digests;
  outbox = f.outbox;
  failed_terminal_target = none;
}

unfoldable pub finish_dispatch : Chain → List PlannedCall → Sweep → Focus → Focus
finish_dispatch chain calls w f = mark_failure w.failed_terminal_target (record f {
  slot = record (f.slot) { chain = some (record chain { calls = calls }) };
  monitor = record (f.monitor) { target_digests = w.digests };
  outbox = w.outbox;
})

-- `ProviderEngine::dispatch_calls`.
unfoldable pub dispatch_calls : External → ℕ → ℕ → Focus → Focus
unfolding dispatch_list finish_dispatch
dispatch_calls x current_tick tick_duration_ms f = elim f.slot.chain [
  | none ↦ f
  | some chain ↦
      let (calls, w) =
        dispatch_list x (round_of f.slot chain current_tick tick_duration_ms) chain.calls
          (sweep_of f) in
      finish_dispatch chain calls w f
]
