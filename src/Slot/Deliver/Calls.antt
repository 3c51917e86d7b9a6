-- ===== src/Slot/Deliver/Calls.antt =====
-- src/engine.rs: tests on a call's kind and state, and the changes that its handlers share.
use qubic_random_client.Base.{ℕ, Bool, true, false, List, Option, none, some}
use qubic_random_client.Chain.{
  Chain, PlannedCall, CallKind, BroadcastState, first_commit, reveal_and_commit, terminal_reveal,
  ready, broadcasting, retry, accepted, failed,
}
use qubic_random_client.Monitor.Checks.{mark_financial_failure}
use qubic_random_client.Slot.{SlotState, Focus, draining, shutdown, set_chain}

abbrev pub is_terminal : CallKind → Bool
is_terminal terminal_reveal = true
is_terminal _ = false

abbrev pub is_first : CallKind → Bool
is_first first_commit = true
is_first _ = false

abbrev pub is_normal : CallKind → Bool
is_normal reveal_and_commit = true
is_normal _ = false

abbrev pub is_accepted : BroadcastState → Bool
is_accepted accepted = true
is_accepted _ = false

-- `Accepted | Failed`.
abbrev pub is_settled : BroadcastState → Bool
is_settled accepted = true
is_settled failed = true
is_settled _ = false

-- `Ready | Retry`.
abbrev pub is_sendable : BroadcastState → Bool
is_sendable ready = true
is_sendable retry = true
is_sendable _ = false

abbrev pub is_retry : BroadcastState → Bool
is_retry retry = true
is_retry _ = false

-- `Broadcasting | Retry`.
abbrev pub is_attempted : BroadcastState → Bool
is_attempted broadcasting = true
is_attempted retry = true
is_attempted _ = false

abbrev pub set_calls : List PlannedCall → Chain → Focus → Focus
set_calls calls chain f = set_chain (some (record chain { calls = calls })) f

abbrev pub mark_failure : Option ℕ → Focus → Focus
mark_failure none f = f
mark_failure (some target) f = record f { monitor = mark_financial_failure target f.monitor }

abbrev pub is_shutdown_drain : SlotState → Bool
is_shutdown_drain (draining shutdown _) = true
is_shutdown_drain _ = false
