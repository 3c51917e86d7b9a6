-- ===== src/Slot/Finish.antt =====
-- src/engine.rs: the end of a drain, the end of a frozen tail, and the removal of settled calls.
pub mod Keeps
pub mod Ledger
use qubic_random_client.Base.{
  ℕ, Bool, not, ◌||◌, Option, none, some, ltb, leb, if◌then◌else◌, find, retain,
}
use qubic_random_client.Chain.{Chain, PlannedCall, accepted, failed}
use qubic_random_client.Slot.Deliver.{is_terminal, is_accepted, complete_drain}
use qubic_random_client.Slot.{
  SlotState, Focus, DrainReason, DrainOutcome, waiting, restarting, draining, drained,
  nothing_to_drain, set_chain,
}

-- The terminal call that `finish_drain` finds.
unfoldable pub terminal_call : Option Chain → Option PlannedCall
terminal_call none = none
terminal_call (some chain) = find (λ call. is_terminal call.kind) chain.calls

conclude_drain : Option PlannedCall → Focus → Focus
unfolding complete_drain
conclude_drain none f = f
conclude_drain (some call) f = elim call.state [
  | accepted ↦ complete_drain DrainOutcome.accepted f
  | failed ↦ complete_drain DrainOutcome.failed f
  | _ ↦ f
]

drain_finished : SlotState → Focus → Focus
unfolding terminal_call conclude_drain
drain_finished (draining _ _) f = conclude_drain (terminal_call f.slot.chain) f
drain_finished _ f = f

-- `ProviderEngine::finish_drain`.
unfoldable pub finish_drain : Focus → Focus
unfolding drain_finished
finish_drain f = drain_finished f.slot.state f

abbrev after_tail : Option DrainReason → ℕ → Bool → SlotState
after_tail (some _) after observed = drained nothing_to_drain
after_tail none after observed = waiting after observed

restart_finished : SlotState → ℕ → Focus → Focus
restart_finished (restarting tail after observed reason) current_tick f =
    if ltb current_tick tail then f else record f {
      slot = record (f.slot) { chain = none; state = after_tail reason after observed };
    }
restart_finished _ current_tick f = f

-- `ProviderEngine::finish_status_restart`.
unfoldable pub finish_status_restart : ℕ → Focus → Focus
unfolding restart_finished
finish_status_restart current_tick f = restart_finished f.slot.state current_tick f

-- The test by which `prune_calls` keeps a call.
abbrev pub keeps_call : ℕ → ℕ → PlannedCall → Bool
keeps_call first_target current_tick call =
    if ltb call.target_tick first_target
    then ltb current_tick call.target_tick
    else leb current_tick call.target_tick || not (is_accepted call.state)

abbrev pruned : ℕ → Option Chain → Option Chain
pruned current_tick none = none
pruned current_tick (some chain) =
    some (record chain { calls = retain (keeps_call chain.first_target current_tick) chain.calls })

prune_in : SlotState → ℕ → Focus → Focus
prune_in (draining _ _) current_tick f = f
prune_in _ current_tick f = set_chain (pruned current_tick f.slot.chain) f

-- `ProviderEngine::prune_calls`.
unfoldable pub prune_calls : ℕ → Focus → Focus
unfolding prune_in
prune_calls current_tick f = prune_in f.slot.state current_tick f
