-- ===== src/Slot/Status.antt =====
-- src/engine.rs: what a slot does with an observation of the provider status.
pub mod Keeps
pub mod Ledger
pub mod Monitored
pub mod Verdict
pub mod Presence
use qubic_random_client.Base.{
  ℕ, Bool, true, false, not, ◌&&◌, Option, none, some, ltb, leb, ◌==◌, if◌then◌else◌, is_some_and,
  saturating_add, checked_add, max,
}
use qubic_random_client.Contract.{ProviderStatus, ProviderSlot, slot}
use qubic_random_client.Suspicion.{
  StatusEvidence, StatusSuspicion, absent, foreign, lag, new, observe, is_confirmed,
}
use qubic_random_client.Chain.{Chain, owns_target, latest_target_before, stream_count}
use qubic_random_client.Monitor.Checks.{mark_financial_failure}
use qubic_random_client.Slot.{
  SlotState, Focus, waiting, starting, active, restarting, draining, drained, failed, set_state,
  set_chain,
}

pub record StatusObservation : Type 0 where
  pub epoch : ℕ
  pub requested_tick : ℕ
  pub status : ProviderStatus

-- `ProviderEngine::chain_owns_target`.
unfoldable pub chain_owns_target : Option Chain → ℕ → Bool
unfolding owns_target
chain_owns_target none target = false
chain_owns_target (some chain) target = owns_target chain target

failure_in : Chain → Option ℕ → Option ℕ
failure_in chain none = none
failure_in chain (some target) =
    if ltb chain.first_target target && leb target chain.last_target then some target else none

abbrev missing_reveal : Chain → StatusEvidence → Option ℕ
missing_reveal chain absent = elim chain.confirmed_through [
  | none ↦ none
  | some confirmed ↦ checked_add confirmed stream_count
]
missing_reveal chain (lag missing_target) = some missing_target
missing_reveal chain (foreign _) = none

-- `ProviderEngine::financial_failure_target`.
unfoldable pub financial_failure_target : Option Chain → StatusEvidence → Option ℕ
unfolding failure_in
financial_failure_target none evidence = none
financial_failure_target (some chain) evidence = failure_in chain (missing_reveal chain evidence)

restart_at_tail : Chain → ℕ → Bool → Focus → Focus
restart_at_tail chain absence_after_tick absence_observed f =
    let slot = f.slot in
    elim (checked_add chain.last_target stream_count) [
      | none ↦ record f {
        slot = record slot { chain = none; restart_at = 4_294_967_295; state = drained failed };
      }
      | some restart_at ↦ record f {
        slot = record slot {
          restart_at = restart_at;
          state = restarting chain.last_target absence_after_tick absence_observed none;
        };
      }
    ]

-- `ProviderEngine::begin_status_restart`.
unfoldable pub begin_status_restart : ℕ → Bool → Focus → Focus
unfolding restart_at_tail
begin_status_restart absence_after_tick absence_observed f = elim f.slot.chain [
  | none ↦ f
  | some chain ↦ restart_at_tail chain absence_after_tick absence_observed f
]

abbrev mark_failure : Option ℕ → Focus → Focus
mark_failure none f = f
mark_failure (some target) f = record f { monitor = mark_financial_failure target f.monitor }

-- The tick from which absence counts for a restart, and whether it is already observed.
abbrev absence_from : StatusSuspicion → StatusEvidence → ℕ × Bool
absence_from s absent = (s.last_requested_tick, true)
absence_from s _ = (saturating_add s.last_requested_tick 1, false)

-- The end of `observe_status_evidence`, for the suspicion that the chain now holds.
conclude : StatusSuspicion → Focus → Focus
unfolding is_confirmed financial_failure_target begin_status_restart
conclude suspicion f =
    let (after, observed) = absence_from suspicion suspicion.evidence in
    if not (is_confirmed suspicion)
    then f
    else begin_status_restart after observed
        (mark_failure (financial_failure_target f.slot.chain suspicion.evidence) f)

abbrev next_suspicion : Option StatusSuspicion → StatusEvidence → ℕ → StatusSuspicion
unfolding new observe
next_suspicion none evidence requested_tick = new evidence requested_tick
next_suspicion (some current) evidence requested_tick = observe current evidence requested_tick

-- `ProviderEngine::observe_status_evidence`.
unfoldable pub observe_status_evidence : StatusEvidence → ℕ → Focus → Focus
unfolding conclude next_suspicion
observe_status_evidence evidence requested_tick f = elim f.slot.chain [
  | none ↦ f
  | some chain ↦
      let suspicion = next_suspicion chain.status_suspicion evidence requested_tick in
      if is_some_and chain.status_suspicion (λ s. leb requested_tick s.last_requested_tick)
      then f
      else conclude suspicion
          (set_chain (some (record chain { status_suspicion = some suspicion })) f)
]

-- The block of `apply_confirmation_watermark` that moves the chain's watermark: the chain as it
-- leaves the block, and the missing target unless the block returns from the function.
unfoldable pub advance_watermark : ℕ → ℕ → Chain → Chain × Option ℕ
unfolding latest_target_before
advance_watermark confirmed requested_tick chain =
    let advanced = not (is_some_and chain.confirmed_through (λ previous. previous == confirmed)) in
    let moved =
      if advanced
      then record chain { confirmed_through = some confirmed; status_suspicion = none }
      else chain in
    let cleared = record moved { status_suspicion = none } in
    if is_some_and chain.confirmed_through (λ previous. ltb confirmed previous)
    then (chain, none)
    else if not advanced
        && is_some_and chain.status_suspicion (λ s. leb requested_tick s.last_requested_tick)
    then (chain, none)
    else elim (latest_target_before moved requested_tick) [
      | none ↦ (cleared, none)
      | some latest_due ↦
          if leb latest_due confirmed
          then (cleared, none)
          else (moved, checked_add confirmed stream_count)
    ]

abbrev observe_lag : Option ℕ → ℕ → Focus → Focus
unfolding observe_status_evidence
observe_lag none requested_tick f = f
observe_lag (some missing_target) requested_tick f =
    observe_status_evidence (lag missing_target) requested_tick f

-- `ProviderEngine::apply_confirmation_watermark`.
unfoldable pub apply_confirmation_watermark : ℕ → ℕ → Focus → Focus
unfolding advance_watermark observe_lag
apply_confirmation_watermark confirmed requested_tick f = elim f.slot.chain [
  | none ↦ f
  | some chain ↦
      let (chain', missing) = advance_watermark confirmed requested_tick chain in
      observe_lag missing requested_tick (set_chain (some chain') f)
]

-- The arms of `apply_status`, by the slot's state and the update tick that the status reports.
unfoldable pub apply_observed : SlotState → Option ℕ → ℕ → Focus → Focus
unfolding chain_owns_target apply_confirmation_watermark observe_status_evidence
apply_observed (waiting after seen) none requested f =
    if leb after requested then set_state (waiting after true) f else f
apply_observed (waiting after seen) (some _) requested f =
    set_state (waiting (max after (saturating_add requested 1)) false) f
apply_observed (starting first) (some tick) requested f =
    if chain_owns_target f.slot.chain tick
    then apply_confirmation_watermark tick requested (set_state active f)
    else if ltb first requested
    then observe_status_evidence (foreign tick) requested f
    else f
apply_observed (starting first) none requested f =
    if ltb first requested then observe_status_evidence absent requested f else f
apply_observed active (some tick) requested f =
    if chain_owns_target f.slot.chain tick
    then apply_confirmation_watermark tick requested f
    else observe_status_evidence (foreign tick) requested f
apply_observed active none requested f = observe_status_evidence absent requested f
apply_observed (restarting tail after seen reason) none requested f =
    if leb after requested then set_state (restarting tail after true reason) f else f
apply_observed (restarting tail after seen reason) (some _) requested f =
    set_state (restarting tail (max after (saturating_add requested 1)) false reason) f
apply_observed (draining _ _) _ requested f = f
apply_observed (drained _) _ requested f = f

abbrev observed_target : Option ProviderSlot → Option ℕ
observed_target none = none
observed_target (some slot) = some slot.last_update_tick

-- `ProviderEngine::apply_status`.
unfoldable pub apply_status : StatusObservation → Focus → Focus
unfolding slot apply_observed
apply_status observation f =
    apply_observed f.slot.state (observed_target (slot f.slot.key observation.status))
      observation.requested_tick f
