-- ===== src/Engine/Cycle.antt =====
-- src/engine.rs: one cycle of the engine.
use qubic_random_client.Base.{
  ℕ, ◌+◌, Bool, false, not, ◌||◌, Option, none, some, ltb, ◌==◌, if◌then◌else◌, is_some,
}
use qubic_random_client.Contract.{ProviderStatus}
use qubic_random_client.Backend.{TickInfo}
use qubic_random_client.Entropy.{External}
use qubic_random_client.Chain.{NetworkTask, running, finished_ok, finished_err}
use qubic_random_client.Monitor.{Monitor}
use qubic_random_client.Monitor.Checks.{expire_tick_checks, harvest_tick_check, ensure_tick_check}
use qubic_random_client.Slot.{Focus, Attempt, ◌>>=◌, DrainReason, tick_info_failed}
use qubic_random_client.Slot.Status.{StatusObservation, apply_status}
use qubic_random_client.Slot.Plan.{start_if_ready, extend_chain, enter_drain}
use qubic_random_client.Slot.Deliver.{expire_calls, dispatch_calls, harvest_broadcasts}
use qubic_random_client.Slot.Finish.{finish_drain, finish_status_restart, prune_calls}
use qubic_random_client.Epoch.{EpochPhase, UtcTime, active, draining}
use qubic_random_client.Engine.{Engine, PendingStatusQuery, each_slot, each_slot_total}
use qubic_random_client.Engine.Phase.{update_epoch_phase}

abbrev pub status_query_interval : ℕ
status_query_interval = 500

abbrev pub observation_of : PendingStatusQuery → ProviderStatus → StatusObservation
observation_of query status = record {
  epoch = query.epoch;
  requested_tick = query.requested_tick;
  status = status;
}

unfoldable pub take_status :
    PendingStatusQuery → NetworkTask ProviderStatus → Engine → Engine × Option StatusObservation
take_status query running e = (e, none)
take_status query (finished_ok status) e =
    (record e { status_query = none }, some (observation_of query status))
take_status query finished_err e = (record e { status_query = none }, none)

-- `ProviderEngine::harvest_status_query`.
unfoldable pub harvest_status_query : Engine → Engine × Option StatusObservation
unfolding take_status
harvest_status_query e = elim e.status_query [
  | none ↦ (e, none)
  | some query ↦ take_status query query.task e
]

-- `ProviderEngine::ensure_status_query`; its two readings of the clock are one.
unfoldable pub ensure_status_query : ℕ → ℕ → ℕ → Engine → Engine
ensure_status_query epoch requested_tick now e =
    if is_some e.status_query || ltb now e.next_status_query_at then e else record e {
      next_status_query_at = now + status_query_interval;
      status_query =
          some (record { epoch = epoch; requested_tick = requested_tick; task = running });
    }

-- What a cycle reads: the tick info, unless the call failed or timed out, the wall clock, the
-- cancellation token, and the monotonic clock at each handler that reads it.
pub record CycleInput : Type 0 where
  pub tick_info : Option TickInfo
  pub utc : UtcTime
  pub cancelled : Bool
  pub reset_now : ℕ
  pub query_now : ℕ
  pub expire_now : ℕ
  pub harvest_now : ℕ
  pub recheck_now : ℕ
  pub check_now : ℕ

-- The observation is applied only in its own epoch.
unfoldable pub apply_observation : Option StatusObservation → ℕ → Engine → Attempt Engine
apply_observation none epoch e = (e, none)
apply_observation (some observation) epoch e =
    if observation.epoch == epoch then each_slot_total (apply_status observation) e else (e, none)

unfoldable pub is_draining_epoch : Option EpochPhase → ℕ → Bool
is_draining_epoch (some (draining epoch)) current = epoch == current
is_draining_epoch _ current = false

unfoldable pub is_active_epoch : Option EpochPhase → ℕ → Bool
is_active_epoch (some (active epoch)) current = epoch == current
is_active_epoch _ current = false

-- The drain of all slots, or the planning of calls.
unfoldable pub drain_or_plan : External → TickInfo → Bool → Engine → Attempt Engine
drain_or_plan x tick shutting_down e =
    if shutting_down || is_draining_epoch e.epoch_phase tick.epoch
    then each_slot
        (enter_drain x (if shutting_down then DrainReason.shutdown else DrainReason.epoch)) e
    else if is_active_epoch e.epoch_phase tick.epoch
    then each_slot (λ f. start_if_ready x tick.tick f >>= extend_chain x tick.tick) e
    else (e, none)

-- The last loop over the slots.
unfoldable pub deliver : External → ℕ → ℕ → Focus → Focus
unfolding expire_calls dispatch_calls finish_drain finish_status_restart prune_calls
deliver x tick tick_duration_ms f = prune_calls tick (
    finish_status_restart tick
      (finish_drain (dispatch_calls x tick tick_duration_ms (expire_calls tick f))))

abbrev on_monitor : (Monitor → Monitor) → Engine → Engine
on_monitor op e = record e { monitor = op e.monitor }

-- The end of a cycle.
unfoldable pub monitor_ticks : CycleInput → ℕ → Bool → Engine → Engine
unfolding expire_tick_checks harvest_tick_check ensure_tick_check
monitor_ticks input tick checking e =
    let e' =
      on_monitor
        (λ m. harvest_tick_check input.harvest_now (expire_tick_checks tick input.expire_now m))
        e in
    if checking
    then on_monitor (ensure_tick_check tick input.recheck_now input.check_now) e'
    else e'

-- A cycle once the tick info is known.
unfoldable pub cycle_at : External → CycleInput → TickInfo → Engine → Attempt Engine
cycle_at x input tick e = do
  let (started, observation) =
      harvest_status_query (update_epoch_phase tick input.utc input.reset_now e)
  harvested ← each_slot_total harvest_broadcasts started
  observed ← apply_observation observation tick.epoch harvested
  planned ← drain_or_plan x tick input.cancelled observed
  delivered ← each_slot_total (deliver x tick.tick tick.tick_duration_ms) planned
  let queried = ensure_status_query tick.epoch tick.tick input.query_now delivered
  let draining = input.cancelled || is_draining_epoch observed.epoch_phase tick.epoch
  (monitor_ticks input tick.tick (not draining) queried, none)

-- `ProviderEngine::cycle`.
unfoldable pub cycle : External → CycleInput → Engine → Attempt Engine
cycle x input e = elim input.tick_info [
  | none ↦ (e, some tick_info_failed)
  | some tick ↦ cycle_at x input tick e
]
