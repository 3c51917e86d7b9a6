-- ===== src/Engine/Phase.antt =====
-- src/engine.rs: `new`, `reset_slots` and `update_epoch_phase`.
pub mod Phases
use qubic_random_client.Base.{
  ℕ, zero, suc, ◌/◌, ltb, Bool, false, ◌&&◌, List, [], ◌∷◌, map, Option, none, some, leb, ◌==◌,
  if◌then◌else◌, saturating_add,
}
use qubic_random_client.Contract.{SlotKey}
use qubic_random_client.Backend.{TickInfo}
use qubic_random_client.Monitor.{Monitor}
use qubic_random_client.Epoch.{EpochPhase, UtcTime, warmup, active, draining, is_epoch_stop_window}
use qubic_random_client.Engine.{Engine, fresh_slot}

-- The monitoring fields of a new engine.
abbrev pub new_monitor : ℕ → ℕ → ℕ → Monitor
new_monitor interval_ms delay_ticks now = record {
  empty_tick_check_interval = interval_ms;
  reveal_check_delay_ticks = delay_ticks;
  send_stats = record { ok_sends = 0; failed_sends = 0; empty_sends = 0 };
  send_outcomes = [];
  console_stats = none;
  pending_tick_checks = [];
  ready_tick_checks = [];
  queued_target_ticks = [];
  checked_target_ticks = [];
  target_digests = [];
  tick_check = none;
  next_tick_check_at = now;
  oldest_tick_check = 0;
  expired_tick_checks = 0;
  next_monitor_log_at = now;
  inclusions = [];
}

-- `u64::ilog10`, which panics at 0.
unfoldable pub ilog10 : ℕ → ℕ → ℕ
ilog10 zero n = 0
ilog10 (suc fuel) n = let rest = ilog10 fuel (n / 10) in if ltb n 10 then 0 else suc rest

-- `collateral_tier`; a 64-bit number has at most twenty digits.
unfoldable pub collateral_tier : ℕ → ℕ
unfolding ilog10
collateral_tier collateral = ilog10 20 collateral

abbrev pub keys_of_tier : ℕ → List SlotKey
keys_of_tier tier =
    record { stream = 0; collateral_tier = tier }
    ∷ record { stream = 1; collateral_tier = tier }
    ∷ record { stream = 2; collateral_tier = tier }
    ∷ []

-- `ProviderEngine::new`.
unfoldable pub new : ℕ → ℕ → ℕ → ℕ → ℕ → ℕ → Engine
unfolding collateral_tier
new collateral stop_lead_secs resume_delay_ticks interval_ms delay_ticks now = record {
  collateral = collateral;
  slots = map fresh_slot (keys_of_tier (collateral_tier collateral));
  status_query = none;
  next_status_query_at = now;
  epoch_phase = none;
  epoch_stop_lead_time_secs = stop_lead_secs;
  epoch_resume_delay_ticks = resume_delay_ticks;
  monitor = new_monitor interval_ms delay_ticks now;
  drawn = 0;
  outbox = [];
}

-- The fields of the monitor that `reset_slots` clears; the counters stay.
unfoldable pub reset_monitor : ℕ → Monitor → Monitor
reset_monitor now m = record m {
  tick_check = none;
  pending_tick_checks = [];
  target_digests = [];
  ready_tick_checks = [];
  queued_target_ticks = [];
  checked_target_ticks = [];
  send_outcomes = [];
  next_tick_check_at = now;
  oldest_tick_check = 0;
  expired_tick_checks = 0;
  next_monitor_log_at = now;
}

-- `ProviderEngine::reset_slots`; its readings of the clock are one.
unfoldable pub reset_slots : ℕ → Engine → Engine
unfolding reset_monitor
reset_slots now e = record e {
  status_query = none;
  monitor = reset_monitor now e.monitor;
  next_status_query_at = now;
  slots = map (λ s. fresh_slot s.key) e.slots;
}

abbrev pub epoch_of : EpochPhase → ℕ
epoch_of (warmup epoch _) = epoch
epoch_of (active epoch) = epoch
epoch_of (draining epoch) = epoch

abbrev pub is_epoch : Option EpochPhase → ℕ → Bool
is_epoch none epoch = false
is_epoch (some phase) epoch = epoch_of phase == epoch

-- The first `if` of `update_epoch_phase`.
unfoldable pub observe_epoch : TickInfo → ℕ → Engine → Engine
unfolding reset_slots
observe_epoch tick now e =
    if is_epoch e.epoch_phase tick.epoch then e else record (reset_slots now e) {
      epoch_phase =
          some (warmup tick.epoch (saturating_add tick.initial_tick e.epoch_resume_delay_ticks));
    }

-- The second.
unfoldable pub finish_warmup : TickInfo → Option EpochPhase → Option EpochPhase
finish_warmup tick (some (warmup epoch ready_tick)) =
    if (epoch == tick.epoch) && leb ready_tick tick.tick
    then some (active tick.epoch)
    else some (warmup epoch ready_tick)
finish_warmup tick phase = phase

-- The third.
unfoldable pub begin_draining : TickInfo → Bool → Option EpochPhase → Option EpochPhase
begin_draining tick stopping (some (active epoch)) =
    if (epoch == tick.epoch) && stopping then some (draining tick.epoch) else some (active epoch)
begin_draining tick stopping phase = phase

-- `ProviderEngine::update_epoch_phase`.
unfoldable pub update_epoch_phase : TickInfo → UtcTime → ℕ → Engine → Engine
unfolding observe_epoch finish_warmup begin_draining is_epoch_stop_window
update_epoch_phase tick utc now e =
    let e' = observe_epoch tick now e in
    record e' {
      epoch_phase =
          begin_draining tick (is_epoch_stop_window utc e'.epoch_stop_lead_time_secs)
            (finish_warmup tick e'.epoch_phase);
    }
