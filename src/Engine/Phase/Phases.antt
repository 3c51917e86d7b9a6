-- ===== src/Engine/Phase/Phases.antt =====
-- src/engine.rs, `update_epoch_phase`: how the phase of an epoch moves, and what a new epoch resets.
use qubic_random_client.Base.{
  ℕ, ◌+◌, ◌≤◌, ◌≡◌, refl, Bool, true, false, List, [], ◌∷◌, ap, ◌∙◌, map, Option, some, none, arith,
  inl, inr, Bool-cases, u32_max, min, leb, ◌⊎◌,
}
use mathlib.Core.Path.{subst, sym}
use qubic_random_client.Backend.{TickInfo}
use qubic_random_client.Epoch.{EpochPhase, UtcTime, warmup, active, draining, is_epoch_stop_window}
use qubic_random_client.Engine.{Engine, fresh_slot}
use qubic_random_client.Slot.{ManagedSlot}
use qubic_random_client.Engine.Phase.{
  update_epoch_phase, observe_epoch, reset_slots, finish_warmup, begin_draining, is_epoch, epoch_of,
  new, reset_monitor, keys_of_tier, collateral_tier,
}

abbrev pub rank : EpochPhase → ℕ
rank (warmup _ _) = 0
rank (active _) = 1
rank (draining _) = 2

-- The tick that a warm-up waits for.
abbrev pub ready_of : EpochPhase → ℕ
ready_of (warmup _ ready_tick) = ready_tick
ready_of _ = 0

-- The phase of an epoch after a look at the clock and the tick.
pub record IsNext (tick : TickInfo) (stopping : Bool) (p : EpochPhase) (next : Option EpochPhase)
    : Type 0 where
  pub phase : EpochPhase
  pub reached : next ≡ some phase
  pub same_epoch : epoch_of phase ≡ tick.epoch
  pub forward : rank p ≤ rank phase
  pub warm : (rank phase ≡ 0) ⊎ (1 ≤ rank p) ⊎ (ready_of p ≤ tick.tick)
  pub stops : (rank phase ≤ 1) ⊎ (rank p ≡ 2) ⊎ (stopping ≡ true)
  pub stopped : (rank phase ≡ 0) ⊎ (rank phase ≡ 2) ⊎ (stopping ≡ false)

phase-IsNext :
    (tick : TickInfo) (stopping : Bool) (p : EpochPhase)
    → epoch_of p ≡ tick.epoch
    → IsNext tick stopping p (begin_draining tick stopping (finish_warmup tick (some p)))
unfolding begin_draining finish_warmup
phase-IsNext tick stopping (draining epoch) h = record {
  phase = draining epoch;
  reached = refl;
  same_epoch = h;
  forward = omega arith;
  warm = inr (inl (omega arith));
  stops = inr (inl refl);
  stopped = inr (inl refl);
}
phase-IsNext tick stopping (active epoch) h = elim (Bool-cases stopping) [
  | inl s ↦ record {
    phase = draining tick.epoch;
    reached = ground (arith, h, s);
    same_epoch = refl;
    forward = omega arith;
    warm = inr (inl (omega arith));
    stops = inr (inr s);
    stopped = inr (inl refl);
  }
  | inr s ↦ record {
    phase = active epoch;
    reached = ground (arith, h, s);
    same_epoch = h;
    forward = omega arith;
    warm = inr (inl (omega arith));
    stops = inl (omega arith);
    stopped = inr (inr s);
  }
]
phase-IsNext tick stopping (warmup epoch ready) h = elim (Bool-cases (leb ready tick.tick)) [
  | inr l ↦ record {
    phase = warmup epoch ready;
    reached = ground (arith, h, l);
    same_epoch = h;
    forward = omega arith;
    warm = inl refl;
    stops = inl (omega arith);
    stopped = inl refl;
  }
  | inl l ↦ elim (Bool-cases stopping) [
    | inl s ↦ record {
      phase = draining tick.epoch;
      reached = ground (arith, h, l, s);
      same_epoch = refl;
      forward = omega arith;
      warm = inr (inr (ground arith));
      stops = inr (inr s);
      stopped = inr (inl refl);
    }
    | inr s ↦ record {
      phase = active tick.epoch;
      reached = ground (arith, h, l, s);
      same_epoch = refl;
      forward = omega arith;
      warm = inr (inr (ground arith));
      stops = inl (omega arith);
      stopped = inr (inr s);
    }
  ]
]

-- Within an epoch the phase only moves forward, from warm-up over active to draining, and stays of
-- that epoch: it leaves the warm-up only at or after its ready tick, is draining only if it was or
-- the stop window is entered, and is active only outside that window. The slots are left as they are.
pub update_epoch_phase-IsNext :
    (tick : TickInfo) (utc : UtcTime) (now : ℕ) (e : Engine) (p : EpochPhase)
    → e.epoch_phase ≡ some p
    → epoch_of p ≡ tick.epoch
    → IsNext tick
        (is_epoch_stop_window utc e.epoch_stop_lead_time_secs)
        p
        (update_epoch_phase tick utc now e).epoch_phase
      × ((update_epoch_phase tick utc now e).slots ≡ e.slots)
unfolding update_epoch_phase observe_epoch
update_epoch_phase-IsNext tick utc now e p h k =
    let current : is_epoch e.epoch_phase tick.epoch ≡ true = rw h (ground arith) in
    let stopping = is_epoch_stop_window utc e.epoch_stop_lead_time_secs in
    simp current (
      subst
          (λ phase.
            IsNext tick stopping p (begin_draining tick stopping (finish_warmup tick phase)))
          (sym h) (phase-IsNext tick stopping p k),
      refl,
    )

-- An engine without its phase, its counters and the record of what it drew, sent and told.
abbrev pub without_past : Engine → Engine
without_past e = record e {
  epoch_phase = none;
  drawn = 0;
  outbox = [];
  monitor = record (e.monitor) {
    send_stats = record { ok_sends = 0; failed_sends = 0; empty_sends = 0 };
    console_stats = none;
    inclusions = [];
  };
}

-- The engine that the construction makes with the settings of another one.
abbrev pub constructed : ℕ → Engine → Engine
constructed now e =
    new e.collateral e.epoch_stop_lead_time_secs e.epoch_resume_delay_ticks
      e.monitor.empty_tick_check_interval e.monitor.reveal_check_delay_ticks now

-- What a tick of another epoch leaves.
pub record IsReset (tick : TickInfo) (utc : UtcTime) (now : ℕ) (e g : Engine) : Type 0 where
  pub afresh : without_past g ≡ constructed now e
  pub counters : g.monitor.send_stats ≡ e.monitor.send_stats
  pub shown : g.monitor.console_stats ≡ e.monitor.console_stats
  pub phase :
      IsNext tick
        (is_epoch_stop_window utc e.epoch_stop_lead_time_secs)
        (warmup tick.epoch (min (tick.initial_tick + e.epoch_resume_delay_ticks) u32_max))
        g.epoch_phase

map-fresh_slot :
    (slots : List ManagedSlot)
    → map (λ s. fresh_slot s.key) slots ≡ map fresh_slot (map (λ s. s.key) slots)
map-fresh_slot [] = refl
map-fresh_slot (s ∷ ss) = cc (map-fresh_slot ss)

-- A tick of another epoch than the engine's phase, or the first tick, leaves the engine that the
-- construction would make at that time with the same settings, in every field but the phase, the
-- counters and what was drawn, sent and told before, if the slots have the keys of the
-- collateral's tier; the counters stay, and the phase starts with a warm-up that lasts for the
-- configured number of ticks from the epoch's initial tick.
pub update_epoch_phase-IsReset :
    (tick : TickInfo) (utc : UtcTime) (now : ℕ) (e : Engine)
    → is_epoch e.epoch_phase tick.epoch ≡ false
    → map (λ s. s.key) e.slots ≡ keys_of_tier (collateral_tier e.collateral)
    → IsReset tick utc now e (update_epoch_phase tick utc now e)
unfolding update_epoch_phase observe_epoch reset_slots reset_monitor new
update_epoch_phase-IsReset tick utc now e h keys =
    let slots : map (λ s. fresh_slot s.key) e.slots
        ≡ map fresh_slot (keys_of_tier (collateral_tier e.collateral)) =
      map-fresh_slot e.slots ∙ ap (map fresh_slot) keys in
    simp h (record {
      afresh = rw slots refl;
      counters = refl;
      shown = refl;
      phase =
          phase-IsNext tick (is_epoch_stop_window utc e.epoch_stop_lead_time_secs)
            (warmup tick.epoch (min (tick.initial_tick + e.epoch_resume_delay_ticks) u32_max)) refl;
    })
