-- ===== src/Engine/Checked.antt =====
-- src/engine.rs: the handlers of a cycle keep a tick in one place of the queue of checks.
pub mod Cycles
pub mod Places
use qubic_random_client.Base.{
  ℕ, ◌+◌, ◌≤◌, ◌≡◌, ◌⊎◌, refl, List, [], ◌∷◌, Option, none, some, arith, All, inl, inr,
  Option-cases, Bool, true, false, Bool-cases, ◌||◌, ◌==◌,
}
use qubic_random_client.Entropy.{External}
use qubic_random_client.Backend.{TickInfo}
use qubic_random_client.Chain.{NetworkTask, running}
use qubic_random_client.Epoch.{UtcTime}
use qubic_random_client.Monitor.{Monitor, PendingTickCheck}
use qubic_random_client.Monitor.Checks.{expire_tick_checks, harvest_tick_check}
use qubic_random_client.Monitor.Queue.{count, ready_count}
use qubic_random_client.Monitor.Queue.Once.{
  IsOnce, in_flight, told, record_send_outcome-IsOnce, queue_tick_check-IsOnce,
  harvest_tick_check-IsOnce,
}
use qubic_random_client.Monitor.Queue.Reports.{expire_tick_checks-IsOnce, ensure_tick_check-IsOnce}
use qubic_random_client.Slot.{ManagedSlot, Focus, Attempt, ◌>>=◌, >>=-keeps, shutdown, DrainReason}
use qubic_random_client.Slot.Monitored.{
  IsKept, finish_drain-monitor, finish_status_restart-monitor, prune_calls-monitor,
  enter_drain-monitor, start_if_ready-monitor, extend_chain-monitor, expire_calls-monitor,
  dispatch_calls-monitor, harvest_broadcasts-monitor,
}
use qubic_random_client.Slot.Status.{StatusObservation, apply_status}
use qubic_random_client.Slot.Status.Monitored.{apply_status-monitor}
use qubic_random_client.Slot.Plan.{enter_drain, start_if_ready, extend_chain}
use qubic_random_client.Slot.Deliver.{expire_calls, harvest_broadcasts}
use qubic_random_client.Engine.{Engine, focus, absorb, for_slots, each_slot, each_slot_total}
use qubic_random_client.Engine.Phase.{
  new, new_monitor, update_epoch_phase, observe_epoch, reset_slots, reset_monitor, is_epoch,
}
use qubic_random_client.Engine.Cycle.{
  CycleInput, cycle, cycle_at, harvest_status_query, take_status, apply_observation, drain_or_plan,
  ensure_status_query, monitor_ticks, deliver, is_draining_epoch, is_active_epoch,
}
use qubic_random_client.Engine.Ledger.Epochs.{each_slot-phase, phase-is_epoch}
use qubic_random_client.Engine.Ledger.Histories.{InEpoch}
use qubic_random_client.Engine.Events.{
  Event, step, history, cycles, shuts_down, query_ends, check_ends, broadcast_ends,
}

-- A handler keeps what is kept by its ways to change the shared fields.
abbrev pub Steady : (Monitor → Type 0) → (Focus → Attempt Focus) → Type 0
Steady P op = (f : Focus) → P f.monitor → P (op f).0.monitor

pub for_slots-monitor :
    (P : Monitor → Type 0) (op : Focus → Attempt Focus) (slots : List ManagedSlot) (e : Engine)
    → Steady P op
    → P e.monitor
    → P (for_slots op slots e).1.monitor
unfolding for_slots
for_slots-monitor P op [] e k h = h
for_slots-monitor P op (s ∷ ss) e k h =
    let after = k (focus e s) h in
    let rest = for_slots-monitor P op ss (absorb (op (focus e s)).0 e) k after in
    elim (Option-cases (op (focus e s)).1) [
      | inl n ↦ rw (n, for_slots) rest
      | inr (x, n) ↦ rw (n, for_slots) after
    ]

module _ (P : Monitor → Type 0) (kept : IsKept P) (x : External) (tick : ℕ) where
  pub deliver-Steady : (duration : ℕ) → Steady P (λ f. (deliver x tick duration f, none))
  unfolding deliver
  deliver-Steady duration f h =
      rw (prune_calls-monitor tick _, finish_status_restart-monitor tick _, finish_drain-monitor _)
        (dispatch_calls-monitor P kept x tick duration (expire_calls tick f)
          (expire_calls-monitor P kept tick f h))

  pub plan-Steady : Steady P (λ f. start_if_ready x tick f >>= extend_chain x tick)
  plan-Steady f h =
      >>=-keeps (λ (g : Focus). P g.monitor) (start_if_ready x tick f) (extend_chain x tick)
        (rw (start_if_ready-monitor x tick f) h) (extend_chain-monitor P kept x tick)

module _ (t epoch : ℕ) where
  pub IsOnce-IsKept : IsKept (IsOnce t)
  IsOnce-IsKept = record {
    recorded = record_send_outcome-IsOnce t;
    queued = queue_tick_check-IsOnce t;
    digested = λ d m h. record {
      ordered = h.ordered;
      placed = h.placed;
      fresh = h.fresh;
      marked = h.marked;
    };
  }

  -- Within the epoch, the tick has at most one place.
  pub record IsWatched (e : Engine) : Type 0 where
    pub once : IsOnce t e.monitor
    pub current : is_epoch e.epoch_phase epoch ≡ true

  pub each_slot-IsWatched :
      (op : Focus → Attempt Focus) (e : Engine)
      → Steady (IsOnce t) op
      → IsWatched e
      → IsWatched (each_slot op e).0
  unfolding each_slot
  each_slot-IsWatched op e k w = record {
    once = for_slots-monitor (IsOnce t) op e.slots e k w.once;
    current = rw (each_slot-phase op e) w.current;
  }

  -- Before the first tick of the epoch the tick was not told.
  abbrev pub IsUnseen : Engine → Type 0
  IsUnseen e =
      IsOnce t e.monitor
      × ((is_epoch e.epoch_phase epoch ≡ true) ⊎ (told t e.monitor.inclusions ≡ 0))

  reset_monitor-IsOnce :
      (now : ℕ) (m : Monitor) → told t m.inclusions ≡ 0 → IsOnce t (reset_monitor now m)
  unfolding reset_monitor
  reset_monitor-IsOnce now m h = record {
    ordered = tt;
    placed = refl;
    fresh = omega arith;
    marked = λ l. omega arith;
  }

  observe_epoch-IsWatched :
      (tick : TickInfo) (now : ℕ) (e : Engine)
      → tick.epoch ≡ epoch
      → IsUnseen e
      → IsWatched (observe_epoch tick now e)
  unfolding observe_epoch reset_slots
  observe_epoch-IsWatched tick now e h (o, inl p) =
      let same : is_epoch e.epoch_phase tick.epoch ≡ true = rw h p in
      simp same (record { once = o; current = p })
  observe_epoch-IsWatched tick now e h (o, inr n) =
      elim (Bool-cases (is_epoch e.epoch_phase tick.epoch)) [
        | inl p ↦ simp p (record { once = o; current = rw h at p })
        | inr p ↦
            simp p (record { once = reset_monitor-IsOnce now e.monitor n; current = ground arith })
      ]

  pub update_epoch_phase-IsWatched :
      (tick : TickInfo) (utc : UtcTime) (now : ℕ) (e : Engine)
      → tick.epoch ≡ epoch
      → IsUnseen e
      → IsWatched (update_epoch_phase tick utc now e)
  unfolding update_epoch_phase
  update_epoch_phase-IsWatched tick utc now e h o =
      let seen = observe_epoch-IsWatched tick now e h o in
      record { once = seen.once; current = phase-is_epoch epoch tick _ _ h seen.current }
