-- ===== src/Engine/Checked/Cycles.antt =====
-- src/engine.rs: within an epoch no tick is looked at twice.
use qubic_random_client.Base.{
  ℕ, ◌≡◌, Option, none, some, arith, inl, inr, Option-cases, Bool, true, false, Bool-cases, ◌||◌,
  ◌==◌,
}
use qubic_random_client.Entropy.{External}
use qubic_random_client.Backend.{TickInfo}
use qubic_random_client.Monitor.Queue.Once.{IsOnce, harvest_tick_check-IsOnce}
use qubic_random_client.Monitor.Queue.Reports.{expire_tick_checks-IsOnce, ensure_tick_check-IsOnce}
use qubic_random_client.Slot.{◌>>=◌, >>=-keeps, DrainReason}
use qubic_random_client.Slot.Monitored.{enter_drain-monitor, harvest_broadcasts-monitor}
use qubic_random_client.Slot.Status.{StatusObservation, apply_status}
use qubic_random_client.Slot.Status.Monitored.{apply_status-monitor}
use qubic_random_client.Slot.Plan.{enter_drain, start_if_ready, extend_chain}
use qubic_random_client.Slot.Deliver.{harvest_broadcasts}
use qubic_random_client.Engine.{Engine, each_slot_total}
use qubic_random_client.Engine.Phase.{update_epoch_phase}
use qubic_random_client.Engine.Cycle.{
  CycleInput, cycle, cycle_at, harvest_status_query, take_status, apply_observation, drain_or_plan,
  ensure_status_query, monitor_ticks, deliver, is_draining_epoch, is_active_epoch,
}
use qubic_random_client.Engine.Ledger.Histories.{InEpoch}
use qubic_random_client.Engine.Events.{cycles}
use qubic_random_client.Engine.Checked.{
  Steady, deliver-Steady, plan-Steady, IsOnce-IsKept, IsWatched, each_slot-IsWatched, IsUnseen,
  update_epoch_phase-IsWatched,
}

module _ (t epoch : ℕ) where
  harvest_status_query-IsWatched :
      (e : Engine) → IsWatched t epoch e → IsWatched t epoch (harvest_status_query e).0
  unfolding harvest_status_query take_status
  harvest_status_query-IsWatched e w = record {
    once = let o = w.once in ground arith;
    current = let p = w.current in ground arith;
  }

  apply_observation-IsWatched :
      (o : Option StatusObservation) (current : ℕ) (e : Engine)
      → IsWatched t epoch e
      → IsWatched t epoch (apply_observation o current e).0
  unfolding apply_observation
  apply_observation-IsWatched none current e w = w
  apply_observation-IsWatched (some o) current e w = elim (Bool-cases (o.epoch == current)) [
    | inl h ↦ rw h (
        each_slot-IsWatched t epoch (λ f. (apply_status o f, none)) e
          (apply_status-monitor (IsOnce t) (IsOnce-IsKept t epoch) o) w)
    | inr h ↦ rw h w
  ]

  drain-Steady : (x : External) (reason : DrainReason) → Steady (IsOnce t) (enter_drain x reason)
  drain-Steady x reason f h = rw (enter_drain-monitor x reason f) h

  drain_or_plan-IsWatched :
      (x : External) (tick : TickInfo) (down : Bool) (e : Engine)
      → IsWatched t epoch e
      → IsWatched t epoch (drain_or_plan x tick down e).0
  unfolding drain_or_plan
  drain_or_plan-IsWatched x tick down e w =
      elim (Bool-cases (down || is_draining_epoch e.epoch_phase tick.epoch)) [
        | inl d ↦ rw d (each_slot-IsWatched t epoch (enter_drain x _) e (drain-Steady x _) w)
        | inr d ↦ rw d (elim (Bool-cases (is_active_epoch e.epoch_phase tick.epoch)) [
          | inl a ↦ rw a (
              each_slot-IsWatched t epoch
                (λ f. start_if_ready x tick.tick f >>= extend_chain x tick.tick) e
                (plan-Steady (IsOnce t) (IsOnce-IsKept t epoch) x tick.tick) w)
          | inr a ↦ rw a w
        ])
      ]

  ensure_status_query-IsWatched :
      (current tick now : ℕ) (e : Engine)
      → IsWatched t epoch e
      → IsWatched t epoch (ensure_status_query current tick now e)
  unfolding ensure_status_query
  ensure_status_query-IsWatched current tick now e w = record {
    once = let o = w.once in ground arith;
    current = let p = w.current in ground arith;
  }

  monitor_ticks-IsWatched :
      (i : CycleInput) (tick : ℕ) (checking : Bool) (e : Engine)
      → IsWatched t epoch e
      → IsWatched t epoch (monitor_ticks i tick checking e)
  unfolding monitor_ticks
  monitor_ticks-IsWatched i tick true e w = record {
    once = ensure_tick_check-IsOnce t tick i.recheck_now i.check_now _ (
        harvest_tick_check-IsOnce t i.harvest_now _
          (expire_tick_checks-IsOnce t tick i.expire_now e.monitor w.once));
    current = w.current;
  }
  monitor_ticks-IsWatched i tick false e w = record {
    once =
        harvest_tick_check-IsOnce t i.harvest_now _
          (expire_tick_checks-IsOnce t tick i.expire_now e.monitor w.once);
    current = w.current;
  }

  cycle_at-IsWatched :
      (x : External) (i : CycleInput) (tick : TickInfo) (e : Engine)
      → tick.epoch ≡ epoch
      → IsUnseen t epoch e
      → IsWatched t epoch (cycle_at x i tick e).0
  unfolding cycle_at
  cycle_at-IsWatched x i tick e h o =
      let phased = update_epoch_phase tick i.utc i.reset_now e in
      let started = (harvest_status_query phased).0 in
      let seen = (harvest_status_query phased).1 in
      let delivers = deliver x tick.tick tick.tick_duration_ms in
      let kept = IsOnce-IsKept t epoch in
      >>=-keeps (IsWatched t epoch) (each_slot_total harvest_broadcasts started) _
        (each_slot-IsWatched t epoch (λ f. (harvest_broadcasts f, none)) started
          (harvest_broadcasts-monitor (IsOnce t) kept)
          (harvest_status_query-IsWatched phased
            (update_epoch_phase-IsWatched t epoch tick i.utc i.reset_now e h o)))
        (λ harvested w1.
          >>=-keeps (IsWatched t epoch) (apply_observation seen tick.epoch harvested) _
            (apply_observation-IsWatched seen tick.epoch harvested w1)
            (λ observed w2.
              >>=-keeps (IsWatched t epoch) (drain_or_plan x tick i.cancelled observed) _
                (drain_or_plan-IsWatched x tick i.cancelled observed w2)
                (λ planned w3.
                  >>=-keeps (IsWatched t epoch) (each_slot_total delivers planned) _
                    (each_slot-IsWatched t epoch (λ f. (delivers f, none)) planned
                      (deliver-Steady (IsOnce t) kept x tick.tick tick.tick_duration_ms) w3)
                    (λ delivered w4. monitor_ticks-IsWatched i tick.tick _ _ (
                      ensure_status_query-IsWatched tick.epoch tick.tick i.query_now delivered
                        w4)))))

  pub cycle-IsUnseen :
      (x : External) (i : CycleInput) (e : Engine)
      → InEpoch epoch (cycles i)
      → IsUnseen t epoch e
      → IsUnseen t epoch (cycle x i e).0
  unfolding cycle
  cycle-IsUnseen x i e h o = elim (Option-cases i.tick_info) [
    | inl n ↦ rw (n, cycle) o
    | inr (tick, n) ↦
        let w = cycle_at-IsWatched x i tick e (h tick n) o in
        rw (n, cycle) ((w.once, inl w.current))
  ]
