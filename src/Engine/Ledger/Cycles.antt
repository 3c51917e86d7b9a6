-- ===== src/Engine/Ledger/Cycles.antt =====
-- src/engine.rs: a cycle keeps the record of the broadcasts of its epoch.
use qubic_random_client.Base.{
  ℕ, ◌≡◌, Option, none, some, arith, inl, inr, Bool, true, false, Bool-cases, ◌||◌, ◌==◌,
}
use qubic_random_client.Entropy.{External}
use qubic_random_client.Backend.{TickInfo}
use qubic_random_client.Slot.{◌>>=◌, >>=-keeps}
use qubic_random_client.Slot.Plan.{start_if_ready, extend_chain, enter_drain}
use qubic_random_client.Slot.Status.{StatusObservation, apply_status}
use qubic_random_client.Slot.Deliver.{harvest_broadcasts}
use qubic_random_client.Engine.{Engine, each_slot_total}
use qubic_random_client.Engine.Phase.{update_epoch_phase}
use qubic_random_client.Engine.Cycle.{
  CycleInput, cycle_at, harvest_status_query, take_status, apply_observation, drain_or_plan,
  ensure_status_query, monitor_ticks, deliver, is_draining_epoch, is_active_epoch,
}
use qubic_random_client.Engine.Handlers.{
  Keeps-then, start_if_ready-Keeps, extend_chain-Keeps, enter_drain-Keeps, apply_status-Keeps,
  harvest_broadcasts-Keeps, deliver-Keeps,
}
use qubic_random_client.Engine.Recorded.{
  plan-Records, enter_drain-Records, apply_status-Records, harvest_broadcasts-Records,
  deliver-Records,
}
use qubic_random_client.Engine.Invariant.{
  harvest_status_query-IsEngine, ensure_status_query-IsEngine, monitor_ticks-IsEngine,
}
use qubic_random_client.Engine.Ledger.Epochs.{
  IsCurrent, IsOpen, each_slot-IsCurrent, update_epoch_phase-IsCurrent,
}

module _ (epoch : ℕ) where
  harvest_status_query-IsCurrent :
      (e : Engine) → IsCurrent epoch e → IsCurrent epoch (harvest_status_query e).0
  unfolding harvest_status_query take_status
  harvest_status_query-IsCurrent e c = record {
    booked = record {
      valid = harvest_status_query-IsEngine e c.booked.valid;
      ledger = let l = c.booked.ledger in ground arith;
    };
    current = let p = c.current in ground arith;
  }

  apply_observation-IsCurrent :
      (o : Option StatusObservation) (current : ℕ) (e : Engine)
      → IsCurrent epoch e
      → IsCurrent epoch (apply_observation o current e).0
  unfolding apply_observation
  apply_observation-IsCurrent none current e c = c
  apply_observation-IsCurrent (some o) current e c = elim (Bool-cases (o.epoch == current)) [
    | inl h ↦ rw h (
        each_slot-IsCurrent epoch (λ f. (apply_status o f, none)) e (apply_status-Keeps o)
          (apply_status-Records o) c)
    | inr h ↦ rw h c
  ]

  drain_or_plan-IsCurrent :
      (x : External) (tick : TickInfo) (down : Bool) (e : Engine)
      → IsCurrent epoch e
      → IsCurrent epoch (drain_or_plan x tick down e).0
  unfolding drain_or_plan
  drain_or_plan-IsCurrent x tick down e c =
      elim (Bool-cases (down || is_draining_epoch e.epoch_phase tick.epoch)) [
        | inl d ↦ rw d (
            each_slot-IsCurrent epoch (enter_drain x _) e (enter_drain-Keeps x _)
              (enter_drain-Records x _) c)
        | inr d ↦ rw d (elim (Bool-cases (is_active_epoch e.epoch_phase tick.epoch)) [
          | inl a ↦ rw a (
              each_slot-IsCurrent epoch
                (λ f. start_if_ready x tick.tick f >>= extend_chain x tick.tick) e
                (Keeps-then (start_if_ready x tick.tick) (extend_chain x tick.tick)
                  (start_if_ready-Keeps x tick.tick) (extend_chain-Keeps x tick.tick))
                (plan-Records x tick.tick) c)
          | inr a ↦ rw a c
        ])
      ]

  ensure_status_query-IsCurrent :
      (current tick now : ℕ) (e : Engine)
      → IsCurrent epoch e
      → IsCurrent epoch (ensure_status_query current tick now e)
  unfolding ensure_status_query
  ensure_status_query-IsCurrent current tick now e c = record {
    booked = record {
      valid = ensure_status_query-IsEngine current tick now e c.booked.valid;
      ledger = let l = c.booked.ledger in ground arith;
    };
    current = let p = c.current in ground arith;
  }

  monitor_ticks-IsCurrent :
      (i : CycleInput) (tick : ℕ) (checking : Bool) (e : Engine)
      → IsCurrent epoch e
      → IsCurrent epoch (monitor_ticks i tick checking e)
  unfolding monitor_ticks
  monitor_ticks-IsCurrent i tick true e c = record {
    booked = record {
      valid = monitor_ticks-IsEngine i tick true e c.booked.valid;
      ledger = c.booked.ledger;
    };
    current = c.current;
  }
  monitor_ticks-IsCurrent i tick false e c = record {
    booked = record {
      valid = monitor_ticks-IsEngine i tick false e c.booked.valid;
      ledger = c.booked.ledger;
    };
    current = c.current;
  }

  pub cycle_at-IsCurrent :
      (x : External) (i : CycleInput) (tick : TickInfo) (e : Engine)
      → tick.epoch ≡ epoch
      → IsOpen epoch e
      → IsCurrent epoch (cycle_at x i tick e).0
  unfolding cycle_at
  cycle_at-IsCurrent x i tick e h o =
      let phased = update_epoch_phase tick i.utc i.reset_now e in
      let started = (harvest_status_query phased).0 in
      let seen = (harvest_status_query phased).1 in
      let delivers = deliver x tick.tick tick.tick_duration_ms in
      >>=-keeps (IsCurrent epoch) (each_slot_total harvest_broadcasts started) _
        (each_slot-IsCurrent epoch (λ f. (harvest_broadcasts f, none)) started
          harvest_broadcasts-Keeps harvest_broadcasts-Records
          (harvest_status_query-IsCurrent phased
            (update_epoch_phase-IsCurrent epoch tick i.utc i.reset_now e h o)))
        (λ harvested c1.
          >>=-keeps (IsCurrent epoch) (apply_observation seen tick.epoch harvested) _
            (apply_observation-IsCurrent seen tick.epoch harvested c1)
            (λ observed c2.
              >>=-keeps (IsCurrent epoch) (drain_or_plan x tick i.cancelled observed) _
                (drain_or_plan-IsCurrent x tick i.cancelled observed c2)
                (λ planned c3.
                  >>=-keeps (IsCurrent epoch) (each_slot_total delivers planned) _
                    (each_slot-IsCurrent epoch (λ f. (delivers f, none)) planned
                      (deliver-Keeps x tick.tick tick.tick_duration_ms)
                      (deliver-Records x tick.tick tick.tick_duration_ms) c3)
                    (λ delivered c4. monitor_ticks-IsCurrent i tick.tick _ _ (
                      ensure_status_query-IsCurrent tick.epoch tick.tick i.query_now delivered
                        c4)))))
