-- ===== src/Scenarios/Histories.antt =====
-- Histories and runs of the engine of src/engine.rs at concrete inputs.
use qubic_random_client.Base.{
  arith, ℕ, ◌≤◌, ◌≡◌, refl, map, List, [], ◌∷◌, ◌++◌, none, some, All, true,
}
use qubic_random_client.Slot.Deliver.Timely.{IsTimely}
use qubic_random_client.Slot.{ManagedSlot, drained, nothing_to_drain}
use qubic_random_client.Slot.Plan.{start_if_ready, extend_chain}
use qubic_random_client.Engine.{each_slot, for_slots}
use qubic_random_client.Engine.Phase.{new, update_epoch_phase}
use qubic_random_client.Engine.Cycle.{
  cycle, cycle_at, harvest_status_query, apply_observation, drain_or_plan, is_draining_epoch,
  is_active_epoch, monitor_ticks, ensure_status_query, deliver,
}
use qubic_random_client.Slot.Deliver.{harvest_broadcasts}
use qubic_random_client.Slot.Status.{apply_status}
use qubic_random_client.Engine.Invariant.{OnStreams, streams}
use qubic_random_client.Engine.Events.{history, step}
use qubic_random_client.Engine.Safety.{
  count, all_targets, reached_slots, reached-IsTimely, one_call_per_tick,
}
use qubic_random_client.Engine.Ledger.Histories.{InEpoch, forget, no_equivocation}
use qubic_random_client.Slot.Deliver.Recorded.{Agreeing}
use qubic_random_client.Engine.Checked.Places.{places, one_place}
use qubic_random_client.Engine.Run.{run, RunState, Iteration, Observer, requested_at}
use qubic_random_client.Engine.Run.Deadline.{Exits, run-Exits}
use qubic_random_client.Scenarios.{sample, events, fresh_engine, input_at}

reached_slots_example : OnStreams streams (history sample events fresh_engine).slots
reached_slots_example = reached_slots sample 1 3600 5 1000 5 0 events

reached-IsTimely_example : All IsTimely (history sample events fresh_engine).outbox
reached-IsTimely_example = reached-IsTimely sample 1 3600 5 1000 5 0 events

one_call_per_tick_example : count 108 (all_targets (history sample events fresh_engine).slots) ≤ 1
one_call_per_tick_example = one_call_per_tick sample 1 3600 5 1000 5 0 events 108

-- The cycles of that history are all of epoch 7.
events-InEpoch : All (InEpoch 7) events
events-InEpoch = ((λ t e. cc), (tt, ((λ t e. cc), ((λ t e. cc), (tt, ((λ t e. cc), tt))))))

no_equivocation_example :
    Agreeing (history sample events (forget (history sample events fresh_engine))).outbox
no_equivocation_example = no_equivocation sample 1 3600 5 1000 5 0 7 events events events-InEpoch

one_place_example : places 108 (history sample events fresh_engine).monitor ≤ 1
one_place_example = one_place sample 1 3600 5 1000 5 0 108 7 events events-InEpoch

abbrev iteration : Observer → Iteration
iteration observer = record {
  now = 10;
  input = record (input_at 100) { tick_info = none };
  observer = observer;
}

-- A shutdown is requested in the first iteration, and the second finds all slots drained.
abbrev iterations : List Iteration
iterations = iteration (requested_at 5) ∷ iteration Observer.waiting ∷ []

abbrev drained_slot : ℕ → ManagedSlot
drained_slot stream = record {
  key = record { stream = stream; collateral_tier = 0 };
  state = drained nothing_to_drain;
  chain = none;
  restart_at = 0;
}

-- The state in which that run ends.
abbrev final : RunState
final = record {
  engine = record fresh_engine { slots = map drained_slot (0 ∷ 1 ∷ 2 ∷ []) };
  shutting_down = true;
  shutdown_deadline = some 90_005;
}

-- A clock that reads ninety seconds after the request.
abbrev late : Iteration
late = record (iteration Observer.waiting) { now = 90_005 }

run-Exits_example : Exits (
    run sample
      ((iteration Observer.waiting ∷ []) ++ (iteration (requested_at 5) ∷ ([] ++ (late ∷ []))))
      fresh_engine)
run-Exits_example =
    run-Exits sample fresh_engine 5 (iteration Observer.waiting ∷ []) [] []
      (iteration (requested_at 5)) late (refl, tt) refl (omega arith)

-- What the streams plan in the history above.
planned_targets :
    all_targets (history sample events fresh_engine).slots ≡ 108 ∷ 109 ∷ 107 ∷ 110 ∷ []
unfolding history step cycle cycle_at each_slot for_slots new harvest_status_query
    update_epoch_phase apply_observation drain_or_plan is_draining_epoch is_active_epoch
    start_if_ready harvest_broadcasts extend_chain monitor_ticks ensure_status_query apply_status
    deliver
planned_targets = refl

-- The call for 108 is sent twice: the second time when the backend has accepted it.
sent_targets :
    map (λ b. b.target_tick) (history sample events fresh_engine).outbox
    ≡ 108 ∷ 109 ∷ 108 ∷ 107 ∷ []
unfolding history step cycle cycle_at each_slot for_slots new harvest_status_query
    update_epoch_phase apply_observation drain_or_plan is_draining_epoch is_active_epoch
    start_if_ready harvest_broadcasts extend_chain monitor_ticks ensure_status_query apply_status
    deliver
sent_targets = refl
