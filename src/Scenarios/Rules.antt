-- ===== src/Scenarios/Rules.antt =====
-- Examples of the rules of src/engine.rs: status suspicion, targets, phases and counters.
use qubic_random_client.Base.{
  ℕ, ◌+◌, ◌%◌, ◌*◌, ◌≤◌, ◌≡◌, ◌↔◌, refl, List, [], ◌∷◌, some, false, true, arith, max, lookup, map,
}
use qubic_random_client.Contract.{ProviderSlot, slot}
use qubic_random_client.Suspicion.{absent, new, observe, is_confirmed}
use qubic_random_client.Suspicion.Confirmed.{
  Seen, newest_first, suspect, RestsOn, suspect-confirmed,
}
use qubic_random_client.Chain.{owns_target, latest_target_before, next_stream_tick}
use qubic_random_client.Chain.Targets.{
  owns_target_iff, IsLatest, latest_target_before_iff, IsFirstOf, next_stream_tick_iff,
}
use qubic_random_client.Monitor.{SendStats, ok, failed, record_send_outcome}
use qubic_random_client.Monitor.Outcomes.{Tallied, HasRoom, record_send_outcome-Tallied}
use qubic_random_client.Monitor.Severity.{Report, record_all, severity, worst, record_all-worst}
use qubic_random_client.Epoch.{active, warmup, is_epoch_stop_window, seconds_of}
use qubic_random_client.Epoch.Window.{IsTime, is_epoch_stop_window_iff}
use qubic_random_client.Slot.Plan.{may_start, is_planning}
use qubic_random_client.Slot.Status.{StatusObservation, apply_status}
use qubic_random_client.Slot.Status.Presence.{apply_status-present}
use qubic_random_client.Slot.Status.Verdict.{Verdict, apply_status-Verdict}
use qubic_random_client.Engine.{Engine}
use qubic_random_client.Engine.Phase.{
  new as new_engine, new_monitor, update_epoch_phase, keys_of_tier, collateral_tier,
}
use qubic_random_client.Engine.Phase.Phases.{
  IsNext, IsReset, update_epoch_phase-IsNext, update_epoch_phase-IsReset,
}
use qubic_random_client.Scenarios.{
  chain, active_focus, waiting_focus, key, monday, tick_at, fresh_engine,
}

abbrev absence : Seen
absence = record { evidence = absent; requested_tick = 100 }

-- Absences after a first one at tick 100: the one at tick 100 again counts nothing.
abbrev absences : List Seen
absences =
    record { evidence = absent; requested_tick = 100 }
    ∷ record { evidence = absent; requested_tick = 101 }
    ∷ record { evidence = absent; requested_tick = 102 }
    ∷ []

absences-confirm : is_confirmed (suspect (new absent 100) absences) ≡ true
unfolding is_confirmed suspect new observe
absences-confirm = refl

suspect-confirmed_example :
    RestsOn 3 (newest_first (absence ∷ []) absences) (suspect (new absent 100) absences)
suspect-confirmed_example = suspect-confirmed absence absences absences-confirm

owns_target_iff_example :
    (owns_target chain 109 ≡ true)
    ↔ ((k : ℕ) × (109 ≡ chain.first_target + 3 * k) × (109 ≤ chain.last_target))
owns_target_iff_example = owns_target_iff chain 109

latest_target_before_iff_example :
    (latest_target_before chain 109 ≡ some 106) ↔ IsLatest chain 109 106
latest_target_before_iff_example = latest_target_before_iff chain 109 106 (omega arith)

next_stream_tick_iff_example : (next_stream_tick 104 1 ≡ some 106) ↔ IsFirstOf 1 104 106
next_stream_tick_iff_example = next_stream_tick_iff 104 1 106 (omega arith)

monday-IsTime : IsTime monday
monday-IsTime = omega arith

is_epoch_stop_window_iff_example :
    (is_epoch_stop_window monday 180_000 ≡ true)
    ↔ ((d : ℕ) × (d ≤ 180_000) × (d ≤ 604_800) × ((seconds_of monday + d) % 604_800 ≡ 216_000))
is_epoch_stop_window_iff_example = is_epoch_stop_window_iff monday 180_000 monday-IsTime

abbrev no_sends : SendStats
no_sends = record { ok_sends = 0; failed_sends = 0; empty_sends = 0 }

nothing-Tallied : Tallied no_sends (new_monitor 1000 5 0)
nothing-Tallied = ground arith

nothing-HasRoom : HasRoom no_sends (new_monitor 1000 5 0)
nothing-HasRoom o = ground arith

record_send_outcome-Tallied_example :
    Tallied no_sends (record_send_outcome 109 failed (new_monitor 1000 5 0))
record_send_outcome-Tallied_example =
    record_send_outcome-Tallied no_sends 109 failed (new_monitor 1000 5 0) nothing-Tallied
      nothing-HasRoom

abbrev reports : List Report
reports =
    record { tick = 109; outcome = failed }
    ∷ record { tick = 112; outcome = ok }
    ∷ record { tick = 109; outcome = ok }
    ∷ []

record_all-worst_example :
    severity (lookup 109 (record_all reports (new_monitor 1000 5 0)).send_outcomes)
    ≡ max 0 (worst 109 reports)
record_all-worst_example = record_all-worst 109 reports (new_monitor 1000 5 0)

abbrev reported : ProviderSlot
reported = record {
  key = key;
  locked_collateral = 1;
  contributed_to_entropy = true;
  last_update_tick = 103;
}

abbrev observation : StatusObservation
observation = record { epoch = 7; requested_tick = 110; status = record { slots = reported ∷ [] } }

reported-found : slot waiting_focus.slot.key observation.status ≡ some reported
unfolding slot
reported-found = refl

apply_status-present_example : may_start (apply_status observation waiting_focus).slot.state ≡ false
apply_status-present_example =
    apply_status-present observation waiting_focus reported reported-found

active-plans : is_planning active_focus.slot.state ≡ true
unfolding is_planning
active-plans = refl

apply_status-Verdict_example : Verdict 109 110 (apply_status observation active_focus)
apply_status-Verdict_example = apply_status-Verdict observation chain active_focus active-plans refl

abbrev warm_engine : Engine
warm_engine = record fresh_engine { epoch_phase = some (warmup 7 95) }

update_epoch_phase-IsNext_example :
    IsNext
      (tick_at 100)
      (is_epoch_stop_window monday warm_engine.epoch_stop_lead_time_secs)
      (warmup 7 95)
      (update_epoch_phase (tick_at 100) monday 0 warm_engine).epoch_phase
    × ((update_epoch_phase (tick_at 100) monday 0 warm_engine).slots ≡ warm_engine.slots)
update_epoch_phase-IsNext_example =
    update_epoch_phase-IsNext (tick_at 100) monday 0 warm_engine (warmup 7 95) refl refl

abbrev old_engine : Engine
old_engine = record fresh_engine { epoch_phase = some (active 6) }

old_keys : map (λ s. s.key) old_engine.slots ≡ keys_of_tier (collateral_tier old_engine.collateral)
unfolding new_engine
old_keys = refl

update_epoch_phase-IsReset_example :
    IsReset (tick_at 100) monday 0 old_engine (update_epoch_phase (tick_at 100) monday 0 old_engine)
update_epoch_phase-IsReset_example =
    update_epoch_phase-IsReset (tick_at 100) monday 0 old_engine refl old_keys
