-- ===== src/Engine/Invariant.antt =====
-- src/engine.rs: what holds of the engine between cycles.
use qubic_random_client.Base.{
  ℕ, ◌≡◌, List, [], ◌∷◌, map, Option, some, none, arith, All, inl, inr, Option-cases, Bool, true,
  false, Bool-cases, ◌||◌, ◌==◌,
}
use qubic_random_client.Entropy.{External}
use qubic_random_client.Backend.{TickInfo}
use qubic_random_client.Slot.{ManagedSlot, Focus, Attempt, ◌>>=◌, >>=-keeps}
use qubic_random_client.Slot.Status.{StatusObservation, apply_status}
use qubic_random_client.Slot.Plan.{enter_drain, start_if_ready, extend_chain}
use qubic_random_client.Slot.Invariant.{IsSlot}
use qubic_random_client.Slot.Deliver.{harvest_broadcasts}
use qubic_random_client.Slot.Deliver.Timely.{IsTimely}
use qubic_random_client.Epoch.{UtcTime}
use qubic_random_client.Engine.{
  Engine, focus, absorb, for_slots, each_slot, each_slot_total, fresh_slot,
}
use qubic_random_client.Engine.Phase.{reset_slots, observe_epoch, is_epoch, update_epoch_phase}
use qubic_random_client.Engine.Cycle.{
  CycleInput, cycle, cycle_at, harvest_status_query, take_status, apply_observation, drain_or_plan,
  ensure_status_query, monitor_ticks, deliver, is_draining_epoch, is_active_epoch,
}
use qubic_random_client.Engine.Handlers.{
  Keeps, IsHandled, Keeps-then, start_if_ready-Keeps, extend_chain-Keeps, enter_drain-Keeps,
  apply_status-Keeps, harvest_broadcasts-Keeps, deliver-Keeps,
}

-- The slots stand on the given streams, in order, each of them well formed.
abbrev pub OnStreams : List ℕ → List ManagedSlot → Type 0
OnStreams [] [] = Unit {0}
OnStreams (k ∷ ks) (s ∷ ss) = IsSlot s × (s.key.stream ≡ k) × OnStreams ks ss
OnStreams _ _ = ⊥

abbrev pub streams : List ℕ
streams = 0 ∷ 1 ∷ 2 ∷ []

pub record IsEngine (e : Engine) : Type 0 where
  pub slots_valid : OnStreams streams e.slots
  pub timely : All IsTimely e.outbox

for_slots-OnStreams :
    (op : Focus → Attempt Focus) (ks : List ℕ) (slots : List ManagedSlot) (e : Engine)
    → Keeps op
    → OnStreams ks slots
    → All IsTimely e.outbox
    → OnStreams ks (for_slots op slots e).0 × All IsTimely (for_slots op slots e).1.outbox
unfolding for_slots
for_slots-OnStreams op [] [] e k h t = (tt, t)
for_slots-OnStreams op [] (s ∷ ss) e k h t = absurd h
for_slots-OnStreams op (stream ∷ ks) [] e k h t = absurd h
for_slots-OnStreams op (stream ∷ ks) (s ∷ ss) e k h t =
    let before : IsHandled stream (focus e s) = record {
      slot_valid = h.0;
      on_stream = h.1;
      timely = t;
    } in
    let after = k stream (focus e s) before in
    let rest = for_slots-OnStreams op ks ss (absorb (op (focus e s)).0 e) k h.2 after.timely in
    elim (Option-cases (op (focus e s)).1) [
      | inl n ↦ rw (n, for_slots) ((after.slot_valid, after.on_stream, rest.0), rest.1)
      | inr (x, n) ↦ rw (n, for_slots) ((after.slot_valid, after.on_stream, h.2), after.timely)
    ]

pub each_slot-IsEngine :
    (op : Focus → Attempt Focus) (e : Engine) → Keeps op → IsEngine e → IsEngine (each_slot op e).0
unfolding each_slot
each_slot-IsEngine op e k v =
    let kept = for_slots-OnStreams op streams e.slots e k v.slots_valid v.timely in
    record { slots_valid = kept.0; timely = kept.1 }

map-fresh-OnStreams :
    (ks : List ℕ) (slots : List ManagedSlot)
    → OnStreams ks slots
    → OnStreams ks (map (λ s. fresh_slot s.key) slots)
map-fresh-OnStreams [] [] h = tt
map-fresh-OnStreams [] (s ∷ ss) h = absurd h
map-fresh-OnStreams (k ∷ ks) [] h = absurd h
map-fresh-OnStreams (k ∷ ks) (s ∷ ss) h = (
  record { stream_valid = h.0.stream_valid; stands = omega arith },
  h.1,
  map-fresh-OnStreams ks ss h.2,
)

reset_slots-IsEngine : (now : ℕ) (e : Engine) → IsEngine e → IsEngine (reset_slots now e)
unfolding reset_slots
reset_slots-IsEngine now e v = record {
  slots_valid = map-fresh-OnStreams streams e.slots v.slots_valid;
  timely = v.timely;
}

observe_epoch-IsEngine :
    (tick : TickInfo) (now : ℕ) (e : Engine) → IsEngine e → IsEngine (observe_epoch tick now e)
unfolding observe_epoch
observe_epoch-IsEngine tick now e v = elim (Bool-cases (is_epoch e.epoch_phase tick.epoch)) [
  | inl h ↦ simp h v
  | inr h ↦
      let w = reset_slots-IsEngine now e v in
      simp h (record { slots_valid = w.slots_valid; timely = w.timely })
]

pub update_epoch_phase-IsEngine :
    (tick : TickInfo) (utc : UtcTime) (now : ℕ) (e : Engine)
    → IsEngine e
    → IsEngine (update_epoch_phase tick utc now e)
unfolding update_epoch_phase
update_epoch_phase-IsEngine tick utc now e v =
    let w = observe_epoch-IsEngine tick now e v in
    record { slots_valid = w.slots_valid; timely = w.timely }

pub harvest_status_query-IsEngine : (e : Engine) → IsEngine e → IsEngine (harvest_status_query e).0
unfolding harvest_status_query take_status
harvest_status_query-IsEngine e v = ground arith

apply_observation-IsEngine :
    (o : Option StatusObservation) (epoch : ℕ) (e : Engine)
    → IsEngine e
    → IsEngine (apply_observation o epoch e).0
unfolding apply_observation
apply_observation-IsEngine none epoch e v = v
apply_observation-IsEngine (some o) epoch e v = elim (Bool-cases (o.epoch == epoch)) [
  | inl h ↦ rw h (each_slot-IsEngine (λ f. (apply_status o f, none)) e (apply_status-Keeps o) v)
  | inr h ↦ rw h v
]

drain_or_plan-IsEngine :
    (x : External) (tick : TickInfo) (down : Bool) (e : Engine)
    → IsEngine e
    → IsEngine (drain_or_plan x tick down e).0
unfolding drain_or_plan
drain_or_plan-IsEngine x tick down e v =
    elim (Bool-cases (down || is_draining_epoch e.epoch_phase tick.epoch)) [
      | inl d ↦ rw d (each_slot-IsEngine (enter_drain x _) e (enter_drain-Keeps x _) v)
      | inr d ↦ rw d (elim (Bool-cases (is_active_epoch e.epoch_phase tick.epoch)) [
        | inl a ↦ rw a (
            each_slot-IsEngine (λ f. start_if_ready x tick.tick f >>= extend_chain x tick.tick) e
              (Keeps-then (start_if_ready x tick.tick) (extend_chain x tick.tick)
                (start_if_ready-Keeps x tick.tick) (extend_chain-Keeps x tick.tick))
              v)
        | inr a ↦ rw a v
      ])
    ]

pub ensure_status_query-IsEngine :
    (epoch tick now : ℕ) (e : Engine) → IsEngine e → IsEngine (ensure_status_query epoch tick now e)
unfolding ensure_status_query
ensure_status_query-IsEngine epoch tick now e v = ground arith

pub monitor_ticks-IsEngine :
    (i : CycleInput) (tick : ℕ) (checking : Bool) (e : Engine)
    → IsEngine e
    → IsEngine (monitor_ticks i tick checking e)
unfolding monitor_ticks
monitor_ticks-IsEngine i tick true e v = record { slots_valid = v.slots_valid; timely = v.timely }
monitor_ticks-IsEngine i tick false e v = record { slots_valid = v.slots_valid; timely = v.timely }

cycle_at-IsEngine :
    (x : External) (i : CycleInput) (tick : TickInfo) (e : Engine)
    → IsEngine e
    → IsEngine (cycle_at x i tick e).0
unfolding cycle_at
cycle_at-IsEngine x i tick e v =
    let phased = update_epoch_phase tick i.utc i.reset_now e in
    let started = (harvest_status_query phased).0 in
    >>=-keeps IsEngine (each_slot_total harvest_broadcasts started) _
      (each_slot-IsEngine (λ f. (harvest_broadcasts f, none)) started harvest_broadcasts-Keeps
        (harvest_status_query-IsEngine phased
          (update_epoch_phase-IsEngine tick i.utc i.reset_now e v)))
      (λ harvested v1.
        >>=-keeps IsEngine (apply_observation (harvest_status_query phased).1 tick.epoch harvested)
          _ (apply_observation-IsEngine (harvest_status_query phased).1 tick.epoch harvested v1)
          (λ observed v2.
            >>=-keeps IsEngine (drain_or_plan x tick i.cancelled observed) _
              (drain_or_plan-IsEngine x tick i.cancelled observed v2)
              (λ planned v3.
                >>=-keeps IsEngine
                  (each_slot_total (deliver x tick.tick tick.tick_duration_ms) planned) _
                  (each_slot-IsEngine (λ f. (deliver x tick.tick tick.tick_duration_ms f, none))
                    planned (deliver-Keeps x tick.tick tick.tick_duration_ms) v3)
                  (λ delivered v4.
                    monitor_ticks-IsEngine i tick.tick _ _ (
                      ensure_status_query-IsEngine tick.epoch tick.tick i.query_now delivered
                        v4)))))

pub cycle-IsEngine :
    (x : External) (i : CycleInput) (e : Engine) → IsEngine e → IsEngine (cycle x i e).0
unfolding cycle
cycle-IsEngine x i e v = elim (Option-cases i.tick_info) [
  | inl n ↦ rw (n, cycle) v
  | inr (tick, n) ↦ rw (n, cycle) (cycle_at-IsEngine x i tick e v)
]
