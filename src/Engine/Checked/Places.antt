-- ===== src/Engine/Checked/Places.antt =====
-- src/engine.rs: the histories of one epoch look at a tick once.
use qubic_random_client.Base.{
  ℕ, ◌+◌, ◌≤◌, ◌≡◌, ◌⊎◌, refl, List, [], ◌∷◌, Option, none, some, arith, All, inl, inr, true,
}
use qubic_random_client.Entropy.{External}
use qubic_random_client.Backend.{TickTransactions}
use qubic_random_client.Chain.{NetworkTask}
use qubic_random_client.Monitor.{Monitor, PendingTickCheck}
use qubic_random_client.Monitor.Queue.{count, ready_count}
use qubic_random_client.Monitor.Queue.Once.{IsOnce, in_flight, told}
use qubic_random_client.Slot.{shutdown}
use qubic_random_client.Slot.Monitored.{enter_drain-monitor}
use qubic_random_client.Slot.Plan.{enter_drain}
use qubic_random_client.Engine.{Engine, each_slot}
use qubic_random_client.Engine.Phase.{new, is_epoch}
use qubic_random_client.Engine.Ledger.Epochs.{each_slot-phase}
use qubic_random_client.Engine.Ledger.Histories.{InEpoch}
use qubic_random_client.Engine.Checked.{IsUnseen, for_slots-monitor}
use qubic_random_client.Engine.Checked.Cycles.{cycle-IsUnseen}
use qubic_random_client.Engine.Events.{
  Event, step, history, cycles, shuts_down, query_ends, check_ends, broadcast_ends, end_check,
}

module _ (t epoch : ℕ) where
  shut_phase :
      (x : External) (e : Engine)
      → (is_epoch e.epoch_phase epoch ≡ true) ⊎ (told t e.monitor.inclusions ≡ 0)
      → (is_epoch (each_slot (enter_drain x shutdown) e).0.epoch_phase epoch ≡ true)
        ⊎ (told t (each_slot (enter_drain x shutdown) e).0.monitor.inclusions ≡ 0)
  unfolding each_slot
  shut_phase x e (inl p) = inl (rw (each_slot-phase (enter_drain x shutdown) e) p)
  shut_phase x e (inr n) = inr (
      for_slots-monitor (λ m. told t m.inclusions ≡ 0) (enter_drain x shutdown) e.slots e
        (λ f h. rw (enter_drain-monitor x shutdown f) h) n)

  shuts_down-IsUnseen :
      (x : External) (e : Engine)
      → IsUnseen t epoch e
      → IsUnseen t epoch (each_slot (enter_drain x shutdown) e).0
  unfolding each_slot
  shuts_down-IsUnseen x e (o, p) = (
    for_slots-monitor (IsOnce t) (enter_drain x shutdown) e.slots e
        (λ f h. rw (enter_drain-monitor x shutdown f) h) o,
    shut_phase x e p,
  )

  in_flight-end_check :
      (result : NetworkTask TickTransactions) (c : Option PendingTickCheck)
      → in_flight t (end_check result c) ≡ in_flight t c
  in_flight-end_check result none = refl
  in_flight-end_check result (some c) = refl

  check_ends-IsOnce :
      (result : NetworkTask TickTransactions) (m : Monitor)
      → IsOnce t m
      → IsOnce t (record m { tick_check = end_check result m.tick_check })
  check_ends-IsOnce result m h = record {
    ordered = h.ordered;
    placed = rw (in_flight-end_check result m.tick_check) h.placed;
    fresh = h.fresh;
    marked = h.marked;
  }

  step-IsUnseen :
      (x : External) (v : Event) (e : Engine)
      → InEpoch epoch v
      → IsUnseen t epoch e
      → IsUnseen t epoch (step x v e)
  unfolding step
  step-IsUnseen x (cycles input) e h o = cycle-IsUnseen t epoch x input e h o
  step-IsUnseen x shuts_down e h o = shuts_down-IsUnseen x e o
  step-IsUnseen x (query_ends result) e h o = o
  step-IsUnseen x (check_ends result) e h (o, p) = (check_ends-IsOnce result e.monitor o, p)
  step-IsUnseen x (broadcast_ends i j result) e h o = o

  history-IsUnseen :
      (x : External) (vs : List Event) (e : Engine)
      → All (InEpoch epoch) vs
      → IsUnseen t epoch e
      → IsUnseen t epoch (history x vs e)
  unfolding history
  history-IsUnseen x [] e h o = o
  history-IsUnseen x (v ∷ vs) e h o =
      history-IsUnseen x vs (step x v e) h.1 (step-IsUnseen x v e h.0 o)

  new-IsUnseen :
      (collateral stop resume interval delay now : ℕ)
      → IsUnseen t epoch (new collateral stop resume interval delay now)
  unfolding new
  new-IsUnseen collateral stop resume interval delay now = (
    record { ordered = tt; placed = refl; fresh = omega arith; marked = λ l. omega arith },
    inr refl,
  )

-- The places of a tick: how often it is pending, ready, being looked at and told.
abbrev pub places : ℕ → Monitor → ℕ
places t m =
    count t m.pending_tick_checks
    + ready_count t m.ready_tick_checks
    + in_flight t m.tick_check
    + told t m.inclusions

IsOnce-places : (t : ℕ) (m : Monitor) → IsOnce t m → places t m ≤ 1
IsOnce-places t m h = let placed = h.placed in let fresh = h.fresh in omega arith

module _ (x : External) (collateral stop resume interval delay now : ℕ) where
  -- In every history of one epoch, from the engine's construction on, any tick has one place at
  -- most, and has it once: it is pending, or ready to be looked at, or being looked at, or its
  -- inclusion was told.
  pub one_place :
      (t epoch : ℕ) (events : List Event)
      → All (InEpoch epoch) events
      → places t (history x events (new collateral stop resume interval delay now)).monitor ≤ 1
  one_place t epoch events h =
      IsOnce-places t _
        (history-IsUnseen t epoch x events (new collateral stop resume interval delay now) h
          (new-IsUnseen t epoch collateral stop resume interval delay now)).0
