-- ===== src/Engine/Ledger/Histories.antt =====
-- src/engine.rs: what happens to the engine within one epoch keeps the record of its broadcasts.
use qubic_random_client.Base.{
  ℕ, zero, suc, ◌≡◌, ◌∙◌, ◌⊎◌, true, refl, List, [], ◌∷◌, some, All, All-map, inl, inr,
  Option-cases,
}
use qubic_random_client.Entropy.{External}
use qubic_random_client.Backend.{TickInfo}
use qubic_random_client.Chain.{NetworkTask}
use qubic_random_client.Slot.{ManagedSlot, Focus, Attempt, Broadcast, shutdown}
use qubic_random_client.Slot.Outbox.{enter_drain-outbox}
use qubic_random_client.Slot.Ledger.{Knows-same_shape}
use qubic_random_client.Slot.Plan.{enter_drain}
use qubic_random_client.Slot.Deliver.Recorded.{Agreeing, Remembers}
use qubic_random_client.Engine.{Engine, focus, absorb, for_slots, each_slot}
use qubic_random_client.Engine.Phase.{new, is_epoch}
use qubic_random_client.Engine.Cycle.{CycleInput, cycle}
use qubic_random_client.Engine.Handlers.{enter_drain-Keeps}
use qubic_random_client.Engine.Recorded.{enter_drain-Records}
use qubic_random_client.Engine.Ledger.Cycles.{cycle_at-IsCurrent}
use qubic_random_client.Engine.Ledger.Epochs.{
  IsBooked, IsOpen, each_slot-IsBooked, each_slot-phase, empty-IsLedger,
}
use qubic_random_client.Engine.Events.{
  Event, step, history, cycles, shuts_down, query_ends, check_ends, broadcast_ends, end_in_slots,
  end_in_chain-shape, step-IsEngine, history-IsEngine, new-IsEngine,
}

end_in_slots-known :
    (i j : ℕ) (result : NetworkTask (Unit {0})) (slots : List ManagedSlot) (bs : List Broadcast)
    → All (λ s. All (Remembers s) bs) slots
    → All (λ s. All (Remembers s) bs) (end_in_slots i j result slots)
unfolding end_in_slots
end_in_slots-known i j result [] bs h = tt
end_in_slots-known zero j result (s ∷ ss) bs h = (
  All-map _ _
      (λ b r m.
        Knows-same_shape b.target_tick b.tx_bytes s _ (end_in_chain-shape j result s.chain) (r m))
      bs h.0,
  h.1,
)
end_in_slots-known (suc i) j result (s ∷ ss) bs h = (h.0, end_in_slots-known i j result ss bs h.1)

-- A loop whose body starts no broadcast.
for_slots-outbox :
    (op : Focus → Attempt Focus)
    → ((f : Focus) → (op f).0.outbox ≡ f.outbox)
    → (slots : List ManagedSlot) (e : Engine) → (for_slots op slots e).1.outbox ≡ e.outbox
unfolding for_slots
for_slots-outbox op quiet [] e = refl
for_slots-outbox op quiet (s ∷ ss) e =
    let rest = for_slots-outbox op quiet ss (absorb (op (focus e s)).0 e) in
    elim (Option-cases (op (focus e s)).1) [
      | inl n ↦ rw (n, for_slots) (rest ∙ quiet (focus e s))
      | inr (x, n) ↦ rw (n, for_slots) (quiet (focus e s))
    ]

module _ (epoch : ℕ) where
  -- Every tick that a cycle is told is of the epoch.
  abbrev pub InEpoch : Event → Type 0
  InEpoch (cycles input) = (tick : TickInfo) → input.tick_info ≡ some tick → tick.epoch ≡ epoch
  InEpoch _ = Unit

  cycle-IsOpen :
      (x : External) (i : CycleInput) (e : Engine)
      → InEpoch (cycles i)
      → IsOpen epoch e
      → IsOpen epoch (cycle x i e).0
  unfolding cycle
  cycle-IsOpen x i e h o = elim (Option-cases i.tick_info) [
    | inl n ↦ rw (n, cycle) o
    | inr (tick, n) ↦
        let c = cycle_at-IsCurrent epoch x i tick e (h tick n) o in
        rw (n, cycle) ((c.booked, inl c.current))
  ]

  shut_phase :
      (x : External) (e : Engine)
      → (is_epoch e.epoch_phase epoch ≡ true) ⊎ (e.outbox ≡ [])
      → (is_epoch (each_slot (enter_drain x shutdown) e).0.epoch_phase epoch ≡ true)
        ⊎ ((each_slot (enter_drain x shutdown) e).0.outbox ≡ [])
  unfolding each_slot
  shut_phase x e (inl p) = inl (rw (each_slot-phase (enter_drain x shutdown) e) p)
  shut_phase x e (inr n) =
      inr (for_slots-outbox (enter_drain x shutdown) (enter_drain-outbox x shutdown) e.slots e ∙ n)

  shuts_down-IsOpen :
      (x : External) (e : Engine)
      → IsOpen epoch e
      → IsOpen epoch (each_slot (enter_drain x shutdown) e).0
  shuts_down-IsOpen x e (b, o) = (
    each_slot-IsBooked (enter_drain x shutdown) e (enter_drain-Keeps x shutdown)
        (enter_drain-Records x shutdown) b,
    shut_phase x e o,
  )

  step-IsOpen :
      (x : External) (v : Event) (e : Engine)
      → InEpoch v
      → IsOpen epoch e
      → IsOpen epoch (step x v e)
  unfolding step
  step-IsOpen x (cycles input) e h o = cycle-IsOpen x input e h o
  step-IsOpen x shuts_down e h o = shuts_down-IsOpen x e o
  step-IsOpen x (query_ends result) e h (b, o) =
      (record { valid = step-IsEngine x (query_ends result) e b.valid; ledger = b.ledger }, o)
  step-IsOpen x (check_ends result) e h (b, o) =
      (record { valid = step-IsEngine x (check_ends result) e b.valid; ledger = b.ledger }, o)
  step-IsOpen x (broadcast_ends i j result) e h (b, o) = (
    record {
      valid = step-IsEngine x (broadcast_ends i j result) e b.valid;
      ledger = record {
        agreeing = b.ledger.agreeing;
        known = end_in_slots-known i j result e.slots e.outbox b.ledger.known;
      };
    },
    o,
  )

  history-IsOpen :
      (x : External) (vs : List Event) (e : Engine)
      → All InEpoch vs
      → IsOpen epoch e
      → IsOpen epoch (history x vs e)
  unfolding history
  history-IsOpen x [] e h o = o
  history-IsOpen x (v ∷ vs) e h o = history-IsOpen x vs (step x v e) h.1 (step-IsOpen x v e h.0 o)

-- The engine with an empty record of broadcasts, which no code reads.
abbrev pub forget : Engine → Engine
forget e = record e { outbox = [] }

module _ (x : External) (collateral stop resume interval delay now : ℕ) where
  -- Whatever happened before, in any stretch of cycles, shutdowns and ended network tasks in which
  -- every tick is of one epoch, any two broadcasts of a stream for the same target tick carry the
  -- same transaction bytes: retries, additional sends, lost and restarted chains and drains included.
  pub no_equivocation :
      (epoch : ℕ) (earlier events : List Event)
      → All (InEpoch epoch) events
      → Agreeing
          (history x events
            (forget (history x earlier (new collateral stop resume interval delay now)))).outbox
  no_equivocation epoch earlier events h =
      let start = forget (history x earlier (new collateral stop resume interval delay now)) in
      let valid =
        history-IsEngine x earlier _ (new-IsEngine collateral stop resume interval delay now) in
      let booked : IsBooked start = record {
        valid = record { slots_valid = valid.slots_valid; timely = tt };
        ledger = empty-IsLedger start.slots;
      } in
      (history-IsOpen epoch x events start h (booked, inr refl)).0.ledger.agreeing
