-- ===== src/Engine/Events.antt =====
-- What happens to the engine of src/engine.rs: cycles, the drain at a shutdown, and network tasks that
-- the runtime finishes, in any order. A task that finishes inside a cycle is seen by no handler
-- before the next harvest, so tasks finish between cycles.
use qubic_random_client.Base.{ℕ, zero, suc, ◌≡◌, List, [], ◌∷◌, Option, some, none, arith, refl}
use qubic_random_client.Contract.{ProviderStatus}
use qubic_random_client.Backend.{TickTransactions}
use qubic_random_client.Entropy.{External}
use qubic_random_client.Chain.{NetworkTask, Chain, PlannedCall, running}
use qubic_random_client.Monitor.{PendingTickCheck}
use qubic_random_client.Slot.{ManagedSlot, shutdown}
use qubic_random_client.Slot.Shape.{signed_calls, shape_in}
use qubic_random_client.Slot.Invariant.{IsSlot-same_shape}
use qubic_random_client.Slot.Plan.{enter_drain}
use qubic_random_client.Engine.{Engine, PendingStatusQuery, each_slot}
use qubic_random_client.Engine.Phase.{new}
use qubic_random_client.Engine.Cycle.{CycleInput, cycle}
use qubic_random_client.Engine.Handlers.{enter_drain-Keeps}
use qubic_random_client.Engine.Invariant.{
  IsEngine, OnStreams, streams, cycle-IsEngine, each_slot-IsEngine,
}

-- A task ends once.
abbrev ended {ℓ} : {A : Type ℓ} → NetworkTask A → NetworkTask A → NetworkTask A
ended running result = result
ended task result = task

abbrev ended_broadcast :
    Option (NetworkTask (Unit {0})) → NetworkTask (Unit {0}) → Option (NetworkTask (Unit {0}))
ended_broadcast none result = none
ended_broadcast (some task) result = some (ended task result)

-- The task of the call at an index ends.
unfoldable pub end_call : ℕ → NetworkTask (Unit {0}) → List PlannedCall → List PlannedCall
end_call j result [] = []
end_call zero result (c ∷ cs) = record c { broadcast = ended_broadcast c.broadcast result } ∷ cs
end_call (suc j) result (c ∷ cs) = c ∷ end_call j result cs

abbrev pub end_in_chain : ℕ → NetworkTask (Unit {0}) → Option Chain → Option Chain
unfolding end_call
end_in_chain j result none = none
end_in_chain j result (some c) = some (record c { calls = end_call j result c.calls })

unfoldable pub end_in_slots : ℕ → ℕ → NetworkTask (Unit {0}) → List ManagedSlot → List ManagedSlot
unfolding end_in_chain
end_in_slots i j result [] = []
end_in_slots zero j result (s ∷ ss) = record s { chain = end_in_chain j result s.chain } ∷ ss
end_in_slots (suc i) j result (s ∷ ss) = s ∷ end_in_slots i j result ss

abbrev end_query :
    NetworkTask ProviderStatus → Option PendingStatusQuery → Option PendingStatusQuery
end_query result none = none
end_query result (some q) = some (record q { task = ended q.task result })

abbrev pub end_check :
    NetworkTask TickTransactions → Option PendingTickCheck → Option PendingTickCheck
end_check result none = none
end_check result (some c) = some (record c { task = ended c.task result })

pub data Event : Type 0 where
  cycles : CycleInput → Event
  shuts_down : Event
  query_ends : NetworkTask ProviderStatus → Event
  check_ends : NetworkTask TickTransactions → Event
  broadcast_ends : ℕ → ℕ → NetworkTask (Unit {0}) → Event

unfoldable pub step : External → Event → Engine → Engine
unfolding end_in_slots
step x (cycles input) e = (cycle x input e).0
step x shuts_down e = (each_slot (enter_drain x shutdown) e).0
step x (query_ends result) e = record e { status_query = end_query result e.status_query }
step x (check_ends result) e = record e {
  monitor = record (e.monitor) { tick_check = end_check result e.monitor.tick_check };
}
step x (broadcast_ends i j result) e = record e { slots = end_in_slots i j result e.slots }

unfoldable pub history : External → List Event → Engine → Engine
history x [] e = e
history x (v ∷ vs) e = history x vs (step x v e)

end_call-signed :
    (j : ℕ) (result : NetworkTask (Unit {0})) (cs : List PlannedCall)
    → signed_calls (end_call j result cs) ≡ signed_calls cs
unfolding end_call
end_call-signed j result [] = refl
end_call-signed zero result (c ∷ cs) = refl
end_call-signed (suc j) result (c ∷ cs) = cc (end_call-signed j result cs)

pub end_in_chain-shape :
    (j : ℕ) (result : NetworkTask (Unit {0})) (c : Option Chain)
    → shape_in (end_in_chain j result c) ≡ shape_in c
unfolding end_in_chain
end_in_chain-shape j result none = refl
end_in_chain-shape j result (some c) = ground (arith, end_call-signed j result c.calls)

end_in_slots-OnStreams :
    (i j : ℕ) (result : NetworkTask (Unit {0})) (ks : List ℕ) (slots : List ManagedSlot)
    → OnStreams ks slots
    → OnStreams ks (end_in_slots i j result slots)
unfolding end_in_slots
end_in_slots-OnStreams i j result [] [] h = tt
end_in_slots-OnStreams i j result [] (s ∷ ss) h = absurd h
end_in_slots-OnStreams i j result (k ∷ ks) [] h = absurd h
end_in_slots-OnStreams zero j result (k ∷ ks) (s ∷ ss) h =
    (IsSlot-same_shape s _ (end_in_chain-shape j result s.chain) h.0, h.1, h.2)
end_in_slots-OnStreams (suc i) j result (k ∷ ks) (s ∷ ss) h =
    (h.0, h.1, end_in_slots-OnStreams i j result ks ss h.2)

pub step-IsEngine : (x : External) (v : Event) (e : Engine) → IsEngine e → IsEngine (step x v e)
unfolding step
step-IsEngine x (cycles input) e h = cycle-IsEngine x input e h
step-IsEngine x shuts_down e h =
    each_slot-IsEngine (enter_drain x shutdown) e (enter_drain-Keeps x shutdown) h
step-IsEngine x (query_ends result) e h = record { slots_valid = h.slots_valid; timely = h.timely }
step-IsEngine x (check_ends result) e h = record { slots_valid = h.slots_valid; timely = h.timely }
step-IsEngine x (broadcast_ends i j result) e h = record {
  slots_valid = end_in_slots-OnStreams i j result streams e.slots h.slots_valid;
  timely = h.timely;
}

pub history-IsEngine :
    (x : External) (vs : List Event) (e : Engine) → IsEngine e → IsEngine (history x vs e)
unfolding history
history-IsEngine x [] e h = h
history-IsEngine x (v ∷ vs) e h = history-IsEngine x vs (step x v e) (step-IsEngine x v e h)

pub new-IsEngine :
    (collateral stop resume interval delay now : ℕ)
    → IsEngine (new collateral stop resume interval delay now)
unfolding new
new-IsEngine collateral stop resume interval delay now = omega arith
