-- ===== src/Slot/Finish/Keeps.antt =====
-- src/engine.rs: the end of a drain or of a frozen tail, and pruning, keep a slot well formed.
use qubic_random_client.Base.{ℕ, Bool, arith, Option, some, none, retain}
use qubic_random_client.Chain.{Chain, PlannedCall}
use qubic_random_client.Slot.{
  Focus, SlotState, waiting, starting, active, restarting, draining, drained,
}
use qubic_random_client.Slot.Shape.{
  IsChain, IsFit, shape_of, shape_in, Ascends-retain, All-signed_calls-retain,
}
use qubic_random_client.Slot.Invariant.{Stands, IsSlot}
use qubic_random_client.Slot.Deliver.{complete_drain}
use qubic_random_client.Slot.Finish.{
  finish_drain, finish_status_restart, prune_calls, conclude_drain, drain_finished,
  restart_finished, prune_in, pruned,
}

pub finish_status_restart-IsSlot :
    (tick : ℕ) (f : Focus) → IsSlot f.slot → IsSlot (finish_status_restart tick f).slot
unfolding finish_status_restart restart_finished
finish_status_restart-IsSlot tick f v = ground arith

pub finish_drain-IsSlot : (f : Focus) → IsSlot f.slot → IsSlot (finish_drain f).slot
unfolding finish_drain drain_finished conclude_drain complete_drain
finish_drain-IsSlot f v = ground arith

IsChain-retain :
    (stream top : ℕ) (p : PlannedCall → Bool) (c : Chain)
    → IsChain stream top (shape_of c)
    → IsChain stream top (shape_of (record c { calls = retain p c.calls }))
IsChain-retain stream top p c v = record {
  ordered = v.ordered;
  first_on_stream = v.first_on_stream;
  last_on_stream = v.last_on_stream;
  bounded = v.bounded;
  capped = v.capped;
  ascending = Ascends-retain 0 p c.calls v.ascending;
  fit = All-signed_calls-retain (IsFit stream c.first_target c.last_target top) p c.calls v.fit;
}

Stands-pruned :
    (stream tick : ℕ) (state : SlotState) (chain : Option Chain) (restart_at : ℕ)
    → Stands stream state (shape_in chain) restart_at
    → Stands stream state (shape_in (pruned tick chain)) restart_at
Stands-pruned stream tick state none r h = h
Stands-pruned stream tick (starting _) (some c) r h = (IsChain-retain stream _ _ c h.0, h.1)
Stands-pruned stream tick active (some c) r h = IsChain-retain stream _ _ c h
Stands-pruned stream tick (restarting _ _ _ _) (some c) r h =
    (IsChain-retain stream _ _ c h.0, h.1, h.2, h.3)
Stands-pruned stream tick (draining _ _) (some c) r h = (IsChain-retain stream _ _ c h.0, h.1)
Stands-pruned stream tick (waiting _ _) (some c) r h = h
Stands-pruned stream tick (drained _) (some c) r h = h

prune_in-IsSlot :
    (state : SlotState) (tick : ℕ) (f : Focus) → IsSlot f.slot → IsSlot (prune_in state tick f).slot
unfolding prune_in
prune_in-IsSlot (draining _ _) tick f v = v
prune_in-IsSlot _ tick f v = record {
  stream_valid = v.stream_valid;
  stands =
      Stands-pruned f.slot.key.stream tick f.slot.state f.slot.chain f.slot.restart_at v.stands;
}

pub prune_calls-IsSlot : (tick : ℕ) (f : Focus) → IsSlot f.slot → IsSlot (prune_calls tick f).slot
unfolding prune_calls
prune_calls-IsSlot tick f v = prune_in-IsSlot f.slot.state tick f v
