-- ===== src/Slot/Finish/Ledger.antt =====
-- src/engine.rs: the end of a drain or of a frozen tail, and pruning, keep what a slot knows.
use qubic_random_client.Base.{ℕ, arith, Option, some, none, List, All}
use qubic_random_client.Chain.{Chain}
use qubic_random_client.Slot.{
  Focus, SlotState, waiting, starting, active, restarting, draining, drained,
}
use qubic_random_client.Slot.Shape.{shape_in, All-signed_calls-retain}
use qubic_random_client.Slot.Invariant.{IsSlot}
use qubic_random_client.Slot.Ledger.{Knows, Past, Signs, signed_of}
use qubic_random_client.Slot.Deliver.{complete_drain}
use qubic_random_client.Slot.Finish.{
  finish_drain, finish_status_restart, prune_calls, conclude_drain, drain_finished,
  restart_finished, prune_in, pruned,
}

module _ (t : ℕ) (bytes : List ℕ) where
  pub finish_status_restart-Knows :
      (tick : ℕ) (f : Focus)
      → IsSlot f.slot
      → Knows t bytes f.slot
      → Knows t bytes (finish_status_restart tick f).slot
  unfolding finish_status_restart restart_finished
  finish_status_restart-Knows tick f v k = ground arith

  pub finish_drain-Knows : (f : Focus) → Knows t bytes f.slot → Knows t bytes (finish_drain f).slot
  unfolding finish_drain drain_finished conclude_drain complete_drain
  finish_drain-Knows f k = ground arith

  Past-pruned :
      (tick : ℕ) (state : SlotState) (chain : Option Chain) (restart_at : ℕ)
      → Past state (shape_in chain) restart_at t
      → Past state (shape_in (pruned tick chain)) restart_at t
  Past-pruned tick state none r h = h
  Past-pruned tick (starting _) (some c) r h = h
  Past-pruned tick active (some c) r h = h
  Past-pruned tick (restarting _ _ _ _) (some c) r h = h
  Past-pruned tick (draining _ _) (some c) r h = h
  Past-pruned tick (waiting _ _) (some c) r h = h
  Past-pruned tick (drained _) (some c) r h = h

  Signs-pruned :
      (tick : ℕ) (chain : Option Chain)
      → All (Signs t bytes) (signed_of (shape_in chain))
      → All (Signs t bytes) (signed_of (shape_in (pruned tick chain)))
  Signs-pruned tick none h = h
  Signs-pruned tick (some c) h = All-signed_calls-retain (Signs t bytes) _ c.calls h

  prune_in-Knows :
      (state : SlotState) (tick : ℕ) (f : Focus)
      → Knows t bytes f.slot
      → Knows t bytes (prune_in state tick f).slot
  unfolding prune_in
  prune_in-Knows (draining _ _) tick f k = k
  prune_in-Knows _ tick f k = record {
    past = Past-pruned tick f.slot.state f.slot.chain f.slot.restart_at k.past;
    same = Signs-pruned tick f.slot.chain k.same;
  }

  pub prune_calls-Knows :
      (tick : ℕ) (f : Focus) → Knows t bytes f.slot → Knows t bytes (prune_calls tick f).slot
  unfolding prune_calls
  prune_calls-Knows tick f k = prune_in-Knows f.slot.state tick f k
