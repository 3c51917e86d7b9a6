-- ===== src/Slot/Invariant.antt =====
-- src/engine.rs: when the state, the chain and the restart tick of a slot belong together.
use qubic_random_client.Base.{ℕ, ◌+◌, ◌≤◌, ◌<◌, ◌≡◌, Bool, Option, none, some, arith, u32_max}
use qubic_random_client.Chain.{Chain}
use qubic_random_client.Slot.{
  SlotState, ManagedSlot, Focus, waiting, starting, active, restarting, draining, drained,
  lose_chain,
}
use qubic_random_client.Slot.Shape.{Shape, IsChain, shape_in}

-- A slot that waits or is drained holds no chain; any other holds a well-formed one. A frozen tail
-- is the chain's last target, and the restart comes a round later, as the terminal reveal does.
abbrev pub Stands : ℕ → SlotState → Option Shape → ℕ → Type 0
Stands stream (waiting _ _) none restart_at = restart_at ≤ u32_max
Stands stream (drained _) none restart_at = Unit
Stands stream (starting first) (some s) restart_at =
    IsChain stream s.last_target s × (first ≡ s.first_target)
Stands stream active (some s) restart_at = IsChain stream s.last_target s
Stands stream (restarting tail _ _ _) (some s) restart_at =
    IsChain stream s.last_target s
    × (tail ≡ s.last_target)
    × (restart_at ≡ s.last_target + 3)
    × (restart_at ≤ u32_max)
Stands stream (draining _ terminal) (some s) restart_at =
    IsChain stream (s.last_target + 3) s × (terminal ≡ s.last_target + 3)
Stands stream _ _ restart_at = ⊥

pub record IsSlot (s : ManagedSlot) : Type 0 where
  pub stream_valid : s.key.stream < 3
  pub stands : Stands s.key.stream s.state (shape_in s.chain) s.restart_at

pub lose_chain-IsSlot :
    (after : ℕ) (observed : Bool) (f : Focus)
    → IsSlot f.slot
    → IsSlot (lose_chain after observed f).slot
unfolding lose_chain
lose_chain-IsSlot after observed f v = ground arith

-- A change of the chain that keeps its shape keeps the slot well formed.
pub IsSlot-same_shape :
    (s : ManagedSlot) (chain : Option Chain)
    → shape_in chain ≡ shape_in s.chain
    → IsSlot s
    → IsSlot (record s { chain = chain })
IsSlot-same_shape s chain e v = record { stream_valid = v.stream_valid; stands = rw e v.stands }

pub Stands-activate :
    (stream first : ℕ) (c : Option Shape) (r : ℕ)
    → Stands stream (starting first) c r
    → Stands stream active c r
Stands-activate stream first none r h = h
Stands-activate stream first (some c) r h = h.0
