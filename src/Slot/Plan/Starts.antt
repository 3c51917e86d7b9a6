-- ===== src/Slot/Plan/Starts.antt =====
-- src/engine.rs: `start_if_ready` keeps a slot well formed.
use qubic_random_client.Base.{
  ℕ, ◌%◌, ◌≤◌, ◌≡◌, refl, true, List, arith, Option, some, none, inl, inr, Bool-cases, Option-cases,
  u32_max, checked_add, max,
}
use qubic_random_client.Entropy.{External}
use qubic_random_client.Chain.{Chain, next_stream_tick}
use qubic_random_client.Chain.Targets.{next_stream_tick_iff}
use qubic_random_client.Slot.{
  Focus, SlotState, waiting, starting, active, restarting, draining, drained,
}
use qubic_random_client.Slot.Shape.{shape_in}
use qubic_random_client.Slot.Invariant.{Stands, IsSlot}
use qubic_random_client.Slot.Plan.{
  start_if_ready, start_at, install_fresh, may_start, Signed, signed, refused,
}
use qubic_random_client.Slot.Plan.Chains.{IsBehind, IsChain-fresh_behind}

install_fresh-IsSlot :
    (target : ℕ) (preimage : List ℕ) (bytes : Signed) (f : Focus)
    → target % 3 ≡ f.slot.key.stream
    → target ≤ u32_max
    → IsBehind f.slot.key.stream target f.slot.chain
    → IsSlot f.slot
    → IsSlot (install_fresh target preimage bytes f).0.slot
unfolding install_fresh
install_fresh-IsSlot target preimage (refused e) f t b h v = v
install_fresh-IsSlot target preimage (signed bytes) f t b h v = record {
  stream_valid = v.stream_valid;
  stands = (IsChain-fresh_behind f.slot.key.stream target preimage bytes f.slot.chain h t b, refl);
}

-- The slot's chain lies behind any target that the restart tick allows.
Stands-IsBehind :
    (stream : ℕ) (state : SlotState) (chain : Option Chain) (restart_at target : ℕ)
    → may_start state ≡ true
    → restart_at ≤ target
    → Stands stream state (shape_in chain) restart_at
    → IsBehind stream target chain
unfolding may_start
Stands-IsBehind stream state none r target m l h = tt
Stands-IsBehind stream (restarting _ _ _ none) (some c) r target m l h =
    (h.0, let e = h.2 in omega arith)
Stands-IsBehind stream (restarting _ _ _ (some _)) (some c) r target m l h = cc
Stands-IsBehind stream (waiting _ _) (some c) r target m l h = absurd h
Stands-IsBehind stream (starting _) (some c) r target m l h = cc
Stands-IsBehind stream active (some c) r target m l h = cc
Stands-IsBehind stream (draining _ _) (some c) r target m l h = cc
Stands-IsBehind stream (drained _) (some c) r target m l h = absurd h

start_at-IsSlot :
    (x : External) (target : ℕ) (f : Focus)
    → target % 3 ≡ f.slot.key.stream
    → target ≤ u32_max
    → IsBehind f.slot.key.stream target f.slot.chain
    → IsSlot f.slot
    → IsSlot (start_at x target f).0.slot
unfolding start_at
start_at-IsSlot x target f t b h v = install_fresh-IsSlot target _ _ _ t b h v

pub start_if_ready-IsSlot :
    (x : External) (tick : ℕ) (f : Focus) → IsSlot f.slot → IsSlot (start_if_ready x tick f).0.slot
unfolding start_if_ready
start_if_ready-IsSlot x tick f v = elim (Bool-cases (may_start f.slot.state)) [
  | inr m ↦ rw m v
  | inl m ↦ rw m (elim (Option-cases (checked_add tick 6)) [
    | inl e ↦ rw e v
    | inr (lead, e) ↦
        rw e
          (elim (Option-cases (next_stream_tick (max lead f.slot.restart_at) f.slot.key.stream)) [
            | inl e' ↦ rw e' v
            | inr (target, e') ↦
                let at = (next_stream_tick_iff _ _ target v.stream_valid).0 e' in
                rw e' (
                  start_at-IsSlot x target f at.on_stream at.in_u32
                    (Stands-IsBehind f.slot.key.stream f.slot.state f.slot.chain f.slot.restart_at
                      target m (omega (arith, at.from)) v.stands)
                    v)
          ])
  ])
]
