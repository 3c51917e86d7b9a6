-- ===== src/Slot/Plan/Keeps.antt =====
-- src/engine.rs: `extend_chain` and `enter_drain` keep a slot well formed.
use qubic_random_client.Base.{
  ℕ, zero, suc, ◌+◌, ◌≤◌, ◌≡◌, refl, true, false, List, arith, Option, some, none, inl, inr,
  Bool-cases, Option-cases, u32_max, checked_add,
}
use qubic_random_client.Entropy.{External}
use qubic_random_client.Chain.{Chain}
use qubic_random_client.Slot.{
  Focus, >>=-keeps, SlotState, ManagedSlot, DrainReason, waiting, starting, active, restarting,
  draining, drained,
}
use qubic_random_client.Slot.Shape.{shape_of, shape_in, IsChain}
use qubic_random_client.Slot.Invariant.{Stands, Stands-activate, IsSlot, lose_chain-IsSlot}
use qubic_random_client.Slot.Deliver.{expire_calls}
use qubic_random_client.Slot.Deliver.Keeps.{expire_calls-IsSlot}
use qubic_random_client.Slot.Plan.{
  extend_chain, enter_drain, plan_next, plan_in, plan_loop, plan_fuel, next_target, continued,
  install_terminal, schedule_terminal, drain_by_state, give_up_missed, is_planning,
  install_continuation, Signed, signed, refused,
}
use qubic_random_client.Slot.Plan.Chains.{IsChain-continued, IsChain-with_terminal}

Stands-continued :
    (stream : ℕ) (state : SlotState) (c : Chain) (r target : ℕ) (preimage bytes : List ℕ)
    → is_planning state ≡ true
    → target ≡ c.last_target + 3
    → target ≤ u32_max
    → Stands stream state (some (shape_of c)) r
    → Stands stream state (some (shape_of (continued target preimage bytes c))) r
unfolding is_planning
Stands-continued stream (starting first) c r target preimage bytes p e b h =
    (IsChain-continued stream target preimage bytes c e b h.0, h.1)
Stands-continued stream active c r target preimage bytes p e b h =
    IsChain-continued stream target preimage bytes c e b h
Stands-continued stream (waiting _ _) c r target preimage bytes p e b h = cc
Stands-continued stream (restarting _ _ _ _) c r target preimage bytes p e b h = cc
Stands-continued stream (draining _ _) c r target preimage bytes p e b h = cc
Stands-continued stream (drained _) c r target preimage bytes p e b h = cc

-- A slot that plans calls, well formed.
abbrev IsPlanning : ManagedSlot → Type 0
IsPlanning s = IsSlot s × (is_planning s.state ≡ true)

install_continuation-IsPlanning :
    (target : ℕ) (preimage : List ℕ) (c : Chain) (bytes : Signed) (f : Focus)
    → f.slot.chain ≡ some c
    → target ≡ c.last_target + 3
    → target ≤ u32_max
    → IsPlanning f.slot
    → IsPlanning (install_continuation target preimage c bytes f).0.slot
install_continuation-IsPlanning target preimage c (refused _) f e t b v = v
install_continuation-IsPlanning target preimage c (signed bytes) f e t b (v, p) = (
  record {
    stream_valid = v.stream_valid;
    stands =
        Stands-continued f.slot.key.stream f.slot.state c f.slot.restart_at target preimage bytes p
          t b (rw e at v.stands);
  },
  p,
)

next_target-some :
    (bound : ℕ) (c : Chain) (target : ℕ)
    → next_target bound (some c) ≡ some target
    → (target ≡ c.last_target + 3) × (target ≤ u32_max) × (target ≤ bound)
next_target-some bound c target e = ground arith

plan_in-IsPlanning :
    (x : External) (horizon target : ℕ) (chain : Option Chain) (f : Focus)
    → f.slot.chain ≡ chain
    → next_target horizon chain ≡ some target
    → IsPlanning f.slot
    → IsPlanning (plan_in x target chain f).0.slot
unfolding plan_in plan_next
plan_in-IsPlanning x horizon target none f e n v = v
plan_in-IsPlanning x horizon target (some c) f e n v =
    let (t, b, _) = next_target-some horizon c target n in
    install_continuation-IsPlanning target _ c _ _ e t b v

plan_loop-IsPlanning :
    (x : External) (fuel horizon : ℕ) (f : Focus)
    → IsPlanning f.slot
    → IsPlanning (plan_loop x fuel horizon f).0.slot
unfolding plan_loop
plan_loop-IsPlanning x zero horizon f v = v
plan_loop-IsPlanning x (suc fuel) horizon f v =
    let step = plan_loop-IsPlanning x fuel horizon in
    elim (Option-cases (next_target horizon f.slot.chain)) [
      | inl e ↦ rw (e, plan_loop) v
      | inr (target, e) ↦
          rw (e, plan_loop)
            (>>=-keeps (λ (g : Focus). IsPlanning g.slot) (plan_in x target f.slot.chain f)
              (plan_loop x fuel horizon)
              (plan_in-IsPlanning x horizon target f.slot.chain f refl e v) step)
    ]

give_up_missed-IsSlot :
    (missed tick : ℕ) (f : Focus) → IsSlot f.slot → IsSlot (give_up_missed missed tick f).slot
unfolding give_up_missed
give_up_missed-IsSlot missed tick f v =
    let w = expire_calls-IsSlot tick f v in
    elim (Bool-cases (is_planning (expire_calls tick f).slot.state)) [
      | inl p ↦ rw p (lose_chain-IsSlot _ false _ w)
      | inr p ↦ rw p w
    ]

pub extend_chain-IsSlot :
    (x : External) (tick : ℕ) (f : Focus) → IsSlot f.slot → IsSlot (extend_chain x tick f).0.slot
unfolding extend_chain
extend_chain-IsSlot x tick f v = elim (Bool-cases (is_planning f.slot.state)) [
  | inr p ↦ rw p v
  | inl p ↦ rw p (elim (Option-cases (next_target tick f.slot.chain)) [
    | inr (missed, e) ↦ rw e (give_up_missed-IsSlot missed tick f v)
    | inl e ↦ rw e (elim (Option-cases (checked_add tick 6)) [
      | inl o ↦ rw o v
      | inr (horizon, o) ↦ rw o (plan_loop-IsPlanning x plan_fuel horizon f (v, p)).0
    ])
  ])
]

install_terminal-IsSlot :
    (reason : DrainReason) (target : ℕ) (c : Chain) (bytes : Signed) (f : Focus)
    → target ≡ c.last_target + 3
    → target ≤ u32_max
    → IsChain f.slot.key.stream c.last_target (shape_of c)
    → IsSlot f.slot
    → IsSlot (install_terminal reason target c bytes f).0.slot
unfolding install_terminal
install_terminal-IsSlot reason target c (refused _) f e b h v = v
install_terminal-IsSlot reason target c (signed bytes) f e b h v = record {
  stream_valid = v.stream_valid;
  stands = (IsChain-with_terminal f.slot.key.stream target bytes c e b h, e);
}

schedule_terminal-IsSlot :
    (x : External) (reason : DrainReason) (chain : Option Chain) (f : Focus)
    → Stands f.slot.key.stream active (shape_in chain) f.slot.restart_at
    → IsSlot f.slot
    → IsSlot (schedule_terminal x reason chain f).0.slot
unfolding schedule_terminal
schedule_terminal-IsSlot x reason none f h v = v
schedule_terminal-IsSlot x reason (some c) f h v =
    elim (Option-cases (checked_add c.last_target 3)) [
      | inl e ↦ rw (e, schedule_terminal) v
      | inr (target, e) ↦
          rw (e, schedule_terminal)
            (install_terminal-IsSlot reason target c _ f (ground arith) (ground arith) h v)
    ]

drain_by_state-IsSlot :
    (x : External) (state : SlotState) (reason : DrainReason) (f : Focus)
    → f.slot.state ≡ state
    → IsSlot f.slot
    → IsSlot (drain_by_state x state reason f).0.slot
unfolding drain_by_state
drain_by_state-IsSlot x (draining _ _) reason f e v = v
drain_by_state-IsSlot x (drained _) reason f e v = v
drain_by_state-IsSlot x (waiting _ _) reason f e v = ground arith
drain_by_state-IsSlot x (restarting _ _ _ _) reason f e v = ground arith
drain_by_state-IsSlot x (starting first) reason f e v =
    schedule_terminal-IsSlot x reason f.slot.chain f
      (Stands-activate f.slot.key.stream first (shape_in f.slot.chain) f.slot.restart_at
        (rw e at v.stands))
      v
drain_by_state-IsSlot x active reason f e v =
    schedule_terminal-IsSlot x reason f.slot.chain f (rw e at v.stands) v

pub enter_drain-IsSlot :
    (x : External) (reason : DrainReason) (f : Focus)
    → IsSlot f.slot
    → IsSlot (enter_drain x reason f).0.slot
unfolding enter_drain
enter_drain-IsSlot x reason f v = drain_by_state-IsSlot x f.slot.state reason f refl v
