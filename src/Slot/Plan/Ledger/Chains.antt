-- ===== src/Slot/Plan/Ledger/Chains.antt =====
-- src/engine.rs: `extend_chain` and `enter_drain` sign calls for later targets only.
use qubic_random_client.Base.{
  ℕ, zero, suc, ◌+◌, ◌<◌, ◌≤◌, ◌≡◌, refl, true, false, List, arith, Option, some, none, inl, inr,
  Bool-cases, Option-cases, checked_add,
}
use qubic_random_client.Entropy.{External}
use qubic_random_client.Chain.{Chain, reveal_and_commit, terminal_reveal}
use qubic_random_client.Slot.{
  Focus, >>=-keeps, SlotState, ManagedSlot, DrainReason, waiting, starting, active, restarting,
  draining, drained,
}
use qubic_random_client.Slot.Shape.{shape_of}
use qubic_random_client.Slot.Invariant.{IsSlot}
use qubic_random_client.Slot.Ledger.{Knows, Past, lose_chain-Knows, IsPlanningState}
use qubic_random_client.Slot.Deliver.{expire_calls}
use qubic_random_client.Slot.Deliver.Keeps.{expire_calls-IsSlot}
use qubic_random_client.Slot.Deliver.Ledger.{expire_calls-Knows}
use qubic_random_client.Slot.Plan.{
  extend_chain, enter_drain, plan_next, plan_in, plan_loop, plan_fuel, next_target,
  install_terminal, schedule_terminal, drain_by_state, give_up_missed, is_planning,
  install_continuation, Signed, signed, refused, planned, continued,
}
use qubic_random_client.Slot.Plan.Ledger.{more-Signs}

module _ (t : ℕ) (bytes : List ℕ) where
  -- A slot that plans calls knows the targets up to its chain's last one.
  Past-planning :
      (state : SlotState) (c : Chain) (restart_at : ℕ)
      → is_planning state ≡ true
      → Past state (some (shape_of c)) restart_at t
      → t ≤ c.last_target
  unfolding is_planning
  Past-planning (starting _) c r p h = h
  Past-planning active c r p h = h
  Past-planning (waiting _ _) c r p h = cc
  Past-planning (restarting _ _ _ _) c r p h = cc
  Past-planning (draining _ _) c r p h = cc
  Past-planning (drained _) c r p h = cc

  Past-grow :
      (state : SlotState) (chain chain' : Chain) (restart_at : ℕ)
      → is_planning state ≡ true
      → t ≤ chain'.last_target
      → Past state (some (shape_of chain')) restart_at t
  unfolding is_planning
  Past-grow (starting _) c c' r p h = h
  Past-grow active c c' r p h = h
  Past-grow (waiting _ _) c c' r p h = cc
  Past-grow (restarting _ _ _ _) c c' r p h = cc
  Past-grow (draining _ _) c c' r p h = cc
  Past-grow (drained _) c c' r p h = cc

  -- A slot that plans calls and knows the target.
  abbrev Plans : ManagedSlot → Type 0
  Plans s = Knows t bytes s × (is_planning s.state ≡ true)

  install_continuation-Plans :
      (target : ℕ) (preimage : List ℕ) (c : Chain) (new : Signed) (f : Focus)
      → f.slot.chain ≡ some c
      → target ≡ c.last_target + 3
      → Plans f.slot
      → Plans (install_continuation target preimage c new f).0.slot
  install_continuation-Plans target preimage c (refused _) f e n k = k
  install_continuation-Plans target preimage c (signed b) f e n (k, p) =
      let old = Past-planning f.slot.state c f.slot.restart_at p (rw e at k.past) in
      (
        record {
          past =
              Past-grow f.slot.state c (continued target preimage b c) f.slot.restart_at p
                (omega arith);
          same =
              more-Signs t bytes c (planned target b reveal_and_commit) (omega arith)
                (rw e at k.same);
        },
        p,
      )

  plan_in-Plans :
      (x : External) (horizon target : ℕ) (chain : Option Chain) (f : Focus)
      → f.slot.chain ≡ chain
      → next_target horizon chain ≡ some target
      → Plans f.slot
      → Plans (plan_in x target chain f).0.slot
  unfolding plan_in plan_next
  plan_in-Plans x horizon target none f e n k = k
  plan_in-Plans x horizon target (some c) f e n k =
      let next : target ≡ c.last_target + 3 = ground arith in
      install_continuation-Plans target _ c _ _ e next k

  plan_loop-Plans :
      (x : External) (fuel horizon : ℕ) (f : Focus)
      → Plans f.slot
      → Plans (plan_loop x fuel horizon f).0.slot
  unfolding plan_loop
  plan_loop-Plans x zero horizon f k = k
  plan_loop-Plans x (suc fuel) horizon f k =
      let step = plan_loop-Plans x fuel horizon in
      elim (Option-cases (next_target horizon f.slot.chain)) [
        | inl e ↦ rw (e, plan_loop) k
        | inr (target, e) ↦
            rw (e, plan_loop)
              (>>=-keeps (λ (g : Focus). Plans g.slot) (plan_in x target f.slot.chain f)
                (plan_loop x fuel horizon) (plan_in-Plans x horizon target f.slot.chain f refl e k)
                step)
      ]

  IsPlanningState-is_planning : (s : SlotState) → is_planning s ≡ true → IsPlanningState s
  unfolding is_planning
  IsPlanningState-is_planning (starting _) p = tt
  IsPlanningState-is_planning active p = tt
  IsPlanningState-is_planning (waiting _ _) p = cc
  IsPlanningState-is_planning (restarting _ _ _ _) p = cc
  IsPlanningState-is_planning (draining _ _) p = cc
  IsPlanningState-is_planning (drained _) p = cc

  give_up_missed-Knows :
      (missed tick : ℕ) (f : Focus)
      → IsSlot f.slot
      → Knows t bytes f.slot
      → Knows t bytes (give_up_missed missed tick f).slot
  unfolding give_up_missed
  give_up_missed-Knows missed tick f v k =
      let w = expire_calls-IsSlot tick f v in
      let l = expire_calls-Knows t bytes tick f v k in
      elim (Bool-cases (is_planning (expire_calls tick f).slot.state)) [
        | inl p ↦ rw p (lose_chain-Knows t bytes _ false _ (IsPlanningState-is_planning _ p) w l)
        | inr p ↦ rw p l
      ]

  pub extend_chain-Knows :
      (x : External) (tick : ℕ) (f : Focus)
      → IsSlot f.slot
      → Knows t bytes f.slot
      → Knows t bytes (extend_chain x tick f).0.slot
  unfolding extend_chain
  extend_chain-Knows x tick f v k = elim (Bool-cases (is_planning f.slot.state)) [
    | inr p ↦ rw p k
    | inl p ↦ rw p (elim (Option-cases (next_target tick f.slot.chain)) [
      | inr (missed, e) ↦ rw e (give_up_missed-Knows missed tick f v k)
      | inl e ↦ rw e (elim (Option-cases (checked_add tick 6)) [
        | inl o ↦ rw o k
        | inr (horizon, o) ↦ rw o (plan_loop-Plans x plan_fuel horizon f (k, p)).0
      ])
    ])
  ]

  install_terminal-Knows :
      (reason : DrainReason) (target : ℕ) (c : Chain) (new : Signed) (f : Focus)
      → t < target
      → f.slot.chain ≡ some c
      → Knows t bytes f.slot
      → Knows t bytes (install_terminal reason target c new f).0.slot
  unfolding install_terminal
  install_terminal-Knows reason target c (refused _) f l e k = k
  install_terminal-Knows reason target c (signed b) f l e k = record {
    past = tt;
    same = more-Signs t bytes c (planned target b terminal_reveal) l (rw e at k.same);
  }

  schedule_terminal-Knows :
      (x : External) (reason : DrainReason) (chain : Option Chain) (f : Focus)
      → f.slot.chain ≡ chain
      → is_planning f.slot.state ≡ true
      → Knows t bytes f.slot
      → Knows t bytes (schedule_terminal x reason chain f).0.slot
  unfolding schedule_terminal
  schedule_terminal-Knows x reason none f e p k = k
  schedule_terminal-Knows x reason (some c) f e p k =
      elim (Option-cases (checked_add c.last_target 3)) [
        | inl o ↦ rw (o, schedule_terminal) k
        | inr (target, o) ↦
            let old = Past-planning f.slot.state c f.slot.restart_at p (rw e at k.past) in
            let next : target ≡ c.last_target + 3 = ground arith in
            rw (o, schedule_terminal) (install_terminal-Knows reason target c _ f (omega arith) e k)
      ]

  drain_by_state-Knows :
      (x : External) (state : SlotState) (reason : DrainReason) (f : Focus)
      → f.slot.state ≡ state
      → Knows t bytes f.slot
      → Knows t bytes (drain_by_state x state reason f).0.slot
  unfolding drain_by_state is_planning
  drain_by_state-Knows x (draining _ _) reason f e k = k
  drain_by_state-Knows x (drained _) reason f e k = k
  drain_by_state-Knows x (waiting _ _) reason f e k = ground arith
  drain_by_state-Knows x (restarting _ _ _ _) reason f e k = ground arith
  drain_by_state-Knows x (starting _) reason f e k =
      schedule_terminal-Knows x reason f.slot.chain f refl (rw e refl) k
  drain_by_state-Knows x active reason f e k =
      schedule_terminal-Knows x reason f.slot.chain f refl (rw e refl) k

  pub enter_drain-Knows :
      (x : External) (reason : DrainReason) (f : Focus)
      → Knows t bytes f.slot
      → Knows t bytes (enter_drain x reason f).0.slot
  unfolding enter_drain
  enter_drain-Knows x reason f k = drain_by_state-Knows x f.slot.state reason f refl k
