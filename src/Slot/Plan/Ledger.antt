-- ===== src/Slot/Plan/Ledger.antt =====
-- src/engine.rs: planning signs calls for later targets only, so a slot still knows the earlier ones.
pub mod Chains
use qubic_random_client.Base.{
  ℕ, zero, suc, ◌+◌, ◌<◌, ◌≤◌, ◌≡◌, ◌∷◌, ◌++◌, [], refl, true, false, List, arith, Option, some,
  none, inl, inr, Bool-cases, Option-cases, checked_add, max, All,
}
use qubic_random_client.Entropy.{External}
use qubic_random_client.Chain.{
  Chain, PlannedCall, next_stream_tick, first_commit, reveal_and_commit, terminal_reveal,
}
use qubic_random_client.Chain.Targets.{next_stream_tick_iff}
use qubic_random_client.Slot.{
  Focus, >>=-keeps, SlotState, ManagedSlot, DrainReason, waiting, starting, active, restarting,
  draining, drained,
}
use qubic_random_client.Slot.Shape.{
  shape_of, shape_in, signed_calls-append, signed_calls, signed_call,
}
use qubic_random_client.Slot.Invariant.{Stands, IsSlot}
use qubic_random_client.Slot.Ledger.{
  Knows, Past, Signs, signed_of, Signs-snoc, Signs_later, lose_chain-Knows, IsPlanningState,
}
use qubic_random_client.Slot.Deliver.{expire_calls}
use qubic_random_client.Slot.Deliver.Keeps.{expire_calls-IsSlot}
use qubic_random_client.Slot.Deliver.Ledger.{expire_calls-Knows}
use qubic_random_client.Slot.Plan.{
  start_if_ready, start_at, install_fresh, may_start, extend_chain, enter_drain, plan_next, plan_in,
  plan_loop, plan_fuel, next_target, install_terminal, schedule_terminal, drain_by_state,
  give_up_missed, is_planning, install_continuation, Signed, signed, refused, planned, fresh_chain,
  continued,
}

module _ (t : ℕ) (bytes : List ℕ) where
  -- A target before the one at which a slot may start.
  Past-start :
      (stream : ℕ) (state : SlotState) (chain : Option Chain) (restart_at target : ℕ)
      → may_start state ≡ true
      → restart_at ≤ target
      → Stands stream state (shape_in chain) restart_at
      → Past state (shape_in chain) restart_at t
      → t < target
  unfolding may_start
  Past-start stream (waiting _ _) none r target m l h p = omega arith
  Past-start stream (waiting _ _) (some c) r target m l h p = absurd h
  Past-start stream (restarting _ _ _ none) (some c) r target m l h p = let e = h.2 in omega arith
  Past-start stream (restarting _ _ _ none) none r target m l h p = absurd h
  Past-start stream (restarting _ _ _ (some _)) chain r target m l h p = cc
  Past-start stream (starting _) chain r target m l h p = cc
  Past-start stream active chain r target m l h p = cc
  Past-start stream (draining _ _) chain r target m l h p = cc
  Past-start stream (drained _) chain r target m l h p = cc

  -- One more call, for a later target.
  fresh_chain-Signs :
      (target : ℕ) (preimage b : List ℕ) (chain : Option Chain)
      → t < target
      → All (Signs t bytes) (signed_of (shape_in chain))
      → All (Signs t bytes) (signed_calls (fresh_chain target preimage b chain).calls)
  fresh_chain-Signs target preimage b none l k =
      (Signs_later t bytes (signed_call (planned target b first_commit)) l, tt)
  fresh_chain-Signs target preimage b (some c) l k =
      rw (signed_calls-append c.calls (planned target b first_commit ∷ [])) (
        Signs-snoc t bytes (signed_calls c.calls) (signed_call (planned target b first_commit)) l k)

  pub more-Signs :
      (c : Chain) (call : PlannedCall)
      → t < call.target_tick
      → All (Signs t bytes) (signed_calls c.calls)
      → All (Signs t bytes) (signed_calls (c.calls ++ (call ∷ [])))
  more-Signs c call l k =
      rw (signed_calls-append c.calls (call ∷ []))
        (Signs-snoc t bytes (signed_calls c.calls) (signed_call call) l k)

  install_fresh-Knows :
      (target : ℕ) (preimage : List ℕ) (new : Signed) (f : Focus)
      → t < target
      → Knows t bytes f.slot
      → Knows t bytes (install_fresh target preimage new f).0.slot
  unfolding install_fresh
  install_fresh-Knows target preimage (refused e) f l k = k
  install_fresh-Knows target preimage (signed b) f l k = record {
    past = omega arith;
    same = fresh_chain-Signs target preimage b f.slot.chain l k.same;
  }

  start_at-Knows :
      (x : External) (target : ℕ) (f : Focus)
      → t < target
      → Knows t bytes f.slot
      → Knows t bytes (start_at x target f).0.slot
  unfolding start_at
  start_at-Knows x target f l k = install_fresh-Knows target _ _ _ l k

  pub start_if_ready-Knows :
      (x : External) (tick : ℕ) (f : Focus)
      → IsSlot f.slot
      → Knows t bytes f.slot
      → Knows t bytes (start_if_ready x tick f).0.slot
  unfolding start_if_ready
  start_if_ready-Knows x tick f v k = elim (Bool-cases (may_start f.slot.state)) [
    | inr m ↦ rw m k
    | inl m ↦ rw m (elim (Option-cases (checked_add tick 6)) [
      | inl e ↦ rw e k
      | inr (lead, e) ↦
          rw e
            (elim (Option-cases (next_stream_tick (max lead f.slot.restart_at) f.slot.key.stream)) [
              | inl e' ↦ rw e' k
              | inr (target, e') ↦
                  let at = (next_stream_tick_iff _ _ target v.stream_valid).0 e' in
                  rw e' (
                    start_at-Knows x target f
                      (Past-start f.slot.key.stream f.slot.state f.slot.chain f.slot.restart_at
                        target m (omega (arith, at.from)) v.stands k.past)
                      k)
            ])
    ])
  ]
