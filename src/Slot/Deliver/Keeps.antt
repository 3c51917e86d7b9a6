-- ===== src/Slot/Deliver/Keeps.antt =====
-- src/engine.rs: expiry, dispatch and the harvest of broadcasts keep a slot well formed.
use qubic_random_client.Base.{
  ℕ, ◌≡◌, refl, [], false, arith, Option, some, none, inl, inr, Bool-cases, Option-cases,
}
use qubic_random_client.Entropy.{External}
use qubic_random_client.Slot.{
  Focus, SlotState, DrainOutcome, waiting, starting, active, restarting, draining, drained,
}
use qubic_random_client.Slot.Invariant.{IsSlot, IsSlot-same_shape, lose_chain-IsSlot}
use qubic_random_client.Slot.Deliver.{
  expire_calls, dispatch_calls, harvest_broadcasts, complete_drain, mark_failure, Expiry,
  settle_expiry, after_expiry, finish_dispatch, sweep_of, round_of, no_expiry, is_shutdown_drain,
  expiry_failure,
}
use qubic_random_client.Slot.Deliver.Signed.{
  expire_list-signed, dispatch_list-signed, harvest_list-signed,
}

complete_drain-IsSlot :
    (outcome : DrainOutcome) (f : Focus) → IsSlot f.slot → IsSlot (complete_drain outcome f).slot
unfolding complete_drain
complete_drain-IsSlot outcome f v = record { stream_valid = v.stream_valid; stands = tt }

pub mark_failure-slot : (t : Option ℕ) (f : Focus) → (mark_failure t f).slot ≡ f.slot
mark_failure-slot none f = refl
mark_failure-slot (some t) f = refl

after_expiry-IsSlot :
    (state : SlotState) (tick : ℕ) (f : Focus)
    → IsSlot f.slot
    → IsSlot (after_expiry state tick f).slot
unfolding after_expiry
after_expiry-IsSlot (starting _) tick f v = lose_chain-IsSlot _ false f v
after_expiry-IsSlot active tick f v = lose_chain-IsSlot _ false f v
after_expiry-IsSlot (draining _ _) tick f v = complete_drain-IsSlot DrainOutcome.failed f v
after_expiry-IsSlot (waiting _ _) tick f v = v
after_expiry-IsSlot (restarting _ _ _ _) tick f v = v
after_expiry-IsSlot (drained _) tick f v = v

settle_expiry-IsSlot :
    (tick : ℕ) (e : Expiry) (f : Focus) → IsSlot f.slot → IsSlot (settle_expiry tick e f).slot
unfolding settle_expiry
settle_expiry-IsSlot tick e f v = elim (Bool-cases e.expired) [
  | inl h ↦
      let failure = expiry_failure f.slot.state e in
      simp h (
        after_expiry-IsSlot f.slot.state tick (mark_failure failure f)
          (rw (mark_failure-slot failure f) v))
  | inr h ↦ simp h v
]

pub expire_calls-IsSlot : (tick : ℕ) (f : Focus) → IsSlot f.slot → IsSlot (expire_calls tick f).slot
unfolding expire_calls
expire_calls-IsSlot tick f v = elim (Option-cases f.slot.chain) [
  | inl e ↦ rw (e, expire_calls) v
  | inr (c, e) ↦
      rw (e, expire_calls)
        (settle_expiry-IsSlot tick _ _ (
          IsSlot-same_shape f.slot _
            (ground (arith, expire_list-signed c.first_target tick c.calls no_expiry)) v))
]

pub dispatch_calls-IsSlot :
    (x : External) (tick duration : ℕ) (f : Focus)
    → IsSlot f.slot
    → IsSlot (dispatch_calls x tick duration f).slot
unfolding dispatch_calls finish_dispatch
dispatch_calls-IsSlot x tick duration f v = elim (Option-cases f.slot.chain) [
  | inl e ↦ rw (e, dispatch_calls) v
  | inr (c, e) ↦
      rw (e, dispatch_calls)
        (rw (mark_failure-slot _ _) (
          IsSlot-same_shape f.slot _
            (ground (
              arith,
              dispatch_list-signed x (round_of f.slot c tick duration) c.calls (sweep_of f),
            ))
            v))
]

pub harvest_broadcasts-IsSlot : (f : Focus) → IsSlot f.slot → IsSlot (harvest_broadcasts f).slot
unfolding harvest_broadcasts
harvest_broadcasts-IsSlot f v = elim (Option-cases f.slot.chain) [
  | inl e ↦ rw (e, harvest_broadcasts) v
  | inr (c, e) ↦
      rw (e, harvest_broadcasts)
        (IsSlot-same_shape f.slot _
          (ground (
            arith,
            harvest_list-signed (is_shutdown_drain f.slot.state) c.calls
                (record { accepted_normal = []; failed_terminal = [] }),
          ))
          v)
]
