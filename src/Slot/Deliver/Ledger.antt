-- ===== src/Slot/Deliver/Ledger.antt =====
-- src/engine.rs: expiry, dispatch and the harvest of broadcasts keep what a slot knows of a target.
use qubic_random_client.Base.{
  ℕ, ◌≡◌, refl, [], false, arith, inl, inr, Bool-cases, Option-cases, List,
}
use qubic_random_client.Entropy.{External}
use qubic_random_client.Slot.{
  Focus, SlotState, waiting, starting, active, restarting, draining, drained,
}
use qubic_random_client.Slot.Invariant.{IsSlot, IsSlot-same_shape}
use qubic_random_client.Slot.Ledger.{Knows, Knows-same_shape, lose_chain-Knows}
use qubic_random_client.Slot.Deliver.{
  expire_calls, dispatch_calls, harvest_broadcasts, complete_drain, mark_failure, Expiry,
  settle_expiry, after_expiry, finish_dispatch, sweep_of, round_of, no_expiry, is_shutdown_drain,
  expiry_failure,
}
use qubic_random_client.Slot.Deliver.Keeps.{mark_failure-slot}
use qubic_random_client.Slot.Deliver.Signed.{
  expire_list-signed, dispatch_list-signed, harvest_list-signed,
}

module _ (t : ℕ) (bytes : List ℕ) where
  after_expiry-Knows :
      (state : SlotState) (tick : ℕ) (f : Focus)
      → f.slot.state ≡ state
      → IsSlot f.slot
      → Knows t bytes f.slot
      → Knows t bytes (after_expiry state tick f).slot
  unfolding after_expiry complete_drain
  after_expiry-Knows (starting _) tick f e v k = lose_chain-Knows t bytes _ false f (rw e tt) v k
  after_expiry-Knows active tick f e v k = lose_chain-Knows t bytes _ false f (rw e tt) v k
  after_expiry-Knows (draining _ _) tick f e v k = record { past = tt; same = tt }
  after_expiry-Knows (waiting _ _) tick f e v k = k
  after_expiry-Knows (restarting _ _ _ _) tick f e v k = k
  after_expiry-Knows (drained _) tick f e v k = k

  settle_expiry-Knows :
      (tick : ℕ) (e : Expiry) (f : Focus)
      → IsSlot f.slot
      → Knows t bytes f.slot
      → Knows t bytes (settle_expiry tick e f).slot
  unfolding settle_expiry
  settle_expiry-Knows tick e f v k = elim (Bool-cases e.expired) [
    | inl h ↦
        let failure = expiry_failure f.slot.state e in
        let kept = mark_failure-slot failure f in
        simp h (
          after_expiry-Knows f.slot.state tick (mark_failure failure f) (rw kept refl) (rw kept v)
            (rw kept k))
    | inr h ↦ simp h k
  ]

  pub expire_calls-Knows :
      (tick : ℕ) (f : Focus)
      → IsSlot f.slot
      → Knows t bytes f.slot
      → Knows t bytes (expire_calls tick f).slot
  unfolding expire_calls
  expire_calls-Knows tick f v k = elim (Option-cases f.slot.chain) [
    | inl e ↦ rw (e, expire_calls) k
    | inr (c, e) ↦
        let listed = expire_list-signed c.first_target tick c.calls no_expiry in
        rw (e, expire_calls)
          (settle_expiry-Knows tick _ _ (IsSlot-same_shape f.slot _ (ground (arith, listed)) v)
            (Knows-same_shape t bytes f.slot _ (ground (arith, listed)) k))
  ]

  pub dispatch_calls-Knows :
      (x : External) (tick duration : ℕ) (f : Focus)
      → Knows t bytes f.slot
      → Knows t bytes (dispatch_calls x tick duration f).slot
  unfolding dispatch_calls finish_dispatch
  dispatch_calls-Knows x tick duration f k = elim (Option-cases f.slot.chain) [
    | inl e ↦ rw (e, dispatch_calls) k
    | inr (c, e) ↦
        rw (e, dispatch_calls)
          (rw (mark_failure-slot _ _) (
            Knows-same_shape t bytes f.slot _
              (ground (
                arith,
                dispatch_list-signed x (round_of f.slot c tick duration) c.calls (sweep_of f),
              ))
              k))
  ]

  pub harvest_broadcasts-Knows :
      (f : Focus) → Knows t bytes f.slot → Knows t bytes (harvest_broadcasts f).slot
  unfolding harvest_broadcasts
  harvest_broadcasts-Knows f k = elim (Option-cases f.slot.chain) [
    | inl e ↦ rw (e, harvest_broadcasts) k
    | inr (c, e) ↦
        rw (e, harvest_broadcasts)
          (Knows-same_shape t bytes f.slot _
            (ground (
              arith,
              harvest_list-signed (is_shutdown_drain f.slot.state) c.calls
                  (record { accepted_normal = []; failed_terminal = [] }),
            ))
            k)
  ]
