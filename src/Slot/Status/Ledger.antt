-- ===== src/Slot/Status/Ledger.antt =====
-- src/engine.rs: an observation of the provider status keeps what a slot knows of a target.
use qubic_random_client.Base.{
  ℕ, ◌≡◌, refl, List, Bool, true, false, arith, Option, some, none, inl, inr, Bool-cases,
  is_some_and, leb, ltb, if◌then◌else◌, Option-cases,
}
use qubic_random_client.Suspicion.{
  StatusEvidence, StatusSuspicion, is_confirmed, absent, foreign, lag,
}
use qubic_random_client.Chain.{Chain}
use qubic_random_client.Slot.{
  Focus, SlotState, waiting, starting, active, restarting, draining, drained, set_state, set_chain,
}
use qubic_random_client.Slot.Shape.{shape_in}
use qubic_random_client.Slot.Invariant.{Stands-activate, IsSlot, IsSlot-same_shape}
use qubic_random_client.Slot.Ledger.{Knows, Past, Knows-same_shape, IsPlanningState}
use qubic_random_client.Slot.Status.{
  StatusObservation, apply_status, apply_observed, apply_confirmation_watermark,
  observe_status_evidence, conclude, begin_status_restart, restart_at_tail, mark_failure,
  financial_failure_target, chain_owns_target, observe_lag, next_suspicion,
}
use qubic_random_client.Slot.Status.Keeps.{advance_watermark-shape, mark_failure-slot}

module _ (t : ℕ) (bytes : List ℕ) where
  Past-frozen :
      (state : SlotState) (chain : Option Chain) (restart_at : ℕ)
      → IsPlanningState state
      → Past state (shape_in chain) restart_at t
      → Past active (shape_in chain) restart_at t
  Past-frozen (starting _) none r p h = h
  Past-frozen (starting _) (some c) r p h = h
  Past-frozen active chain r p h = h
  Past-frozen (waiting _ _) chain r p h = absurd p
  Past-frozen (restarting _ _ _ _) chain r p h = absurd p
  Past-frozen (draining _ _) chain r p h = absurd p
  Past-frozen (drained _) chain r p h = absurd p

  restart_at_tail-Knows :
      (c : Chain) (after : ℕ) (observed : Bool) (f : Focus)
      → f.slot.chain ≡ some c
      → Past active (shape_in f.slot.chain) f.slot.restart_at t
      → IsSlot f.slot
      → Knows t bytes f.slot
      → Knows t bytes (restart_at_tail c after observed f).slot
  unfolding restart_at_tail
  restart_at_tail-Knows c after observed f e l v k = ground arith

  begin_status_restart-Knows :
      (after : ℕ) (observed : Bool) (f : Focus)
      → IsPlanningState f.slot.state
      → IsSlot f.slot
      → Knows t bytes f.slot
      → Knows t bytes (begin_status_restart after observed f).slot
  unfolding begin_status_restart
  begin_status_restart-Knows after observed f p v k = elim (Option-cases f.slot.chain) [
    | inl e ↦ rw (e, begin_status_restart) k
    | inr (c, e) ↦
        rw (e, begin_status_restart)
          (restart_at_tail-Knows c after observed f e
            (Past-frozen f.slot.state f.slot.chain f.slot.restart_at p k.past) v k)
  ]

  conclude-Knows :
      (s : StatusSuspicion) (f : Focus)
      → IsPlanningState f.slot.state
      → IsSlot f.slot
      → Knows t bytes f.slot
      → Knows t bytes (conclude s f).slot
  unfolding conclude
  conclude-Knows s f p v k = elim (Bool-cases (is_confirmed s)) [
    | inl h ↦
        let g = mark_failure (financial_failure_target f.slot.chain s.evidence) f in
        let same = mark_failure-slot (financial_failure_target f.slot.chain s.evidence) f in
        simp h (begin_status_restart-Knows _ _ g (rw same p) (rw same v) (rw same k))
    | inr h ↦ simp h k
  ]

  observe_status_evidence-Knows :
      (evidence : StatusEvidence) (requested : ℕ) (f : Focus)
      → IsPlanningState f.slot.state
      → IsSlot f.slot
      → Knows t bytes f.slot
      → Knows t bytes (observe_status_evidence evidence requested f).slot
  unfolding observe_status_evidence
  observe_status_evidence-Knows evidence requested f p v k = elim (Option-cases f.slot.chain) [
    | inl e ↦ rw (e, observe_status_evidence) k
    | inr (c, e) ↦
        rw (e, observe_status_evidence)
          (elim (Bool-cases
            (is_some_and c.status_suspicion (λ s. leb requested s.last_requested_tick))) [
              | inl h ↦ simp h k
              | inr h ↦
                  let suspicion = next_suspicion c.status_suspicion evidence requested in
                  let noted = some (record c { status_suspicion = some suspicion }) in
                  simp h (
                    conclude-Knows suspicion (set_chain noted f) p
                      (IsSlot-same_shape f.slot noted (ground arith) v)
                      (Knows-same_shape t bytes f.slot noted (ground arith) k))
            ])
  ]

  observe_lag-Knows :
      (missing : Option ℕ) (requested : ℕ) (f : Focus)
      → IsPlanningState f.slot.state
      → IsSlot f.slot
      → Knows t bytes f.slot
      → Knows t bytes (observe_lag missing requested f).slot
  unfolding observe_lag
  observe_lag-Knows none requested f p v k = k
  observe_lag-Knows (some m) requested f p v k =
      observe_status_evidence-Knows (lag m) requested f p v k

  apply_confirmation_watermark-Knows :
      (confirmed requested : ℕ) (f : Focus)
      → IsPlanningState f.slot.state
      → IsSlot f.slot
      → Knows t bytes f.slot
      → Knows t bytes (apply_confirmation_watermark confirmed requested f).slot
  unfolding apply_confirmation_watermark
  apply_confirmation_watermark-Knows confirmed requested f p v k =
      elim (Option-cases f.slot.chain) [
        | inl e ↦ rw (e, apply_confirmation_watermark) k
        | inr (c, e) ↦
            let same = advance_watermark-shape confirmed requested c in
            rw (e, apply_confirmation_watermark)
              (observe_lag-Knows _ requested _ p
                (IsSlot-same_shape f.slot _ (ground (arith, same)) v)
                (Knows-same_shape t bytes f.slot _ (ground (arith, same)) k))
      ]

  apply_foreign-Knows :
      (evidence : StatusEvidence) (late : Bool) (requested : ℕ) (f : Focus)
      → IsPlanningState f.slot.state
      → IsSlot f.slot
      → Knows t bytes f.slot
      → Knows t bytes (if late then observe_status_evidence evidence requested f else f).slot
  apply_foreign-Knows evidence true requested f p v k =
      observe_status_evidence-Knows evidence requested f p v k
  apply_foreign-Knows evidence false requested f p v k = k

  -- The first reward confirms that the chain runs: it still knows the target.
  set_active-Knows :
      (f : Focus)
      → IsPlanningState f.slot.state
      → Knows t bytes f.slot
      → Knows t bytes (set_state active f).slot
  set_active-Knows f p k = record {
    past = Past-frozen f.slot.state f.slot.chain f.slot.restart_at p k.past;
    same = k.same;
  }

  set_active-IsSlot :
      (first : ℕ) (f : Focus)
      → f.slot.state ≡ starting first
      → IsSlot f.slot
      → IsSlot (set_state active f).slot
  set_active-IsSlot first f e v = record {
    stream_valid = v.stream_valid;
    stands =
        Stands-activate f.slot.key.stream first (shape_in f.slot.chain) f.slot.restart_at
          (rw e at v.stands);
  }

  apply_observed-Knows :
      (state : SlotState) (target : Option ℕ) (requested : ℕ) (f : Focus)
      → f.slot.state ≡ state
      → IsSlot f.slot
      → Knows t bytes f.slot
      → Knows t bytes (apply_observed state target requested f).slot
  unfolding apply_observed
  apply_observed-Knows (waiting after seen) none requested f e v k = ground arith
  apply_observed-Knows (waiting after seen) (some a) requested f e v k = ground arith
  apply_observed-Knows (starting first) (some a) requested f e v k =
      elim (Bool-cases (chain_owns_target f.slot.chain a)) [
        | inl h ↦ rw h (
            apply_confirmation_watermark-Knows a requested (set_state active f) tt
              (set_active-IsSlot first f e v) (set_active-Knows f (rw e tt) k))
        | inr h ↦
            rw h (apply_foreign-Knows (foreign a) (ltb first requested) requested f (rw e tt) v k)
      ]
  apply_observed-Knows (starting first) none requested f e v k =
      apply_foreign-Knows absent (ltb first requested) requested f (rw e tt) v k
  apply_observed-Knows active (some a) requested f e v k =
      elim (Bool-cases (chain_owns_target f.slot.chain a)) [
        | inl h ↦ rw h (apply_confirmation_watermark-Knows a requested f (rw e tt) v k)
        | inr h ↦ rw h (observe_status_evidence-Knows (foreign a) requested f (rw e tt) v k)
      ]
  apply_observed-Knows active none requested f e v k =
      observe_status_evidence-Knows absent requested f (rw e tt) v k
  apply_observed-Knows (restarting tail after seen reason) none requested f e v k = ground arith
  apply_observed-Knows (restarting tail after seen reason) (some a) requested f e v k = ground arith
  apply_observed-Knows (draining _ _) target requested f e v k = k
  apply_observed-Knows (drained _) target requested f e v k = k

  pub apply_status-Knows :
      (o : StatusObservation) (f : Focus)
      → IsSlot f.slot
      → Knows t bytes f.slot
      → Knows t bytes (apply_status o f).slot
  unfolding apply_status
  apply_status-Knows o f v k = apply_observed-Knows f.slot.state _ o.requested_tick f refl v k
