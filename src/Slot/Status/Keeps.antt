-- ===== src/Slot/Status/Keeps.antt =====
-- src/engine.rs: an observation of the provider status keeps a slot well formed.
use qubic_random_client.Base.{
  ℕ, ◌≡◌, ◌<◌, refl, Bool, true, false, arith, Option, some, none, inl, inr, Bool-cases,
  is_some_and, leb, ltb, if◌then◌else◌, Option-cases,
}
use qubic_random_client.Suspicion.{
  StatusEvidence, StatusSuspicion, is_confirmed, absent, foreign, lag,
}
use qubic_random_client.Chain.{Chain}
use qubic_random_client.Slot.{
  Focus, SlotState, waiting, starting, active, restarting, draining, drained, set_state, set_chain,
}
use qubic_random_client.Slot.Shape.{Shape, shape_of, shape_in, IsChain}
use qubic_random_client.Slot.Ledger.{IsPlanningState}
use qubic_random_client.Slot.Invariant.{Stands, Stands-activate, IsSlot, IsSlot-same_shape}
use qubic_random_client.Slot.Status.{
  StatusObservation, apply_status, apply_observed, apply_confirmation_watermark, advance_watermark,
  observe_status_evidence, conclude, begin_status_restart, restart_at_tail, mark_failure,
  financial_failure_target, chain_owns_target, observe_lag, next_suspicion,
}

pub mark_failure-slot : (t : Option ℕ) (f : Focus) → (mark_failure t f).slot ≡ f.slot
mark_failure-slot none f = refl
mark_failure-slot (some t) f = refl

Stands-IsChain :
    (stream : ℕ) (state : SlotState) (c : Shape) (r : ℕ)
    → IsPlanningState state
    → Stands stream state (some c) r
    → IsChain stream c.last_target c
Stands-IsChain stream (starting _) c r p h = h.0
Stands-IsChain stream active c r p h = h
Stands-IsChain stream (waiting _ _) c r p h = absurd p
Stands-IsChain stream (restarting _ _ _ _) c r p h = absurd p
Stands-IsChain stream (draining _ _) c r p h = absurd p
Stands-IsChain stream (drained _) c r p h = absurd p

restart_at_tail-IsSlot :
    (c : Chain) (after : ℕ) (observed : Bool) (f : Focus)
    → f.slot.chain ≡ some c
    → f.slot.key.stream < 3
    → IsChain f.slot.key.stream c.last_target (shape_of c)
    → IsSlot (restart_at_tail c after observed f).slot
unfolding restart_at_tail
restart_at_tail-IsSlot c after observed f e l v = ground arith

begin_status_restart-IsSlot :
    (after : ℕ) (observed : Bool) (f : Focus)
    → IsPlanningState f.slot.state
    → IsSlot f.slot
    → IsSlot (begin_status_restart after observed f).slot
unfolding begin_status_restart
begin_status_restart-IsSlot after observed f p v = elim (Option-cases f.slot.chain) [
  | inl e ↦ rw (e, begin_status_restart) v
  | inr (c, e) ↦
      rw (e, begin_status_restart)
        (restart_at_tail-IsSlot c after observed f e v.stream_valid
          (Stands-IsChain _ f.slot.state (shape_of c) f.slot.restart_at p (rw e at v.stands)))
]

conclude-IsSlot :
    (s : StatusSuspicion) (f : Focus)
    → IsPlanningState f.slot.state
    → IsSlot f.slot
    → IsSlot (conclude s f).slot
unfolding conclude
conclude-IsSlot s f p v = elim (Bool-cases (is_confirmed s)) [
  | inl h ↦
      let g = mark_failure (financial_failure_target f.slot.chain s.evidence) f in
      let same = mark_failure-slot (financial_failure_target f.slot.chain s.evidence) f in
      simp h (begin_status_restart-IsSlot _ _ g (rw same p) (rw same v))
  | inr h ↦ simp h v
]

observe_status_evidence-IsSlot :
    (evidence : StatusEvidence) (requested : ℕ) (f : Focus)
    → IsPlanningState f.slot.state
    → IsSlot f.slot
    → IsSlot (observe_status_evidence evidence requested f).slot
unfolding observe_status_evidence
observe_status_evidence-IsSlot evidence requested f p v = elim (Option-cases f.slot.chain) [
  | inl e ↦ rw (e, observe_status_evidence) v
  | inr (c, e) ↦
      rw (e, observe_status_evidence)
        (elim (Bool-cases
          (is_some_and c.status_suspicion (λ s. leb requested s.last_requested_tick))) [
            | inl h ↦ simp h v
            | inr h ↦
                let suspicion = next_suspicion c.status_suspicion evidence requested in
                let noted = some (record c { status_suspicion = some suspicion }) in
                simp h (
                  conclude-IsSlot suspicion (set_chain noted f) p
                    (IsSlot-same_shape f.slot noted (ground arith) v))
          ])
]

pub advance_watermark-shape :
    (confirmed requested : ℕ) (c : Chain)
    → shape_of (advance_watermark confirmed requested c).0 ≡ shape_of c
unfolding advance_watermark
advance_watermark-shape confirmed requested c = ground arith

observe_lag-IsSlot :
    (missing : Option ℕ) (requested : ℕ) (f : Focus)
    → IsPlanningState f.slot.state
    → IsSlot f.slot
    → IsSlot (observe_lag missing requested f).slot
unfolding observe_lag
observe_lag-IsSlot none requested f p v = v
observe_lag-IsSlot (some t) requested f p v = observe_status_evidence-IsSlot (lag t) requested f p v

apply_confirmation_watermark-IsSlot :
    (confirmed requested : ℕ) (f : Focus)
    → IsPlanningState f.slot.state
    → IsSlot f.slot
    → IsSlot (apply_confirmation_watermark confirmed requested f).slot
unfolding apply_confirmation_watermark
apply_confirmation_watermark-IsSlot confirmed requested f p v = elim (Option-cases f.slot.chain) [
  | inl e ↦ rw (e, apply_confirmation_watermark) v
  | inr (c, e) ↦
      rw (e, apply_confirmation_watermark)
        (observe_lag-IsSlot _ requested _ p (
          IsSlot-same_shape f.slot _ (ground (arith, advance_watermark-shape confirmed requested c))
            v))
]

apply_foreign-IsSlot :
    (state : SlotState) (evidence : StatusEvidence) (late : Bool) (requested : ℕ) (f : Focus)
    → f.slot.state ≡ state
    → IsPlanningState state
    → IsSlot f.slot
    → IsSlot (if late then observe_status_evidence evidence requested f else f).slot
apply_foreign-IsSlot state evidence true requested f e p v =
    observe_status_evidence-IsSlot evidence requested f (rw e p) v
apply_foreign-IsSlot state evidence false requested f e p v = v

apply_observed-IsSlot :
    (state : SlotState) (target : Option ℕ) (requested : ℕ) (f : Focus)
    → f.slot.state ≡ state
    → IsSlot f.slot
    → IsSlot (apply_observed state target requested f).slot
unfolding apply_observed
apply_observed-IsSlot (waiting after seen) none requested f e v = ground arith
apply_observed-IsSlot (waiting after seen) (some t) requested f e v = ground arith
apply_observed-IsSlot (starting first) (some t) requested f e v =
    elim (Bool-cases (chain_owns_target f.slot.chain t)) [
      | inl h ↦ rw h (
          apply_confirmation_watermark-IsSlot t requested (set_state active f) tt (record {
            stream_valid = v.stream_valid;
            stands =
                Stands-activate f.slot.key.stream first (shape_in f.slot.chain) f.slot.restart_at
                  (rw e at v.stands);
          }))
      | inr h ↦ rw h (
          apply_foreign-IsSlot (starting first) (foreign t) (ltb first requested) requested f e tt
            v)
    ]
apply_observed-IsSlot (starting first) none requested f e v =
    apply_foreign-IsSlot (starting first) absent (ltb first requested) requested f e tt v
apply_observed-IsSlot active (some t) requested f e v =
    elim (Bool-cases (chain_owns_target f.slot.chain t)) [
      | inl h ↦ rw h (apply_confirmation_watermark-IsSlot t requested f (rw e tt) v)
      | inr h ↦ rw h (observe_status_evidence-IsSlot (foreign t) requested f (rw e tt) v)
    ]
apply_observed-IsSlot active none requested f e v =
    observe_status_evidence-IsSlot absent requested f (rw e tt) v
apply_observed-IsSlot (restarting tail after seen reason) none requested f e v = ground arith
apply_observed-IsSlot (restarting tail after seen reason) (some t) requested f e v = ground arith
apply_observed-IsSlot (draining _ _) target requested f e v = v
apply_observed-IsSlot (drained _) target requested f e v = v

pub apply_status-IsSlot :
    (o : StatusObservation) (f : Focus) → IsSlot f.slot → IsSlot (apply_status o f).slot
unfolding apply_status
apply_status-IsSlot o f v = apply_observed-IsSlot f.slot.state _ o.requested_tick f refl v
