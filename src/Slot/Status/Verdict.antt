-- ===== src/Slot/Status/Verdict.antt =====
-- src/engine.rs, `apply_status`: what may freeze a chain that is being extended.
use qubic_random_client.Base.{
  ℕ, ◌+◌, ◌≡◌, ◌<◌, refl, Bool, true, false, arith, Option, some, none, inl, inr, Bool-cases,
  is_some_and, leb, ltb, if◌then◌else◌, Option-cases, ap, ◌∙◌, u32_max, checked_add,
}
use mathlib.Core.Path.{subst}
use qubic_random_client.Suspicion.{
  StatusEvidence, StatusSuspicion, is_confirmed, absent, foreign, lag, new, observe,
}
use qubic_random_client.Chain.{Chain}
use qubic_random_client.Slot.{
  Focus, SlotState, waiting, starting, active, restarting, draining, drained, failed, set_state,
  set_chain,
}
use qubic_random_client.Slot.Plan.{is_planning}
use qubic_random_client.Slot.Status.{
  StatusObservation, apply_status, apply_observed, apply_confirmation_watermark, advance_watermark,
  observe_status_evidence, conclude, begin_status_restart, restart_at_tail, mark_failure,
  financial_failure_target, chain_owns_target, observe_lag, next_suspicion,
}

-- What an observation makes of a slot that plans calls for a chain with a last target: it plans on;
-- or its tail is frozen, with the restart a round later, and the chain holds a confirmed suspicion
-- that the observation itself was the last to support; or there is no tick to restart at.
pub data Verdict (last requested : ℕ) (g : Focus) : Type 0 where
  plans : is_planning g.slot.state ≡ true → Verdict last requested g
  freezes :
      (c : Chain) (s : StatusSuspicion) (after : ℕ) (observed : Bool)
      → g.slot.state ≡ restarting last after observed none
      → g.slot.restart_at ≡ last + 3
      → g.slot.chain ≡ some c
      → c.status_suspicion ≡ some s
      → is_confirmed s ≡ true
      → s.last_requested_tick ≡ requested
      → Verdict last requested g
  fails : g.slot.state ≡ drained failed → u32_max < last + 3 → Verdict last requested g

mark_failure-slot : (t : Option ℕ) (f : Focus) → (mark_failure t f).slot ≡ f.slot
mark_failure-slot none f = refl
mark_failure-slot (some t) f = refl

next_suspicion-last :
    (previous : Option StatusSuspicion) (e : StatusEvidence) (requested : ℕ)
    → is_some_and previous (λ s. leb requested s.last_requested_tick) ≡ false
    → (next_suspicion previous e requested).last_requested_tick ≡ requested
unfolding next_suspicion observe new
next_suspicion-last none e requested h = refl
next_suspicion-last (some s) e requested h = ground arith

restart-Verdict :
    (requested after : ℕ) (observed : Bool) (c : Chain) (s : StatusSuspicion) (f : Focus)
    → f.slot.chain ≡ some c
    → c.status_suspicion ≡ some s
    → is_confirmed s ≡ true
    → s.last_requested_tick ≡ requested
    → Verdict c.last_target requested (begin_status_restart after observed f)
unfolding begin_status_restart restart_at_tail
restart-Verdict requested after observed c s f e k h l =
    rw (e, begin_status_restart)
      (elim (Option-cases (checked_add c.last_target 3)) [
        | inl o ↦ rw (o, restart_at_tail) (fails refl (ground arith))
        | inr (restart_at, o) ↦
            rw (o, restart_at_tail) (freezes c s after observed refl (ground arith) e k h l)
      ])

conclude-Verdict :
    (requested : ℕ) (c : Chain) (s : StatusSuspicion) (f : Focus)
    → f.slot.chain ≡ some c
    → c.status_suspicion ≡ some s
    → s.last_requested_tick ≡ requested
    → is_planning f.slot.state ≡ true
    → Verdict c.last_target requested (conclude s f)
unfolding conclude
conclude-Verdict requested c s f e k l p = elim (Bool-cases (is_confirmed s)) [
  | inr h ↦ simp h (plans p)
  | inl h ↦
      let failure = financial_failure_target f.slot.chain s.evidence in
      simp h (
        restart-Verdict requested _ _ c s (mark_failure failure f)
          (ap (λ m. m.chain) (mark_failure-slot failure f) ∙ e) k h l)
]

observe-Verdict :
    (e : StatusEvidence) (requested : ℕ) (c : Chain) (f : Focus)
    → f.slot.chain ≡ some c
    → is_planning f.slot.state ≡ true
    → Verdict c.last_target requested (observe_status_evidence e requested f)
unfolding observe_status_evidence
observe-Verdict e requested c f n p =
    rw (n, observe_status_evidence)
      (elim (Bool-cases
        (is_some_and c.status_suspicion (λ s. leb requested s.last_requested_tick))) [
          | inl h ↦ simp h (plans p)
          | inr h ↦
              let s = next_suspicion c.status_suspicion e requested in
              let noted = record c { status_suspicion = some s } in
              simp h (
                conclude-Verdict requested noted s (set_chain (some noted) f) refl refl
                  (next_suspicion-last c.status_suspicion e requested h) p)
        ])

advance_watermark-last :
    (tick requested : ℕ) (c : Chain)
    → (advance_watermark tick requested c).0.last_target ≡ c.last_target
unfolding advance_watermark
advance_watermark-last tick requested c = ground arith

observe_lag-Verdict :
    (missing : Option ℕ) (requested : ℕ) (c : Chain) (f : Focus)
    → f.slot.chain ≡ some c
    → is_planning f.slot.state ≡ true
    → Verdict c.last_target requested (observe_lag missing requested f)
unfolding observe_lag
observe_lag-Verdict none requested c f e p = plans p
observe_lag-Verdict (some t) requested c f e p = observe-Verdict (lag t) requested c f e p

watermark-Verdict :
    (tick requested : ℕ) (c : Chain) (f : Focus)
    → f.slot.chain ≡ some c
    → is_planning f.slot.state ≡ true
    → Verdict c.last_target requested (apply_confirmation_watermark tick requested f)
unfolding apply_confirmation_watermark
watermark-Verdict tick requested c f e p =
    let moved = advance_watermark tick requested c in
    rw (e, apply_confirmation_watermark)
      (subst
        (λ last.
          Verdict last requested (observe_lag moved.1 requested (set_chain (some moved.0) f)))
        (advance_watermark-last tick requested c)
        (observe_lag-Verdict moved.1 requested moved.0 (set_chain (some moved.0) f) refl p))

late-Verdict :
    (late : Bool) (e : StatusEvidence) (requested : ℕ) (c : Chain) (f : Focus)
    → f.slot.chain ≡ some c
    → is_planning f.slot.state ≡ true
    → Verdict c.last_target requested (if late then observe_status_evidence e requested f else f)
late-Verdict true e requested c f n p = observe-Verdict e requested c f n p
late-Verdict false e requested c f n p = plans p

observed-Verdict :
    (state : SlotState) (target : Option ℕ) (requested : ℕ) (c : Chain) (f : Focus)
    → f.slot.state ≡ state
    → is_planning state ≡ true
    → f.slot.chain ≡ some c
    → Verdict c.last_target requested (apply_observed state target requested f)
unfolding apply_observed is_planning
observed-Verdict (starting first) (some t) requested c f e p n =
    elim (Bool-cases (chain_owns_target f.slot.chain t)) [
      | inl h ↦ rw h (watermark-Verdict t requested c (set_state active f) n refl)
      | inr h ↦ rw h (late-Verdict (ltb first requested) (foreign t) requested c f n (rw e refl))
    ]
observed-Verdict (starting first) none requested c f e p n =
    late-Verdict (ltb first requested) absent requested c f n (rw e refl)
observed-Verdict active (some t) requested c f e p n =
    elim (Bool-cases (chain_owns_target f.slot.chain t)) [
      | inl h ↦ rw h (watermark-Verdict t requested c f n (rw e refl))
      | inr h ↦ rw h (observe-Verdict (foreign t) requested c f n (rw e refl))
    ]
observed-Verdict active none requested c f e p n =
    observe-Verdict absent requested c f n (rw e refl)
observed-Verdict (waiting _ _) target requested c f e p n = cc
observed-Verdict (restarting _ _ _ _) target requested c f e p n = cc
observed-Verdict (draining _ _) target requested c f e p n = cc
observed-Verdict (drained _) target requested c f e p n = cc

-- A status observation leaves a slot that plans calls for a chain planning, unless it is the last
-- supporter of a confirmed suspicion against the chain: then the tail is frozen, to be restarted a
-- round after the last target, or the slot fails if that tick has no 32-bit number.
pub apply_status-Verdict :
    (o : StatusObservation) (c : Chain) (f : Focus)
    → is_planning f.slot.state ≡ true
    → f.slot.chain ≡ some c
    → Verdict c.last_target o.requested_tick (apply_status o f)
unfolding apply_status
apply_status-Verdict o c f p n = observed-Verdict f.slot.state _ o.requested_tick c f refl p n
