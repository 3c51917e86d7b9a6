-- ===== src/Slot/Status/Presence.antt =====
-- src/engine.rs, `apply_status`: a slot that the status still reports is not started afresh.
use qubic_random_client.Base.{
  ℕ, ◌≡◌, refl, Bool, true, false, arith, Option, some, none, inl, inr, Bool-cases, is_some_and,
  leb, ltb, Option-cases,
}
use qubic_random_client.Contract.{ProviderSlot, slot}
use qubic_random_client.Suspicion.{
  StatusEvidence, StatusSuspicion, is_confirmed, absent, foreign, lag, new, observe, agrees_with,
}
use qubic_random_client.Chain.{Chain}
use qubic_random_client.Slot.{
  Focus, SlotState, waiting, starting, active, restarting, draining, drained, set_state, set_chain,
}
use qubic_random_client.Slot.Plan.{may_start}
use qubic_random_client.Slot.Status.{
  StatusObservation, apply_status, apply_observed, apply_confirmation_watermark, advance_watermark,
  observe_status_evidence, conclude, begin_status_restart, restart_at_tail, mark_failure,
  financial_failure_target, chain_owns_target, observe_lag, next_suspicion, absence_from,
}

abbrev is_absent : StatusEvidence → Bool
is_absent absent = true
is_absent _ = false

mark_failure-slot : (t : Option ℕ) (f : Focus) → (mark_failure t f).slot ≡ f.slot
mark_failure-slot none f = refl
mark_failure-slot (some t) f = refl

-- Evidence that shows the slot confirms no suspicion of its absence.
confirmed_shows :
    (previous : Option StatusSuspicion) (e : StatusEvidence) (requested : ℕ)
    → is_absent e ≡ false
    → is_some_and previous (λ s. leb requested s.last_requested_tick) ≡ false
    → is_confirmed (next_suspicion previous e requested) ≡ true
    → is_absent (next_suspicion previous e requested).evidence ≡ false
unfolding next_suspicion is_confirmed observe new agrees_with
confirmed_shows none e requested a l c = a
confirmed_shows (some s) e requested a l c = ground arith

restart-blocked :
    (after : ℕ) (f : Focus)
    → may_start f.slot.state ≡ false
    → may_start (begin_status_restart after false f).slot.state ≡ false
unfolding begin_status_restart restart_at_tail may_start
restart-blocked after f m = ground arith

absence_from-shown :
    (s : StatusSuspicion) (e : StatusEvidence) → is_absent e ≡ false → (absence_from s e).1 ≡ false
absence_from-shown s (foreign _) a = refl
absence_from-shown s (lag _) a = refl
absence_from-shown s absent a = cc

conclude-blocked :
    (s : StatusSuspicion) (f : Focus)
    → (is_confirmed s ≡ true → is_absent s.evidence ≡ false)
    → may_start f.slot.state ≡ false
    → may_start (conclude s f).slot.state ≡ false
unfolding conclude
conclude-blocked s f a m = elim (Bool-cases (is_confirmed s)) [
  | inr h ↦ simp h m
  | inl h ↦
      let failure = financial_failure_target f.slot.chain s.evidence in
      simp h (
        rw (absence_from-shown s s.evidence (a h)) (
          restart-blocked (absence_from s s.evidence).0 (mark_failure failure f)
            (rw (mark_failure-slot failure f) m)))
]

observe-blocked :
    (e : StatusEvidence) (requested : ℕ) (f : Focus)
    → is_absent e ≡ false
    → may_start f.slot.state ≡ false
    → may_start (observe_status_evidence e requested f).slot.state ≡ false
unfolding observe_status_evidence
observe-blocked e requested f a m = elim (Option-cases f.slot.chain) [
  | inl n ↦ rw (n, observe_status_evidence) m
  | inr (c, n) ↦
      rw (n, observe_status_evidence)
        (elim (Bool-cases
          (is_some_and c.status_suspicion (λ s. leb requested s.last_requested_tick))) [
            | inl h ↦ simp h m
            | inr h ↦ simp h (
                conclude-blocked (next_suspicion c.status_suspicion e requested) _
                  (confirmed_shows c.status_suspicion e requested a h) m)
          ])
]

watermark-blocked :
    (tick requested : ℕ) (f : Focus)
    → may_start f.slot.state ≡ false
    → may_start (apply_confirmation_watermark tick requested f).slot.state ≡ false
unfolding apply_confirmation_watermark observe_lag
watermark-blocked tick requested f m = elim (Option-cases f.slot.chain) [
  | inl n ↦ rw (n, apply_confirmation_watermark) m
  | inr (c, n) ↦ rw (n, apply_confirmation_watermark) (go (advance_watermark tick requested c))
]
  where
    go :
        (moved : Chain × Option ℕ)
        → may_start (observe_lag moved.1 requested (set_chain (some moved.0) f)).slot.state ≡ false
    go (c, none) = m
    go (c, some t) = observe-blocked (lag t) requested (set_chain (some c) f) refl m

observed-blocked :
    (state : SlotState) (t requested : ℕ) (f : Focus)
    → f.slot.state ≡ state
    → may_start (apply_observed state (some t) requested f).slot.state ≡ false
unfolding apply_observed may_start
observed-blocked (waiting after seen) t requested f e = refl
observed-blocked (starting first) t requested f e =
    elim (Bool-cases (chain_owns_target f.slot.chain t)) [
      | inl h ↦ rw h (watermark-blocked t requested (set_state active f) refl)
      | inr h ↦ elim (Bool-cases (ltb first requested)) [
        | inl l ↦ rw (h, l) (observe-blocked (foreign t) requested f refl (rw e refl))
        | inr l ↦ rw (h, l) (rw e refl)
      ]
    ]
observed-blocked active t requested f e = elim (Bool-cases (chain_owns_target f.slot.chain t)) [
  | inl h ↦ rw h (watermark-blocked t requested f (rw e refl))
  | inr h ↦ rw h (observe-blocked (foreign t) requested f refl (rw e refl))
]
observed-blocked (restarting tail after seen reason) t requested f e = ground arith
observed-blocked (draining _ _) t requested f e = rw e refl
observed-blocked (drained _) t requested f e = rw e refl

-- After an observation in which the contract reports the slot, the slot may not start a chain,
-- whatever its state was.
pub apply_status-present :
    (o : StatusObservation) (f : Focus) (reported : ProviderSlot)
    → slot f.slot.key o.status ≡ some reported
    → may_start (apply_status o f).slot.state ≡ false
unfolding apply_status
apply_status-present o f reported h =
    rw h (observed-blocked f.slot.state reported.last_update_tick o.requested_tick f refl)
