-- ===== src/Slot/Status/Monitored.antt =====
-- src/engine.rs: what a status observation does to the shared counters and the queue of tick checks.
use qubic_random_client.Base.{
  ℕ, ◌≡◌, Bool, true, false, arith, Option, some, none, inl, inr, Bool-cases, is_some_and, leb, ltb,
  if◌then◌else◌, Option-cases,
}
use qubic_random_client.Suspicion.{
  StatusEvidence, StatusSuspicion, is_confirmed, absent, foreign, lag,
}
use qubic_random_client.Monitor.{Monitor}
use qubic_random_client.Slot.{
  Focus, SlotState, waiting, starting, active, restarting, draining, drained, set_state, set_chain,
}
use qubic_random_client.Slot.Monitored.{IsKept, marked}
use qubic_random_client.Slot.Status.{
  StatusObservation, apply_status, apply_observed, apply_confirmation_watermark,
  observe_status_evidence, conclude, begin_status_restart, mark_failure, financial_failure_target,
  chain_owns_target, observe_lag, next_suspicion, advance_watermark,
}

module _ (P : Monitor → Type 0) (kept : IsKept P) where
  mark_failure-monitor : (u : Option ℕ) (f : Focus) → P f.monitor → P (mark_failure u f).monitor
  mark_failure-monitor none f h = h
  mark_failure-monitor (some u) f h = marked P kept u f.monitor h

  begin_status_restart-monitor :
      (after : ℕ) (seen : Bool) (f : Focus)
      → (begin_status_restart after seen f).monitor ≡ f.monitor
  unfolding begin_status_restart
  begin_status_restart-monitor after seen f = ground arith

  conclude-monitor : (s : StatusSuspicion) (f : Focus) → P f.monitor → P (conclude s f).monitor
  unfolding conclude
  conclude-monitor s f h = elim (Bool-cases (is_confirmed s)) [
    | inl c ↦ simp c (
        rw (begin_status_restart-monitor _ _ _)
          (mark_failure-monitor (financial_failure_target f.slot.chain s.evidence) f h))
    | inr c ↦ simp c h
  ]

  observe_status_evidence-monitor :
      (evidence : StatusEvidence) (requested : ℕ) (f : Focus)
      → P f.monitor
      → P (observe_status_evidence evidence requested f).monitor
  unfolding observe_status_evidence
  observe_status_evidence-monitor evidence requested f h = elim (Option-cases f.slot.chain) [
    | inl e ↦ rw (e, observe_status_evidence) h
    | inr (c, e) ↦
        rw (e, observe_status_evidence)
          (elim (Bool-cases
            (is_some_and c.status_suspicion (λ s. leb requested s.last_requested_tick))) [
              | inl l ↦ simp l h
              | inr l ↦
                  let suspicion = next_suspicion c.status_suspicion evidence requested in
                  let noted = some (record c { status_suspicion = some suspicion }) in
                  simp l (conclude-monitor suspicion (set_chain noted f) h)
            ])
  ]

  observe_lag-monitor :
      (missing : Option ℕ) (requested : ℕ) (f : Focus)
      → P f.monitor
      → P (observe_lag missing requested f).monitor
  unfolding observe_lag
  observe_lag-monitor none requested f h = h
  observe_lag-monitor (some m) requested f h = observe_status_evidence-monitor (lag m) requested f h

  apply_confirmation_watermark-monitor :
      (confirmed requested : ℕ) (f : Focus)
      → P f.monitor
      → P (apply_confirmation_watermark confirmed requested f).monitor
  unfolding apply_confirmation_watermark
  apply_confirmation_watermark-monitor confirmed requested f h = elim (Option-cases f.slot.chain) [
    | inl e ↦ rw (e, apply_confirmation_watermark) h
    | inr (c, e) ↦
        let moved = advance_watermark confirmed requested c in
        rw (e, apply_confirmation_watermark)
          (observe_lag-monitor moved.1 requested (set_chain (some moved.0) f) h)
  ]

  foreign-monitor :
      (evidence : StatusEvidence) (late : Bool) (requested : ℕ) (f : Focus)
      → P f.monitor
      → P (if late then observe_status_evidence evidence requested f else f).monitor
  foreign-monitor evidence true requested f h =
      observe_status_evidence-monitor evidence requested f h
  foreign-monitor evidence false requested f h = h

  apply_observed-monitor :
      (state : SlotState) (target : Option ℕ) (requested : ℕ) (f : Focus)
      → P f.monitor
      → P (apply_observed state target requested f).monitor
  unfolding apply_observed
  apply_observed-monitor (waiting after seen) none requested f h = ground arith
  apply_observed-monitor (waiting after seen) (some a) requested f h = ground arith
  apply_observed-monitor (starting first) (some a) requested f h =
      elim (Bool-cases (chain_owns_target f.slot.chain a)) [
        | inl o ↦ rw o (apply_confirmation_watermark-monitor a requested (set_state active f) h)
        | inr o ↦ rw o (foreign-monitor (foreign a) (ltb first requested) requested f h)
      ]
  apply_observed-monitor (starting first) none requested f h =
      foreign-monitor absent (ltb first requested) requested f h
  apply_observed-monitor active (some a) requested f h =
      elim (Bool-cases (chain_owns_target f.slot.chain a)) [
        | inl o ↦ rw o (apply_confirmation_watermark-monitor a requested f h)
        | inr o ↦ rw o (observe_status_evidence-monitor (foreign a) requested f h)
      ]
  apply_observed-monitor active none requested f h =
      observe_status_evidence-monitor absent requested f h
  apply_observed-monitor (restarting tail after seen reason) none requested f h = ground arith
  apply_observed-monitor (restarting tail after seen reason) (some a) requested f h = ground arith
  apply_observed-monitor (draining _ _) target requested f h = h
  apply_observed-monitor (drained _) target requested f h = h

  pub apply_status-monitor :
      (o : StatusObservation) (f : Focus) → P f.monitor → P (apply_status o f).monitor
  unfolding apply_status
  apply_status-monitor o f h = apply_observed-monitor f.slot.state _ o.requested_tick f h
