-- ===== src/Slot/Outbox.antt =====
-- src/engine.rs: only `dispatch_calls` starts broadcasts.
use qubic_random_client.Base.{
  ℕ, zero, suc, ◌≡◌, refl, ◌∙◌, Option, some, none, arith, inl, inr, Option-cases,
}
use qubic_random_client.Entropy.{External}
use qubic_random_client.Suspicion.{StatusEvidence, absent, foreign}
use qubic_random_client.Slot.{Focus, >>=-keeps, DrainReason, SlotState, active, set_state}
use qubic_random_client.Slot.Status.{
  StatusObservation, apply_status, apply_observed, observe_status_evidence,
  apply_confirmation_watermark,
}
use qubic_random_client.Chain.{Chain}
use qubic_random_client.Slot.Plan.{
  start_if_ready, extend_chain, enter_drain, plan_loop, plan_next, plan_in, next_target,
  give_up_missed,
}
use qubic_random_client.Slot.Deliver.{expire_calls, harvest_broadcasts}
use qubic_random_client.Slot.Finish.{finish_drain, finish_status_restart, prune_calls}

pub expire_calls-outbox : (t : ℕ) (f : Focus) → (expire_calls t f).outbox ≡ f.outbox
unfolding expire_calls
expire_calls-outbox t f = ground arith

pub harvest_broadcasts-outbox : (f : Focus) → (harvest_broadcasts f).outbox ≡ f.outbox
unfolding harvest_broadcasts
harvest_broadcasts-outbox f = ground arith

pub finish_drain-outbox : (f : Focus) → (finish_drain f).outbox ≡ f.outbox
unfolding finish_drain
finish_drain-outbox f = ground arith

pub finish_status_restart-outbox :
    (t : ℕ) (f : Focus) → (finish_status_restart t f).outbox ≡ f.outbox
unfolding finish_status_restart
finish_status_restart-outbox t f = ground arith

pub prune_calls-outbox : (t : ℕ) (f : Focus) → (prune_calls t f).outbox ≡ f.outbox
unfolding prune_calls
prune_calls-outbox t f = ground arith

pub enter_drain-outbox :
    (x : External) (r : DrainReason) (f : Focus) → (enter_drain x r f).0.outbox ≡ f.outbox
unfolding enter_drain
enter_drain-outbox x r f = ground arith

pub start_if_ready-outbox :
    (x : External) (t : ℕ) (f : Focus) → (start_if_ready x t f).0.outbox ≡ f.outbox
unfolding start_if_ready
start_if_ready-outbox x t f = ground arith

observe_status_evidence-outbox :
    (e : StatusEvidence) (t : ℕ) (f : Focus) → (observe_status_evidence e t f).outbox ≡ f.outbox
unfolding observe_status_evidence
observe_status_evidence-outbox e t f = ground arith

apply_confirmation_watermark-outbox :
    (c t : ℕ) (f : Focus) → (apply_confirmation_watermark c t f).outbox ≡ f.outbox
unfolding apply_confirmation_watermark
apply_confirmation_watermark-outbox c t f = ground arith

apply_observed-outbox :
    (state : SlotState) (target : Option ℕ) (t : ℕ) (f : Focus)
    → (apply_observed state target t f).outbox ≡ f.outbox
unfolding apply_observed
apply_observed-outbox state none t f = ground (arith, observe_status_evidence-outbox absent t f)
apply_observed-outbox state (some u) t f = ground (
  arith,
  observe_status_evidence-outbox (foreign u) t f,
  apply_confirmation_watermark-outbox u t f,
  apply_confirmation_watermark-outbox u t (set_state active f),
)

pub apply_status-outbox : (o : StatusObservation) (f : Focus) → (apply_status o f).outbox ≡ f.outbox
unfolding apply_status
apply_status-outbox o f = apply_observed-outbox f.slot.state _ o.requested_tick f

plan_in-outbox :
    (x : External) (t : ℕ) (c : Option Chain) (f : Focus) → (plan_in x t c f).0.outbox ≡ f.outbox
unfolding plan_in plan_next
plan_in-outbox x t c f = ground arith

plan_loop-outbox :
    (x : External) (fuel horizon : ℕ) (f : Focus) → (plan_loop x fuel horizon f).0.outbox ≡ f.outbox
unfolding plan_loop
plan_loop-outbox x zero horizon f = refl
plan_loop-outbox x (suc fuel) horizon f =
    let rest = plan_loop-outbox x fuel horizon in
    elim (Option-cases (next_target horizon f.slot.chain)) [
      | inl e ↦ rw (e, plan_loop)
      | inr (target, e) ↦
          rw (e, plan_loop)
            (>>=-keeps (λ (g : Focus). g.outbox ≡ f.outbox) (plan_in x target f.slot.chain f)
              (plan_loop x fuel horizon) (plan_in-outbox x target f.slot.chain f)
              (λ g h. rest g ∙ h))
    ]

give_up_missed-outbox : (m t : ℕ) (f : Focus) → (give_up_missed m t f).outbox ≡ f.outbox
unfolding give_up_missed
give_up_missed-outbox m t f = ground (arith, expire_calls-outbox t f)

pub extend_chain-outbox :
    (x : External) (t : ℕ) (f : Focus) → (extend_chain x t f).0.outbox ≡ f.outbox
unfolding extend_chain
extend_chain-outbox x t f = grind (arith, give_up_missed-outbox, plan_loop-outbox)
