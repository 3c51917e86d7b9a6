-- ===== src/Slot/Keys.antt =====
-- src/engine.rs: no handler changes the key of its slot.
use qubic_random_client.Base.{
  ℕ, zero, suc, ◌≡◌, refl, ◌∙◌, Option, some, none, arith, inl, inr, Option-cases,
}
use qubic_random_client.Entropy.{External}
use qubic_random_client.Slot.{Focus, >>=-keeps, DrainReason, SlotState, active, set_state}
use qubic_random_client.Suspicion.{StatusEvidence, absent, foreign}
use qubic_random_client.Chain.{Chain}
use qubic_random_client.Slot.Status.{
  StatusObservation, apply_status, apply_observed, observe_status_evidence,
  apply_confirmation_watermark,
}
use qubic_random_client.Slot.Plan.{
  start_if_ready, extend_chain, enter_drain, plan_loop, plan_next, plan_in, next_target,
  give_up_missed,
}
use qubic_random_client.Slot.Deliver.{expire_calls, dispatch_calls, harvest_broadcasts}
use qubic_random_client.Slot.Finish.{finish_drain, finish_status_restart, prune_calls}

pub expire_calls-key : (t : ℕ) (f : Focus) → (expire_calls t f).slot.key ≡ f.slot.key
unfolding expire_calls
expire_calls-key t f = ground arith

pub dispatch_calls-key :
    (x : External) (t d : ℕ) (f : Focus) → (dispatch_calls x t d f).slot.key ≡ f.slot.key
unfolding dispatch_calls
dispatch_calls-key x t d f = ground arith

pub harvest_broadcasts-key : (f : Focus) → (harvest_broadcasts f).slot.key ≡ f.slot.key
unfolding harvest_broadcasts
harvest_broadcasts-key f = ground arith

pub finish_drain-key : (f : Focus) → (finish_drain f).slot.key ≡ f.slot.key
unfolding finish_drain
finish_drain-key f = ground arith

pub finish_status_restart-key :
    (t : ℕ) (f : Focus) → (finish_status_restart t f).slot.key ≡ f.slot.key
unfolding finish_status_restart
finish_status_restart-key t f = ground arith

pub prune_calls-key : (t : ℕ) (f : Focus) → (prune_calls t f).slot.key ≡ f.slot.key
unfolding prune_calls
prune_calls-key t f = ground arith

pub enter_drain-key :
    (x : External) (r : DrainReason) (f : Focus) → (enter_drain x r f).0.slot.key ≡ f.slot.key
unfolding enter_drain
enter_drain-key x r f = ground arith

pub start_if_ready-key :
    (x : External) (t : ℕ) (f : Focus) → (start_if_ready x t f).0.slot.key ≡ f.slot.key
unfolding start_if_ready
start_if_ready-key x t f = ground arith

observe_status_evidence-key :
    (e : StatusEvidence) (t : ℕ) (f : Focus) → (observe_status_evidence e t f).slot.key ≡ f.slot.key
unfolding observe_status_evidence
observe_status_evidence-key e t f = ground arith

apply_confirmation_watermark-key :
    (c t : ℕ) (f : Focus) → (apply_confirmation_watermark c t f).slot.key ≡ f.slot.key
unfolding apply_confirmation_watermark
apply_confirmation_watermark-key c t f = ground arith

apply_observed-key :
    (state : SlotState) (target : Option ℕ) (t : ℕ) (f : Focus)
    → (apply_observed state target t f).slot.key ≡ f.slot.key
unfolding apply_observed
apply_observed-key state none t f = ground (arith, observe_status_evidence-key absent t f)
apply_observed-key state (some u) t f = ground (
  arith,
  observe_status_evidence-key (foreign u) t f,
  apply_confirmation_watermark-key u t f,
  apply_confirmation_watermark-key u t (set_state active f),
)

pub apply_status-key :
    (o : StatusObservation) (f : Focus) → (apply_status o f).slot.key ≡ f.slot.key
unfolding apply_status
apply_status-key o f = apply_observed-key f.slot.state _ o.requested_tick f

plan_in-key :
    (x : External) (t : ℕ) (c : Option Chain) (f : Focus)
    → (plan_in x t c f).0.slot.key ≡ f.slot.key
unfolding plan_in plan_next
plan_in-key x t c f = ground arith

plan_loop-key :
    (x : External) (fuel horizon : ℕ) (f : Focus)
    → (plan_loop x fuel horizon f).0.slot.key ≡ f.slot.key
unfolding plan_loop
plan_loop-key x zero horizon f = refl
plan_loop-key x (suc fuel) horizon f =
    let rest = plan_loop-key x fuel horizon in
    elim (Option-cases (next_target horizon f.slot.chain)) [
      | inl e ↦ rw (e, plan_loop)
      | inr (target, e) ↦
          rw (e, plan_loop)
            (>>=-keeps (λ (g : Focus). g.slot.key ≡ f.slot.key) (plan_in x target f.slot.chain f)
              (plan_loop x fuel horizon) (plan_in-key x target f.slot.chain f) (λ g h. rest g ∙ h))
    ]

give_up_missed-key : (m t : ℕ) (f : Focus) → (give_up_missed m t f).slot.key ≡ f.slot.key
unfolding give_up_missed
give_up_missed-key m t f = ground (arith, expire_calls-key t f)

pub extend_chain-key :
    (x : External) (t : ℕ) (f : Focus) → (extend_chain x t f).0.slot.key ≡ f.slot.key
unfolding extend_chain
extend_chain-key x t f = grind (arith, give_up_missed-key, plan_loop-key)
