-- ===== src/Slot/Monitored.antt =====
-- src/engine.rs: what the handlers of a slot do to the shared counters and the queue of tick checks.
use qubic_random_client.Base.{
  ℕ, zero, suc, ◌≡◌, refl, ◌∙◌, List, [], ◌∷◌, Option, some, none, arith, inl, inr, Option-cases,
  Bool-cases, Bool, checked_add,
}
use qubic_random_client.Entropy.{External}
use qubic_random_client.Chain.{Chain}
use qubic_random_client.Monitor.{Monitor, SendOutcome, record_send_outcome, failed}
use qubic_random_client.Monitor.Checks.{queue_tick_check, mark_financial_failure}
use qubic_random_client.Slot.{Focus, >>=-keeps, DrainReason, SlotState, lose_chain}
use qubic_random_client.Slot.Plan.{
  start_if_ready, extend_chain, enter_drain, plan_loop, plan_next, plan_in, next_target, plan_fuel,
  give_up_missed, is_planning,
}
use qubic_random_client.Slot.Deliver.{
  expire_calls, dispatch_calls, harvest_broadcasts, record_accepted, record_failed, settle_expiry,
  after_expiry, finish_dispatch, complete_drain, harvest_list, is_shutdown_drain, mark_failure,
  Expiry, expire_list, no_expiry, set_calls,
}
use qubic_random_client.Slot.Finish.{finish_drain, finish_status_restart, prune_calls}

-- A property of the shared counters and queue that the ways in which a handler changes them keep.
pub record IsKept (P : Monitor → Type 0) : Type 0 where
  pub recorded : (u : ℕ) (o : SendOutcome) (m : Monitor) → P m → P (record_send_outcome u o m)
  pub queued : (u : ℕ) (m : Monitor) → P m → P (queue_tick_check u m)
  pub digested : (d : List (ℕ × List ℕ)) (m : Monitor) → P m → P (record m { target_digests = d })

lose_chain-monitor :
    (after : ℕ) (seen : Bool) (f : Focus) → (lose_chain after seen f).monitor ≡ f.monitor
unfolding lose_chain
lose_chain-monitor after seen f = ground arith

after_expiry-monitor :
    (s : SlotState) (tick : ℕ) (f : Focus) → (after_expiry s tick f).monitor ≡ f.monitor
unfolding after_expiry complete_drain lose_chain
after_expiry-monitor s tick f = ground arith

pub finish_drain-monitor : (f : Focus) → (finish_drain f).monitor ≡ f.monitor
unfolding finish_drain
finish_drain-monitor f = ground arith

pub finish_status_restart-monitor :
    (tick : ℕ) (f : Focus) → (finish_status_restart tick f).monitor ≡ f.monitor
unfolding finish_status_restart
finish_status_restart-monitor tick f = ground arith

pub prune_calls-monitor : (tick : ℕ) (f : Focus) → (prune_calls tick f).monitor ≡ f.monitor
unfolding prune_calls
prune_calls-monitor tick f = ground arith

pub enter_drain-monitor :
    (x : External) (r : DrainReason) (f : Focus) → (enter_drain x r f).0.monitor ≡ f.monitor
unfolding enter_drain
enter_drain-monitor x r f = ground arith

pub start_if_ready-monitor :
    (x : External) (tick : ℕ) (f : Focus) → (start_if_ready x tick f).0.monitor ≡ f.monitor
unfolding start_if_ready
start_if_ready-monitor x tick f = ground arith

plan_in-monitor :
    (x : External) (t : ℕ) (c : Option Chain) (f : Focus) → (plan_in x t c f).0.monitor ≡ f.monitor
unfolding plan_in plan_next
plan_in-monitor x t c f = ground arith

plan_loop-monitor :
    (x : External) (fuel horizon : ℕ) (f : Focus)
    → (plan_loop x fuel horizon f).0.monitor ≡ f.monitor
unfolding plan_loop
plan_loop-monitor x zero horizon f = refl
plan_loop-monitor x (suc fuel) horizon f =
    let rest = plan_loop-monitor x fuel horizon in
    elim (Option-cases (next_target horizon f.slot.chain)) [
      | inl e ↦ rw (e, plan_loop) refl
      | inr (target, e) ↦
          rw (e, plan_loop)
            (>>=-keeps (λ (g : Focus). g.monitor ≡ f.monitor) (plan_in x target f.slot.chain f)
              (plan_loop x fuel horizon) (plan_in-monitor x target f.slot.chain f)
              (λ g h. rest g ∙ h))
    ]

module _ (P : Monitor → Type 0) (kept : IsKept P) where
  pub marked : (u : ℕ) (m : Monitor) → P m → P (mark_financial_failure u m)
  unfolding mark_financial_failure
  marked u m h = kept.queued u _ (kept.recorded u failed m h)

  mark_failure-monitor : (u : Option ℕ) (f : Focus) → P f.monitor → P (mark_failure u f).monitor
  mark_failure-monitor none f h = h
  mark_failure-monitor (some u) f h = marked u f.monitor h

  record_accepted-monitor : (us : List ℕ) (m : Monitor) → P m → P (record_accepted us m)
  unfolding record_accepted
  record_accepted-monitor [] m h = h
  record_accepted-monitor (u ∷ us) m h =
      record_accepted-monitor us _ (kept.queued u _ (kept.recorded u SendOutcome.ok m h))

  record_failed-monitor : (us : List ℕ) (m : Monitor) → P m → P (record_failed us m)
  unfolding record_failed
  record_failed-monitor [] m h = h
  record_failed-monitor (u ∷ us) m h = record_failed-monitor us _ (marked u m h)

  pub harvest_broadcasts-monitor : (f : Focus) → P f.monitor → P (harvest_broadcasts f).monitor
  unfolding harvest_broadcasts
  harvest_broadcasts-monitor f h = elim (Option-cases f.slot.chain) [
    | inl e ↦ rw (e, harvest_broadcasts) h
    | inr (c, e) ↦
        let harvested =
          (harvest_list (is_shutdown_drain f.slot.state) c.calls
            (record { accepted_normal = []; failed_terminal = [] })).1 in
        rw (e, harvest_broadcasts)
          (record_failed-monitor harvested.failed_terminal _
            (record_accepted-monitor harvested.accepted_normal f.monitor h))
  ]

  pub expire_calls-monitor : (tick : ℕ) (f : Focus) → P f.monitor → P (expire_calls tick f).monitor
  unfolding expire_calls settle_expiry
  expire_calls-monitor tick f h = elim (Option-cases f.slot.chain) [
    | inl e ↦ rw (e, expire_calls) h
    | inr (c, e) ↦
        let listed = expire_list c.first_target tick c.calls no_expiry in
        rw (e, expire_calls) (settled listed.1 (set_calls listed.0 c f) h)
  ]
    where
      settled : (e : Expiry) (g : Focus) → P g.monitor → P (settle_expiry tick e g).monitor
      settled e g k = elim (Bool-cases e.expired) [
        | inl x ↦ simp x (rw (after_expiry-monitor _ tick _) (mark_failure-monitor _ g k))
        | inr x ↦ simp x k
      ]

  pub dispatch_calls-monitor :
      (x : External) (tick duration : ℕ) (f : Focus)
      → P f.monitor
      → P (dispatch_calls x tick duration f).monitor
  unfolding dispatch_calls finish_dispatch
  dispatch_calls-monitor x tick duration f h = elim (Option-cases f.slot.chain) [
    | inl e ↦ rw (e, dispatch_calls) h
    | inr (c, e) ↦ rw (e, dispatch_calls) (mark_failure-monitor _ _ (kept.digested _ f.monitor h))
  ]

  give_up_missed-monitor :
      (missed tick : ℕ) (f : Focus) → P f.monitor → P (give_up_missed missed tick f).monitor
  unfolding give_up_missed
  give_up_missed-monitor missed tick f h =
      let expired = expire_calls tick f in
      let k = expire_calls-monitor tick f h in
      elim (Bool-cases (is_planning expired.slot.state)) [
        | inl p ↦ rw p (rw (lose_chain-monitor _ _ _) (marked missed expired.monitor k))
        | inr p ↦ rw p k
      ]

  pub extend_chain-monitor :
      (x : External) (tick : ℕ) (f : Focus) → P f.monitor → P (extend_chain x tick f).0.monitor
  unfolding extend_chain
  extend_chain-monitor x tick f h = elim (Bool-cases (is_planning f.slot.state)) [
    | inr p ↦ rw p h
    | inl p ↦ rw p (elim (Option-cases (next_target tick f.slot.chain)) [
      | inr (missed, e) ↦ rw e (give_up_missed-monitor missed tick f h)
      | inl e ↦ rw e (elim (Option-cases (checked_add tick 6)) [
        | inl o ↦ rw o h
        | inr (horizon, o) ↦ rw o (rw (plan_loop-monitor x plan_fuel horizon f) h)
      ])
    ])
  ]
