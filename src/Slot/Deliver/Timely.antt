-- ===== src/Slot/Deliver/Timely.antt =====
-- src/engine.rs, `dispatch_calls`: when a broadcast may start, and what it sends.
use qubic_random_client.Base.{
  ℕ, ◌+◌, ◌≤◌, ◌<◌, ◌≡◌, refl, List, [], ◌∷◌, Option, none, some, arith, All, inl, inr,
  Option-cases,
}
use qubic_random_client.Entropy.{External}
use qubic_random_client.Chain.{
  PlannedCall, CallKind, first_commit, reveal_and_commit, terminal_reveal,
}
use qubic_random_client.Slot.{Focus, Broadcast}
use qubic_random_client.Slot.Deliver.{
  Round, Sweep, dispatch_call, dispatch_list, dispatch_calls, finish_dispatch, mark_failure,
  round_of, sweep_of,
}

-- How long before its target a broadcast may start at most.
abbrev pub IsNotEarly : CallKind → ℕ → ℕ → Type 0
IsNotEarly first_commit started_at target = target ≤ started_at + 6
IsNotEarly reveal_and_commit started_at target = target ≤ started_at + 4
IsNotEarly terminal_reveal started_at target = target ≤ started_at + 4

-- A broadcast starts before its target, and no earlier than its kind allows.
pub record IsTimely (b : Broadcast) : Type 0 where
  pub before_target : b.started_at < b.target_tick
  pub not_early : IsNotEarly b.kind b.started_at b.target_tick

dispatch_call-IsTimely :
    (x : External) (r : Round) (c : PlannedCall) (w : Sweep)
    → All IsTimely w.outbox
    → All IsTimely (dispatch_call x r c w).1.outbox
unfolding dispatch_call
dispatch_call-IsTimely x r c w h = go c.kind refl
  where
    go : (k : CallKind) → c.kind ≡ k → All IsTimely (dispatch_call x r c w).1.outbox
    go first_commit e = ground arith
    go reveal_and_commit e = ground arith
    go terminal_reveal e = ground arith

dispatch_list-IsTimely :
    (x : External) (r : Round) (cs : List PlannedCall) (w : Sweep)
    → All IsTimely w.outbox
    → All IsTimely (dispatch_list x r cs w).1.outbox
unfolding dispatch_list
dispatch_list-IsTimely x r [] w h = h
dispatch_list-IsTimely x r (c ∷ cs) w h =
    dispatch_list-IsTimely x r cs (dispatch_call x r c w).1 (dispatch_call-IsTimely x r c w h)

pub mark_failure-outbox : (t : Option ℕ) (f : Focus) → (mark_failure t f).outbox ≡ f.outbox
mark_failure-outbox none f = refl
mark_failure-outbox (some t) f = refl

pub dispatch_calls-IsTimely :
    (x : External) (tick duration : ℕ) (f : Focus)
    → All IsTimely f.outbox
    → All IsTimely (dispatch_calls x tick duration f).outbox
unfolding dispatch_calls finish_dispatch
dispatch_calls-IsTimely x tick duration f h = elim (Option-cases f.slot.chain) [
  | inl e ↦ rw (e, dispatch_calls) h
  | inr (c, e) ↦
      rw (e, dispatch_calls)
        (rw (mark_failure-outbox _ _)
          (dispatch_list-IsTimely x (round_of f.slot c tick duration) c.calls (sweep_of f) h))
]
