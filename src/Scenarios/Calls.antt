-- ===== src/Scenarios/Calls.antt =====
-- Examples of how a slot of src/engine.rs plans and delivers its calls.
use mathlib.Core.List.{Memᴰ, reverse}
use qubic_random_client.Base.{
  ◌+◌, ◌≤◌, ◌*◌, ◌≡◌, refl, List, [], ◌∷◌, All, ◌++◌, none, some, false, true, arith, u32_max, max,
}
use qubic_random_client.Chain.{
  Chain, PlannedCall, finished_err, accepted, terminal_reveal, reveal_and_commit, ready,
}
use qubic_random_client.Slot.{Focus, Broadcast, ◌>>=◌, shutdown}
use qubic_random_client.Slot.Shape.{signed_calls}
use qubic_random_client.Slot.Invariant.{IsSlot}
use qubic_random_client.Slot.Plan.{
  start_if_ready, extend_chain, enter_drain, is_planning, may_start,
}
use qubic_random_client.Slot.Plan.Fresh.{
  IsStarted, start_if_ready-IsStarted, Drains, enter_drain-Drains,
}
use qubic_random_client.Slot.Plan.Continues.{IsExtended, extend_chain-IsExtended}
use qubic_random_client.Slot.Plan.Succeeds.{Signs, planning-ok, enter_drain-ok}
use qubic_random_client.Slot.Deliver.{
  dispatch_calls, dispatch_list, dispatch_call, round_of, spawned, is_terminal,
}
use qubic_random_client.Slot.Deliver.Due.{terminal_waits}
use qubic_random_client.Slot.Deliver.Sends.{messages, dispatch_calls-messages}
use qubic_random_client.Slot.Deliver.Rounds.Additional.{
  sent_for, unspent, AllAccepted, additional_once,
}
use qubic_random_client.Slot.Deliver.Rounds.{
  Delivery, sends, ends, harvests, all_sent, calls_after, sent_by, carried, all_sent-carried,
}
use qubic_random_client.Slot.Deliver.Timing.{broadcast_attempt_timeout}
use qubic_random_client.Slot.Deliver.Budget.{remaining, timeout-bounds, timeout-leaves_retry}
use qubic_random_client.Scenarios.{
  sample, chain, draining_chain, active_focus, waiting_focus, draining_slot, call_at, focus_on,
}

sample-Signs : Signs sample
sample-Signs = record { always = λ contract amount tick procedure payload. refl }

waiting-IsSlot : IsSlot waiting_focus.slot
waiting-IsSlot = omega arith

active-IsSlot : IsSlot active_focus.slot
active-IsSlot = ground arith

-- At tick 107 the next continuation of the chain, 112, is within reach.
active-planning : is_planning active_focus.slot.state ≡ true
unfolding is_planning
active-planning = refl

extends : extend_chain sample 107 active_focus ≡ ((extend_chain sample 107 active_focus).0, none)
unfolding extend_chain is_planning
extends = refl

extend_chain-IsExtended_example :
    IsExtended sample 107 active_focus (extend_chain sample 107 active_focus).0 chain
extend_chain-IsExtended_example =
    extend_chain-IsExtended sample 107 active_focus (extend_chain sample 107 active_focus).0 chain
      active-planning refl (omega arith) extends

waiting-may_start : may_start waiting_focus.slot.state ≡ true
unfolding may_start
waiting-may_start = refl

starts :
    start_if_ready sample 100 waiting_focus ≡ ((start_if_ready sample 100 waiting_focus).0, none)
unfolding start_if_ready
starts = refl

start_if_ready-IsStarted_example :
    IsStarted sample 100 waiting_focus (start_if_ready sample 100 waiting_focus).0
start_if_ready-IsStarted_example =
    start_if_ready-IsStarted sample 100 waiting_focus (start_if_ready sample 100 waiting_focus).0
      (omega arith) waiting-may_start starts

enter_drain-Drains_example :
    Drains sample shutdown active_focus chain (enter_drain sample shutdown active_focus)
enter_drain-Drains_example =
    enter_drain-Drains sample shutdown active_focus chain active-planning refl

planning-ok_example : (start_if_ready sample 100 waiting_focus >>= extend_chain sample 100).1 ≡ none
planning-ok_example =
    planning-ok sample 100 waiting_focus sample-Signs waiting-IsSlot (omega arith) (omega arith)

chain-last : (c : Chain) → active_focus.slot.chain ≡ some c → c.last_target + 3 ≤ u32_max
chain-last c e = ground arith

enter_drain-ok_example : (enter_drain sample shutdown active_focus).1 ≡ none
enter_drain-ok_example =
    enter_drain-ok sample shutdown active_focus sample-Signs active-IsSlot chain-last

dispatch_calls-messages_example :
    (dispatch_calls sample 106 1000 active_focus).outbox
    ≡ reverse (messages active_focus.slot chain 106 1000 chain.calls) ++ []
dispatch_calls-messages_example = dispatch_calls-messages sample 106 1000 active_focus chain refl

-- The terminal reveal of the draining slot is sent at tick 109.
abbrev draining_focus : Focus
draining_focus = focus_on draining_slot

abbrev reveal : Broadcast
reveal =
    spawned (round_of draining_slot draining_chain 109 1000) (call_at 112 terminal_reveal ready)

reveal-sent : Memᴰ reveal (dispatch_calls sample 109 1000 draining_focus).outbox
unfolding dispatch_calls dispatch_list dispatch_call spawned
reveal-sent = Memᴰ.head refl

reveal-is_terminal : is_terminal reveal.kind ≡ true
unfolding spawned
reveal-is_terminal = refl

terminal_waits_example : (call_at 109 reveal_and_commit accepted).state ≡ accepted
terminal_waits_example =
    terminal_waits sample 109 1000 112 shutdown draining_focus draining_chain reveal
      (call_at 109 reveal_and_commit accepted) refl refl refl reveal-sent reveal-is_terminal
      (Memᴰ.tail (Memᴰ.head refl)) (omega arith) refl (omega arith)

-- An accepted reveal three ticks before its target.
abbrev accepted_call : PlannedCall
accepted_call = call_at 109 reveal_and_commit accepted

accepted-AllAccepted : AllAccepted 109 (accepted_call ∷ [])
accepted-AllAccepted = ((λ e. refl), tt)

-- Two rounds, with the failure of the first additional send between them.
abbrev deliveries : List Delivery
deliveries =
    sends (round_of active_focus.slot chain 106 1000)
    ∷ ends 0 finished_err
    ∷ harvests false
    ∷ sends (round_of active_focus.slot chain 106 1000)
    ∷ []

-- The call is sent in the first of them.
sent_once : sent_for 109 (all_sent sample deliveries (accepted_call ∷ [])) ≡ 1
unfolding all_sent calls_after sent_by
sent_once = refl

additional_once_example :
    sent_for 109 (all_sent sample deliveries (accepted_call ∷ []))
    ≤ unspent 109 (accepted_call ∷ [])
additional_once_example =
    additional_once 109 sample deliveries (accepted_call ∷ []) accepted-AllAccepted

all_sent-carried_example :
    All (λ b. Memᴰ (carried b) (signed_calls chain.calls)) (all_sent sample deliveries chain.calls)
all_sent-carried_example = all_sent-carried sample deliveries chain.calls

timeout-bounds_example :
    (1 ≤ broadcast_attempt_timeout 4 1000)
    × (broadcast_attempt_timeout 4 1000 ≤ 2000)
    × (broadcast_attempt_timeout 4 1000 ≤ max (remaining 4 1000) 1)
timeout-bounds_example = timeout-bounds 4 1000

timeout-leaves_retry_example : 2 * broadcast_attempt_timeout 4 1000 + 100 ≤ remaining 4 1000
timeout-leaves_retry_example = timeout-leaves_retry 4 1000 (omega arith)
