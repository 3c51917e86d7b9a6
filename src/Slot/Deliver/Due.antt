-- ===== src/Slot/Deliver/Due.antt =====
-- src/engine.rs, `dispatch_calls`: exactly which calls are sent in a round.
use qubic_random_client.Base.{
  ℕ, ◌≤◌, ◌≡◌, refl, Bool, true, false, not, ◌&&◌, ◌||◌, List, [], ◌∷◌, ◌++◌, some, arith, all, inl,
  inr, Bool-cases, if◌then◌else◌, leb, ltb, saturating_add, ap, ◌∙◌,
}
use mathlib.Core.List.Memᴰ
use mathlib.Core.List.{Memᴰ, reverse, reverse-cons, append_assoc, append-nil}
use qubic_random_client.Entropy.{External}
use qubic_random_client.Chain.{Chain, PlannedCall, accepted}
use qubic_random_client.Slot.{Focus, Broadcast, DrainReason, draining}
use mathlib.Core.Path.{subst}
use qubic_random_client.Slot.Deliver.Timely.{mark_failure-outbox}
use qubic_random_client.Slot.Deliver.{
  Round, Sweep, lead_ticks, is_terminal, is_sendable, is_retry, is_redundant, is_clear, spawned,
  dispatch_call, dispatch_list, dispatch_calls, finish_dispatch, round_of, sweep_of,
  terminal_ready_in,
}

-- A first or repeated send of a call that is not accepted yet.
abbrev is_plain : Round → PlannedCall → Bool
is_plain r c =
    is_sendable c.state && not (is_terminal c.kind && r.shutdown_drain && is_retry c.state)

-- The calls that a round sends: in their window, the terminal reveal only once the calls before it
-- are accepted, and either not accepted yet or due for the one additional send.
unfoldable pub is_due : Round → PlannedCall → Bool
unfolding is_redundant
is_due r c =
    ltb r.current_tick c.target_tick
    && leb c.target_tick (saturating_add r.current_tick (lead_ticks c.kind))
    && not (is_terminal c.kind && not r.terminal_ready)
    && (is_redundant r c || is_plain r c)

unfoldable pub due_broadcasts : Round → List PlannedCall → List Broadcast
unfolding is_due spawned
due_broadcasts r [] = []
due_broadcasts r (c ∷ cs) =
    if is_due r c then spawned r c ∷ due_broadcasts r cs else due_broadcasts r cs

pub dispatch_call-outbox :
    (x : External) (r : Round) (c : PlannedCall) (w : Sweep)
    → (dispatch_call x r c w).1.outbox ≡ (if is_due r c then spawned r c ∷ w.outbox else w.outbox)
unfolding dispatch_call is_due
dispatch_call-outbox x r c w = ground arith

dispatch_list-outbox :
    (x : External) (r : Round) (cs : List PlannedCall) (w : Sweep)
    → (dispatch_list x r cs w).1.outbox ≡ reverse (due_broadcasts r cs) ++ w.outbox
unfolding dispatch_list due_broadcasts
dispatch_list-outbox x r [] w = refl
dispatch_list-outbox x r (c ∷ cs) w = elim (Bool-cases (is_due r c)) [
  | inl d ↦
      simp
        (dispatch_list-outbox x r cs, dispatch_call-outbox x r c w, d, reverse-cons, append_assoc)
  | inr d ↦ simp (dispatch_list-outbox x r cs, dispatch_call-outbox x r c w, d)
]

-- The outbox after a round.
pub dispatch_calls-outbox :
    (x : External) (tick duration : ℕ) (f : Focus) (c : Chain)
    → f.slot.chain ≡ some c
    → (dispatch_calls x tick duration f).outbox
      ≡ reverse (due_broadcasts (round_of f.slot c tick duration) c.calls) ++ f.outbox
unfolding dispatch_calls finish_dispatch
dispatch_calls-outbox x tick duration f c e =
    rw (e, dispatch_calls)
      (mark_failure-outbox _ _
        ∙ dispatch_list-outbox x (round_of f.slot c tick duration) c.calls (sweep_of f))

clear_call :
    (first terminal : ℕ) (c : PlannedCall)
    → is_clear first terminal c ≡ true
    → first ≤ c.target_tick
    → is_terminal c.kind ≡ false
    → c.target_tick ≤ terminal
    → c.state ≡ accepted
clear_call first terminal c h l n u = ground arith

all_clear :
    (first terminal : ℕ) (cs : List PlannedCall) (c : PlannedCall)
    → all (is_clear first terminal) cs ≡ true
    → Memᴰ c cs
    → first ≤ c.target_tick
    → is_terminal c.kind ≡ false
    → c.target_tick ≤ terminal
    → c.state ≡ accepted
all_clear first terminal [] c h m l n u = elim m [ ]
all_clear first terminal (d ∷ cs) c h (Memᴰ.head e) l n u =
    clear_call first terminal c (rw e (ground arith)) l n u
all_clear first terminal (d ∷ cs) c h (Memᴰ.tail m) l n u =
    all_clear first terminal cs c (ground arith) m l n u

ready_if :
    (r : Round) (c : PlannedCall)
    → is_due r c ≡ true
    → is_terminal c.kind ≡ true
    → r.terminal_ready ≡ true
unfolding is_due
ready_if r c d t = ground arith

due_terminal :
    (r : Round) (cs : List PlannedCall) (b : Broadcast)
    → Memᴰ b (due_broadcasts r cs)
    → is_terminal b.kind ≡ true
    → r.terminal_ready ≡ true
unfolding due_broadcasts is_due
due_terminal r [] b m t = elim m [ ]
due_terminal r (c ∷ cs) b m t = elim (Bool-cases (is_due r c)) [
  | inl d ↦ elim (Memᴰ.cases_cons {a = b} {b = spawned r c} {l = due_broadcasts r cs} (rw d at m)) [
    | inl e ↦ ready_if r c d (rw (← ap (λ s. is_terminal s.kind) e) t)
    | inr m' ↦ due_terminal r cs b m' t
  ]
  | inr d ↦ due_terminal r cs b (rw d at m) t
]

in_reverse : {b : Broadcast} (bs : List Broadcast) → Memᴰ b (reverse bs) → Memᴰ b bs
in_reverse [] m = m
in_reverse {b} (d ∷ bs) m =
    elim (Memᴰ.append_cases {a = b} (reverse bs) {t = d ∷ []} (rw reverse-cons at m)) [
      | inl m' ↦ Memᴰ.tail (in_reverse bs m')
      | inr m' ↦ Memᴰ.head (Memᴰ.eq_of_singleton m')
    ]

started_due :
    (x : External) (tick duration : ℕ) (f : Focus) (c : Chain) (b : Broadcast)
    → f.slot.chain ≡ some c
    → f.outbox ≡ []
    → Memᴰ b (dispatch_calls x tick duration f).outbox
    → Memᴰ b (due_broadcasts (round_of f.slot c tick duration) c.calls)
started_due x tick duration f c b e n m =
    let due = due_broadcasts (round_of f.slot c tick duration) c.calls in
    let started : (dispatch_calls x tick duration f).outbox ≡ reverse due =
      dispatch_calls-outbox x tick duration f c e ∙ rw n (append-nil (reverse due)) in
    in_reverse due (subst (Memᴰ b) started m)

-- A slot that drains, in a round that starts with no broadcasts, starts one for a terminal reveal
-- only if the backend has accepted every other call of the chain up to the terminal target, the
-- old tail before the first target left aside.
pub terminal_waits :
    (x : External) (tick duration terminal : ℕ) (reason : DrainReason) (f : Focus) (c : Chain)
    (b : Broadcast) (call : PlannedCall)
    → f.slot.chain ≡ some c
    → f.slot.state ≡ draining reason terminal
    → f.outbox ≡ []
    → Memᴰ b (dispatch_calls x tick duration f).outbox
    → is_terminal b.kind ≡ true
    → Memᴰ call c.calls
    → c.first_target ≤ call.target_tick
    → is_terminal call.kind ≡ false
    → call.target_tick ≤ terminal
    → call.state ≡ accepted
terminal_waits x tick duration terminal reason f c b call e d n m t =
    all_clear c.first_target terminal c.calls call (
      subst (λ s. terminal_ready_in s c ≡ true) d
        (due_terminal (round_of f.slot c tick duration) c.calls b
          (started_due x tick duration f c b e n m) t))
