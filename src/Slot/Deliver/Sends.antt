-- ===== src/Slot/Deliver/Sends.antt =====
-- src/engine.rs, `dispatch_calls`: which calls a slot sends, told by its state, the tick and the call.
use qubic_random_client.Base.{
  ℕ, ◌+◌, ◌-◌, ◌≡◌, refl, sym, ap, ◌∙◌, Bool, true, false, not, ◌&&◌, List, [], ◌∷◌, ◌++◌, some,
  arith, all, inl, inr, Bool-cases, if◌then◌else◌, leb, ltb, min, u32_max,
}
use mathlib.Core.List.{reverse}
use qubic_random_client.Entropy.{External}
use qubic_random_client.Chain.{
  Chain, PlannedCall, CallKind, BroadcastState, first_commit, reveal_and_commit, terminal_reveal,
  ready, broadcasting, retry, accepted, failed,
}
use qubic_random_client.Slot.{
  SlotState, ManagedSlot, Focus, Broadcast, waiting, starting, active, restarting, draining,
  drained, shutdown, epoch,
}
use qubic_random_client.Slot.Deliver.Timing.{broadcast_attempt_timeout}
use qubic_random_client.Slot.Deliver.{
  dispatch_calls, is_redundant, spawned, round_of, terminal_ready_in, allows_redundant,
  is_shutdown_drain, is_clear, Round,
}
use qubic_random_client.Slot.Deliver.Due.{is_due, due_broadcasts, dispatch_calls-outbox}

-- How many ticks before its target a call may be sent, and the additional send may start.
abbrev earliest : CallKind → ℕ
earliest first_commit = 6
earliest reveal_and_commit = 4
earliest terminal_reveal = 4

abbrev additional : CallKind → ℕ
additional first_commit = 4
additional reveal_and_commit = 3
additional terminal_reveal = 0

abbrev is_planning_state : SlotState → Bool
is_planning_state (starting _) = true
is_planning_state active = true
is_planning_state _ = false

abbrev shuts_down : SlotState → Bool
shuts_down (draining shutdown _) = true
shuts_down _ = false

-- A call that the terminal reveal waits for.
abbrev holds_back : ℕ → ℕ → ℕ → CallKind → BroadcastState → Bool
holds_back first terminal target terminal_reveal state = false
holds_back first terminal target kind accepted = false
holds_back first terminal target kind state = leb first target && leb target terminal

abbrev is_complete : SlotState → Chain → Bool
is_complete (draining _ terminal) chain =
    all (λ d. not (holds_back chain.first_target terminal d.target_tick d.kind d.state)) chain.calls
is_complete _ chain = true

-- Whether a call of a kind and a state is to be sent, if its time has come.
abbrev is_wanted : SlotState → Chain → ℕ → ℕ → Bool → CallKind → BroadcastState → Bool
is_wanted state chain ahead target again kind failed = false
is_wanted state chain ahead target again kind broadcasting = false
is_wanted state chain ahead target again terminal_reveal ready = is_complete state chain
is_wanted state chain ahead target again terminal_reveal retry =
    is_complete state chain && not (shuts_down state)
is_wanted state chain ahead target again terminal_reveal accepted = false
is_wanted state chain ahead target again kind ready = true
is_wanted state chain ahead target again kind retry = true
is_wanted state chain ahead target again kind accepted =
    is_planning_state state
    && not again
    && leb chain.first_target target
    && leb 3 ahead
    && leb ahead (additional kind)

abbrev pub is_sent : ManagedSlot → Chain → ℕ → PlannedCall → Bool
is_sent slot chain tick c =
    ltb tick c.target_tick
    && leb c.target_tick (min (tick + earliest c.kind) u32_max)
    && is_wanted slot.state chain (c.target_tick - tick) c.target_tick c.redundant_attempted c.kind
        c.state

abbrev is_held : BroadcastState → Bool
is_held accepted = true
is_held _ = false

-- What is sent for a call.
abbrev message : ManagedSlot → ℕ → ℕ → PlannedCall → Broadcast
message slot tick duration c = record {
  stream = slot.key.stream;
  started_at = tick;
  target_tick = c.target_tick;
  kind = c.kind;
  tx_bytes = c.tx_bytes;
  timeout_ms = broadcast_attempt_timeout (c.target_tick - tick) duration;
  redundant = is_held c.state;
}

abbrev pub messages : ManagedSlot → Chain → ℕ → ℕ → List PlannedCall → List Broadcast
messages slot chain tick duration [] = []
messages slot chain tick duration (c ∷ cs) =
    let rest = messages slot chain tick duration cs in
    if is_sent slot chain tick c then message slot tick duration c ∷ rest else rest

module _ (slot : ManagedSlot) (chain : Chain) (tick duration : ℕ) where
  is_clear_lem :
      (first terminal target : ℕ) (k : CallKind) (s : BroadcastState) (c : PlannedCall)
      → c.kind ≡ k
      → c.state ≡ s
      → c.target_tick ≡ target
      → is_clear first terminal c ≡ not (holds_back first terminal target k s)
  is_clear_lem first terminal target terminal_reveal s c ek es et = ground arith
  is_clear_lem first terminal target first_commit accepted c ek es et = ground arith
  is_clear_lem first terminal target reveal_and_commit accepted c ek es et = ground arith
  is_clear_lem first terminal target first_commit ready c ek es et = ground arith
  is_clear_lem first terminal target first_commit broadcasting c ek es et = ground arith
  is_clear_lem first terminal target first_commit retry c ek es et = ground arith
  is_clear_lem first terminal target first_commit failed c ek es et = ground arith
  is_clear_lem first terminal target reveal_and_commit ready c ek es et = ground arith
  is_clear_lem first terminal target reveal_and_commit broadcasting c ek es et = ground arith
  is_clear_lem first terminal target reveal_and_commit retry c ek es et = ground arith
  is_clear_lem first terminal target reveal_and_commit failed c ek es et = ground arith

  all-is_clear :
      (first terminal : ℕ) (cs : List PlannedCall)
      → all (is_clear first terminal) cs
        ≡ all (λ d. not (holds_back first terminal d.target_tick d.kind d.state)) cs
  all-is_clear first terminal [] = refl
  all-is_clear first terminal (c ∷ cs) =
      rw
        (
          is_clear_lem first terminal c.target_tick c.kind c.state c refl refl refl,
          all-is_clear first terminal cs,
        )
        refl

  complete_lem : (s : SlotState) → terminal_ready_in s chain ≡ is_complete s chain
  complete_lem (draining _ terminal) = all-is_clear chain.first_target terminal chain.calls
  complete_lem (waiting _ _) = refl
  complete_lem (starting _) = refl
  complete_lem active = refl
  complete_lem (restarting _ _ _ _) = refl
  complete_lem (drained _) = refl

  planning_lem : (s : SlotState) → allows_redundant s ≡ is_planning_state s
  planning_lem (draining _ _) = refl
  planning_lem (waiting _ _) = refl
  planning_lem (starting _) = refl
  planning_lem active = refl
  planning_lem (restarting _ _ _ _) = refl
  planning_lem (drained _) = refl

  shuts_down_lem : (s : SlotState) → is_shutdown_drain s ≡ shuts_down s
  shuts_down_lem (draining shutdown _) = refl
  shuts_down_lem (draining epoch _) = refl
  shuts_down_lem (waiting _ _) = refl
  shuts_down_lem (starting _) = refl
  shuts_down_lem active = refl
  shuts_down_lem (restarting _ _ _ _) = refl
  shuts_down_lem (drained _) = refl

  is_due_lem :
      (c : PlannedCall) (k : CallKind) (s : BroadcastState)
      → c.kind ≡ k
      → c.state ≡ s
      → is_due (round_of slot chain tick duration) c ≡ is_sent slot chain tick c
  unfolding is_due is_redundant
  is_due_lem c first_commit ready ek es = ground arith
  is_due_lem c first_commit broadcasting ek es = ground arith
  is_due_lem c first_commit retry ek es = ground arith
  is_due_lem c first_commit accepted ek es = ground (arith, planning_lem slot.state)
  is_due_lem c first_commit failed ek es = ground arith
  is_due_lem c reveal_and_commit ready ek es = ground arith
  is_due_lem c reveal_and_commit broadcasting ek es = ground arith
  is_due_lem c reveal_and_commit retry ek es = ground arith
  is_due_lem c reveal_and_commit accepted ek es = ground (arith, planning_lem slot.state)
  is_due_lem c reveal_and_commit failed ek es = ground arith
  is_due_lem c terminal_reveal ready ek es =
      ground (arith, complete_lem slot.state, shuts_down_lem slot.state)
  is_due_lem c terminal_reveal broadcasting ek es =
      ground (arith, complete_lem slot.state, shuts_down_lem slot.state)
  is_due_lem c terminal_reveal retry ek es =
      ground (arith, complete_lem slot.state, shuts_down_lem slot.state)
  is_due_lem c terminal_reveal accepted ek es =
      ground (arith, complete_lem slot.state, shuts_down_lem slot.state)
  is_due_lem c terminal_reveal failed ek es =
      ground (arith, complete_lem slot.state, shuts_down_lem slot.state)

  -- A call that is sent although it is accepted is sent for the additional time.
  is_redundant_lem :
      (r : Round) (c : PlannedCall) (s : BroadcastState)
      → c.state ≡ s
      → is_due r c ≡ true
      → is_redundant r c ≡ is_held s
  unfolding is_due is_redundant
  is_redundant_lem r c ready es d = ground arith
  is_redundant_lem r c broadcasting es d = ground arith
  is_redundant_lem r c retry es d = ground arith
  is_redundant_lem r c accepted es d = ground arith
  is_redundant_lem r c failed es d = ground arith

  message_lem :
      (c : PlannedCall)
      → is_due (round_of slot chain tick duration) c ≡ true
      → spawned (round_of slot chain tick duration) c ≡ message slot tick duration c
  unfolding spawned
  message_lem c d = rw (is_redundant_lem (round_of slot chain tick duration) c c.state refl d) refl

  due_broadcasts_lem :
      (cs : List PlannedCall)
      → due_broadcasts (round_of slot chain tick duration) cs ≡ messages slot chain tick duration cs
  unfolding due_broadcasts
  due_broadcasts_lem [] = refl
  due_broadcasts_lem (c ∷ cs) =
      let rest = due_broadcasts_lem cs in
      let same = is_due_lem c c.kind c.state refl refl in
      elim (Bool-cases (is_due (round_of slot chain tick duration) c)) [
        | inl d ↦ rw (d, sym same ∙ d, message_lem c d, rest) refl
        | inr d ↦ rw (d, sym same ∙ d, rest) refl
      ]

-- A slot with a chain starts exactly these broadcasts, in the calls' order: of the calls whose
-- target is ahead, by six ticks at most for a first commit and four for a reveal, those that are
-- ready or to be retried, the terminal reveal only once the slot does not drain or every other
-- call from the first target to the drain's tick is accepted, and no retry of it in a shutdown;
-- and, once, in a slot that plans calls, those of the chain that are accepted and have three
-- ticks left, up to four for a first commit. Each carries the stream, the target, the kind and
-- the bytes of its call.
pub dispatch_calls-messages :
    (x : External) (tick duration : ℕ) (f : Focus) (c : Chain)
    → f.slot.chain ≡ some c
    → (dispatch_calls x tick duration f).outbox
      ≡ reverse (messages f.slot c tick duration c.calls) ++ f.outbox
dispatch_calls-messages x tick duration f c e =
    dispatch_calls-outbox x tick duration f c e
    ∙ ap (λ bs. reverse bs ++ f.outbox) (due_broadcasts_lem f.slot c tick duration c.calls)
