-- ===== src/Slot/Plan/Succeeds.antt =====
-- src/engine.rs: planning a call fails only where a tick does not fit 32 bits or the wallet refuses.
use qubic_random_client.Base.{
  ℕ, zero, suc, ◌+◌, ◌%◌, ◌≤◌, ◌<◌, ◌≡◌, refl, true, List, Option, none, some, arith, inl, inr,
  Option-cases, Bool-cases, u32_max, checked_add, max, is_some, sym, ◌∙◌, replicate,
}
use mathlib.Core.Path.{subst}
use qubic_random_client.Contract.{SlotKey, RevealAndCommitInput, encode}
use qubic_random_client.Entropy.{External, commit_digest, random_preimage}
use qubic_random_client.Chain.{Chain, next_stream_tick}
use qubic_random_client.Chain.Targets.{next_stream_tick_iff, next_stream_tick_found}
use qubic_random_client.Slot.{
  Focus, Attempt, ◌>>=◌, SlotState, DrainReason, waiting, starting, active, restarting, draining,
  drained,
}
use qubic_random_client.Slot.Shape.{shape_in}
use qubic_random_client.Slot.Plan.Starts.{start_if_ready-IsSlot}
use qubic_random_client.Slot.Invariant.{IsSlot, Stands}
use qubic_random_client.Slot.Plan.{
  start_if_ready, start_at, install_fresh, extend_chain, plan_loop, plan_in, plan_next, plan_fuel,
  next_target, is_planning, build_transaction, or_refuse, signed, enter_drain, drain_by_state,
  schedule_terminal, install_terminal, may_start, continued,
}

-- The wallet signs whatever it is given.
pub record Signs (x : External) : Type 0 where
  pub always :
      (contract amount tick procedure : ℕ) (payload : List ℕ)
      → is_some (x.build_ticket_tx_bytes contract amount tick procedure payload) ≡ true

-- A transaction for a tick of the slot's stream is signed.
build_transaction-signed :
    (x : External) (collateral target : ℕ) (input : RevealAndCommitInput) (key : SlotKey)
    → Signs x
    → target % 3 ≡ key.stream
    → (bytes : List ℕ) × (build_transaction x collateral input target key ≡ signed bytes)
unfolding build_transaction or_refuse
build_transaction-signed x collateral target input key s e =
    elim (Option-cases (x.build_ticket_tx_bytes 3 collateral target 1 (encode input))) [
      | inl n ↦ absurd (ground (arith, s.always 3 collateral target 1 (encode input)))
      | inr (bytes, n) ↦ (bytes, ground arith)
    ]

start_at-ok :
    (x : External) (target : ℕ) (f : Focus)
    → Signs x
    → target % 3 ≡ f.slot.key.stream
    → (start_at x target f).1 ≡ none
unfolding start_at install_fresh
start_at-ok x target f s e =
    let preimage = random_preimage x f.drawn in
    let input : RevealAndCommitInput = record {
      reveal = replicate 512 0;
      commit = commit_digest x preimage;
    } in
    rw ((build_transaction-signed x f.collateral target input f.slot.key s e).1) refl

-- With a wallet that signs, a start six ticks ahead fails only where the stream's next tick, past
-- the restart tick and the lead, has no 32-bit number.
pub start_if_ready-ok :
    (x : External) (tick : ℕ) (f : Focus)
    → Signs x
    → f.slot.key.stream < 3
    → tick + 8 ≤ u32_max
    → f.slot.restart_at + 2 ≤ u32_max
    → (start_if_ready x tick f).1 ≡ none
unfolding start_if_ready
start_if_ready-ok x tick f s v b r = elim (Bool-cases (may_start f.slot.state)) [
  | inr m ↦ rw m refl
  | inl m ↦
      let lead : checked_add tick 6 ≡ some (tick + 6) = ground arith in
      elim (Option-cases (next_stream_tick (max (tick + 6) f.slot.restart_at) f.slot.key.stream)) [
        | inl n ↦ absurd (
            next_stream_tick_found (max (tick + 6) f.slot.restart_at) f.slot.key.stream
              (omega arith) n)
        | inr (target, n) ↦
            rw (m, lead, n)
              (start_at-ok x target f s ((next_stream_tick_iff _ _ target v).0 n).on_stream)
      ]
]

-- A slot holds a chain whose last target lies in its stream.
record HoldsOn (f : Focus) : Type 0 where
  chain : Chain
  holds : f.slot.chain ≡ some chain
  on_stream : chain.last_target % 3 ≡ f.slot.key.stream

>>=-ok :
    (m : Attempt Focus) (next : Focus → Attempt Focus)
    → m.1 ≡ none
    → (next m.0).1 ≡ none
    → (m >>= next).1 ≡ none
>>=-ok (f, none) next h k = k
>>=-ok (f, some e) next h k = h

plan_next-ok :
    (x : External) (target : ℕ) (c : Chain) (f : Focus)
    → Signs x
    → target % 3 ≡ f.slot.key.stream
    → ((plan_next x target c f).1 ≡ none) × HoldsOn (plan_next x target c f).0
unfolding plan_next
plan_next-ok x target c f s e =
    let preimage = random_preimage x f.drawn in
    let input : RevealAndCommitInput = record {
      reveal = c.outstanding_preimage;
      commit = commit_digest x preimage;
    } in
    let (bytes, built) = build_transaction-signed x f.collateral target input f.slot.key s e in
    rw built
      (refl, record { chain = continued target preimage bytes c; holds = refl; on_stream = e })

next_target-on :
    (horizon target : ℕ) (c : Chain)
    → next_target horizon (some c) ≡ some target
    → target % 3 ≡ c.last_target % 3
next_target-on horizon target c e = ground arith

plan_loop-ok :
    (x : External) (fuel horizon : ℕ) (f : Focus)
    → Signs x
    → HoldsOn f
    → (plan_loop x fuel horizon f).1 ≡ none
unfolding plan_loop plan_in
plan_loop-ok x zero horizon f s h = refl
plan_loop-ok x (suc fuel) horizon f s h = elim (Option-cases (next_target horizon f.slot.chain)) [
  | inl e ↦ rw (e, plan_loop) refl
  | inr (target, e) ↦
      let on = next_target-on horizon target h.chain (rw h.holds at e) ∙ h.on_stream in
      let planned = plan_next-ok x target h.chain f s on in
      rw (e, plan_loop)
        (subst (λ chain. (plan_in x target chain f >>= plan_loop x fuel horizon).1 ≡ none)
          (sym h.holds)
          (>>=-ok (plan_next x target h.chain f) (plan_loop x fuel horizon) planned.0
            (plan_loop-ok x fuel horizon _ s planned.1)))
]

planning-HoldsOn : (f : Focus) → is_planning f.slot.state ≡ true → IsSlot f.slot → HoldsOn f
unfolding is_planning
planning-HoldsOn f p v = go f.slot.state f.slot.chain f.slot.restart_at p refl v.stands
  where
    go :
        (state : SlotState) (chain : Option Chain) (r : ℕ)
        → is_planning state ≡ true
        → f.slot.chain ≡ chain
        → Stands f.slot.key.stream state (shape_in chain) r
        → HoldsOn f
    go (starting _) (some c) r p e h = record {
      chain = c;
      holds = e;
      on_stream = h.0.last_on_stream;
    }
    go active (some c) r p e h = record { chain = c; holds = e; on_stream = h.last_on_stream }
    go (starting _) none r p e h = absurd h
    go active none r p e h = absurd h
    go (waiting _ _) c r p e h = cc
    go (restarting _ _ _ _) c r p e h = cc
    go (draining _ _) c r p e h = cc
    go (drained _) c r p e h = cc

-- With a wallet that signs, a well-formed slot's chain is continued without an error, unless the
-- horizon six ticks ahead has no 32-bit number.
pub extend_chain-ok :
    (x : External) (tick : ℕ) (f : Focus)
    → Signs x
    → IsSlot f.slot
    → tick + 6 ≤ u32_max
    → (extend_chain x tick f).1 ≡ none
unfolding extend_chain
extend_chain-ok x tick f s v b = elim (Bool-cases (is_planning f.slot.state)) [
  | inr p ↦ rw p refl
  | inl p ↦ elim (Option-cases (next_target tick f.slot.chain)) [
    | inr (missed, n) ↦ rw (p, n) refl
    | inl n ↦
        let lead : checked_add tick 6 ≡ some (tick + 6) = ground arith in
        rw (p, n, lead) (plan_loop-ok x plan_fuel (tick + 6) f s (planning-HoldsOn f p v))
  ]
]

schedule_terminal-ok :
    (x : External) (reason : DrainReason) (c : Chain) (f : Focus)
    → Signs x
    → c.last_target % 3 ≡ f.slot.key.stream
    → c.last_target + 3 ≤ u32_max
    → (schedule_terminal x reason (some c) f).1 ≡ none
unfolding schedule_terminal install_terminal
schedule_terminal-ok x reason c f s e b =
    let input : RevealAndCommitInput = record {
      reveal = c.outstanding_preimage;
      commit = replicate 32 0;
    } in
    let target : checked_add c.last_target 3 ≡ some (c.last_target + 3) = ground arith in
    let (bytes, built) =
      build_transaction-signed x f.collateral (c.last_target + 3) input f.slot.key s
        (omega arith) in
    rw (target, schedule_terminal) (rw built refl)

drain_by_state-ok :
    (x : External) (state : SlotState) (reason : DrainReason) (f : Focus)
    → (is_planning state ≡ true → (schedule_terminal x reason f.slot.chain f).1 ≡ none)
    → (drain_by_state x state reason f).1 ≡ none
unfolding drain_by_state is_planning
drain_by_state-ok x (waiting _ _) reason f h = refl
drain_by_state-ok x (restarting _ _ _ _) reason f h = refl
drain_by_state-ok x (draining _ _) reason f h = refl
drain_by_state-ok x (drained _) reason f h = refl
drain_by_state-ok x (starting _) reason f h = h refl
drain_by_state-ok x active reason f h = h refl

-- With a wallet that signs, a well-formed slot is drained without an error, unless the tick of its
-- terminal reveal has no 32-bit number.
pub enter_drain-ok :
    (x : External) (reason : DrainReason) (f : Focus)
    → Signs x
    → IsSlot f.slot
    → ((c : Chain) → f.slot.chain ≡ some c → c.last_target + 3 ≤ u32_max)
    → (enter_drain x reason f).1 ≡ none
unfolding enter_drain
enter_drain-ok x reason f s v b = drain_by_state-ok x f.slot.state reason f (λ p.
    let h = planning-HoldsOn f p v in
    subst (λ chain. (schedule_terminal x reason chain f).1 ≡ none) (sym h.holds)
      (schedule_terminal-ok x reason h.chain f s h.on_stream (b h.chain h.holds)))

-- With a wallet that signs, a well-formed slot plans its calls of a cycle, the start and the
-- continuation, without an error, if the tick eight ahead and the one two past the restart tick
-- have 32-bit numbers.
pub planning-ok :
    (x : External) (tick : ℕ) (f : Focus)
    → Signs x
    → IsSlot f.slot
    → tick + 8 ≤ u32_max
    → f.slot.restart_at + 2 ≤ u32_max
    → (start_if_ready x tick f >>= extend_chain x tick).1 ≡ none
planning-ok x tick f s v b r =
    >>=-ok (start_if_ready x tick f) (extend_chain x tick)
      (start_if_ready-ok x tick f s v.stream_valid b r)
      (extend_chain-ok x tick (start_if_ready x tick f).0 s (start_if_ready-IsSlot x tick f v)
        (omega arith))
