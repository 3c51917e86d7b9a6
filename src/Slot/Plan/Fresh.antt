-- ===== src/Slot/Plan/Fresh.antt =====
-- src/engine.rs: the fresh chain of `start_if_ready` and the terminal reveal of `enter_drain`.
use qubic_random_client.Base.{
  ℕ, ◌+◌, ◌%◌, ◌≤◌, ◌<◌, ◌≡◌, ◌≢◌, ◌==◌, ◌++◌, ◌∷◌, [], refl, sym, true, false, List, Option,
  Bool-cases, u32_max, none, some, arith, inl, inr, Option-cases, checked_add, max, replicate,
}
use mathlib.Core.Path.{subst}
use qubic_random_client.Contract.{RevealAndCommitInput, encode}
use qubic_random_client.Entropy.{External, commit_digest, random_preimage}
use qubic_random_client.Chain.{
  Chain, PlannedCall, CallKind, first_commit, terminal_reveal, ready, next_stream_tick,
}
use qubic_random_client.Chain.Targets.{next_stream_tick_iff}
use qubic_random_client.Slot.{
  Focus, Attempt, SlotState, DrainReason, starting, active, draining, terminal_target_overflowed,
  wrong_stream, signing_failed,
}
use qubic_random_client.Slot.Plan.Continues.{failed-eq-done}
use qubic_random_client.Slot.Plan.Continued.{build_transaction-signed}
use qubic_random_client.Slot.Plan.{
  start_if_ready, start_at, install_fresh, fresh_chain, may_start, enter_drain, drain_by_state,
  schedule_terminal, install_terminal, build_transaction, Signed, signed, refused, is_planning,
  calls_of, or_refuse,
}

-- The calls of the chain that a slot held.
abbrev pub older_calls : Option Chain → List PlannedCall
older_calls none = []
older_calls (some c) = c.calls

-- A call as it is planned.
abbrev pub unsent : ℕ → List ℕ → CallKind → PlannedCall
unsent target bytes kind = record {
  target_tick = target;
  tx_bytes = bytes;
  kind = kind;
  state = ready;
  broadcast = none;
  redundant_attempted = false;
}

older_calls_lem : (c : Option Chain) → calls_of c ≡ older_calls c
older_calls_lem none = refl
older_calls_lem (some c) = refl

-- A fresh chain at a target, after a successful `start_if_ready`.
pub record IsStarted (x : External) (tick : ℕ) (f g : Focus) : Type 0 where
  pub target : ℕ
  pub bytes : List ℕ
  pub state : g.slot.state ≡ starting target
  pub chain :
      g.slot.chain
      ≡ some (record {
        first_target = target;
        last_target = target;
        confirmed_through = none;
        status_suspicion = none;
        outstanding_preimage = x.fill_bytes f.drawn;
        calls = older_calls f.slot.chain ++ (unsent target bytes first_commit ∷ []);
      })
  pub drawn : g.drawn ≡ f.drawn + 1
  pub lead : tick + 6 ≤ target
  pub after_tail : f.slot.restart_at ≤ target
  pub on_stream : target % 3 ≡ f.slot.key.stream
  pub earliest :
      (t : ℕ) → tick + 6 ≤ t → f.slot.restart_at ≤ t → t % 3 ≡ f.slot.key.stream → target ≤ t
  pub signed :
      x.build_ticket_tx_bytes 3 f.collateral target 1
        (replicate 512 0 ++ x.kangaroo_twelve (x.fill_bytes f.drawn))
      ≡ some bytes

install_fresh_lem :
    (target : ℕ) (preimage : List ℕ) (built : Signed) (f g : Focus)
    → install_fresh target preimage built f ≡ (g, none)
    → (bytes : List ℕ) × (built ≡ signed bytes)
      × (g.slot.state ≡ starting target)
      × (g.slot.chain ≡ some (fresh_chain target preimage bytes f.slot.chain))
      × (g.drawn ≡ f.drawn)
unfolding install_fresh
install_fresh_lem target preimage (signed bytes) f g e =
    (bytes, refl, ground arith, ground arith, ground arith)
install_fresh_lem target preimage (refused error) f g e = absurd (ground arith)

start_at-IsStarted :
    (x : External) (tick target : ℕ) (f g : Focus)
    → f.slot.key.stream < 3
    → next_stream_tick (max (tick + 6) f.slot.restart_at) f.slot.key.stream ≡ some target
    → start_at x target f ≡ (g, none)
    → IsStarted x tick f g
unfolding start_at commit_digest random_preimage
start_at-IsStarted x tick target f g v n e =
    let at = (next_stream_tick_iff _ _ target v).0 n in
    let (bytes, built, state, chain, drawn) =
      install_fresh_lem target (random_preimage x f.drawn) _ (record f { drawn = f.drawn + 1 }) g
        e in
    let input : RevealAndCommitInput = record {
      reveal = replicate 512 0;
      commit = commit_digest x (random_preimage x f.drawn);
    } in
    record {
      target = target;
      bytes = bytes;
      state = state;
      chain = rw (← older_calls_lem f.slot.chain) chain;
      drawn = drawn;
      lead = omega (arith, at.from);
      after_tail = omega (arith, at.from);
      on_stream = at.on_stream;
      earliest = λ t a b s. at.first t s (omega arith);
      signed = (build_transaction-signed x f.collateral target input f.slot.key bytes built).0;
    }

-- A slot on a valid stream that start_if_ready starts without an error: the fresh chain begins
-- and ends at the first tick of the stream that is six ticks ahead or more and not before the
-- restart tick; its one call, ready to be sent, is what the wallet signed with zeros to reveal
-- and the hash of a freshly drawn preimage, which the chain holds; the calls of an older chain
-- stay in front.
pub start_if_ready-IsStarted :
    (x : External) (tick : ℕ) (f g : Focus)
    → f.slot.key.stream < 3
    → may_start f.slot.state ≡ true
    → start_if_ready x tick f ≡ (g, none)
    → IsStarted x tick f g
unfolding start_if_ready
start_if_ready-IsStarted x tick f g v m e = elim (Option-cases (checked_add tick 6)) [
  | inl o ↦ absurd (failed-eq-done (rw (m, o) at e))
  | inr (lead, o) ↦
      let same : lead ≡ tick + 6 = ground arith in
      elim (Option-cases (next_stream_tick (max lead f.slot.restart_at) f.slot.key.stream)) [
        | inl n ↦ absurd (failed-eq-done (rw (m, o, n) at e))
        | inr (target, n) ↦
            start_at-IsStarted x tick target f g v (rw (← same) n) (rw (m, o, n) at e)
      ]
]

abbrev pub wallet_answer : External → Focus → Chain → Option (List ℕ)
wallet_answer x f c =
    x.build_ticket_tx_bytes 3 f.collateral (c.last_target + 3) 1
      (c.outstanding_preimage ++ replicate 32 0)

-- The terminal reveal of a slot, or why there is none.
pub data Drains (x : External) (reason : DrainReason) (f : Focus) (c : Chain)
    : Attempt Focus → Type 0 where
  revealed :
      (bytes : List ℕ)
      → wallet_answer x f c ≡ some bytes
      → c.last_target + 3 ≤ u32_max
      → (c.last_target + 3) % 3 ≡ f.slot.key.stream
      → Drains x reason f c (
        record f {
          slot = record (f.slot) {
            state = draining reason (c.last_target + 3);
            chain = some (record c {
              calls = c.calls ++ (unsent (c.last_target + 3) bytes terminal_reveal ∷ []);
            });
          };
        },
        none,
      )
  no_tick : u32_max < c.last_target + 3 → Drains x reason f c (f, some terminal_target_overflowed)
  off_stream :
      (c.last_target + 3) % 3 ≢ f.slot.key.stream → Drains x reason f c (f, some wrong_stream)
  unsigned : wallet_answer x f c ≡ none → Drains x reason f c (f, some signing_failed)

-- What the wallet answers, for a tick that has a 32-bit number.
answered-Drains :
    (x : External) (reason : DrainReason) (f : Focus) (c : Chain)
    → c.last_target + 3 ≤ u32_max
    → Drains x reason f c (
        install_terminal reason
          (c.last_target + 3)
          c
          (build_transaction x f.collateral
            (record { reveal = c.outstanding_preimage; commit = replicate 32 0 })
            (c.last_target + 3)
            f.slot.key)
          f)
unfolding build_transaction or_refuse encode install_terminal
answered-Drains x reason f c l = elim (Bool-cases ((c.last_target + 3) % 3 == f.slot.key.stream)) [
  | inr n ↦ rw n (off_stream (ground arith))
  | inl e ↦ rw e (elim (Option-cases (wallet_answer x f c)) [
    | inl n ↦ rw n (unsigned n)
    | inr (bytes, n) ↦ rw n (revealed bytes n l (ground arith))
  ])
]

schedule_terminal-Drains :
    (x : External) (reason : DrainReason) (c : Chain) (f : Focus)
    → Drains x reason f c (schedule_terminal x reason (some c) f)
unfolding schedule_terminal
schedule_terminal-Drains x reason c f = elim (Option-cases (checked_add c.last_target 3)) [
  | inl o ↦ rw (o, schedule_terminal) (no_tick (ground arith))
  | inr (target, o) ↦
      let same : target ≡ c.last_target + 3 = ground arith in
      rw (o, schedule_terminal) (rw same (answered-Drains x reason f c (ground arith)))
]

drain_by_state-Drains :
    (x : External) (state : SlotState) (reason : DrainReason) (f : Focus) (c : Chain)
    → is_planning state ≡ true
    → f.slot.chain ≡ some c
    → Drains x reason f c (drain_by_state x state reason f)
unfolding drain_by_state is_planning
drain_by_state-Drains x (starting _) reason f c p h =
    subst (λ chain. Drains x reason f c (schedule_terminal x reason chain f)) (sym h)
      (schedule_terminal-Drains x reason c f)
drain_by_state-Drains x active reason f c p h =
    subst (λ chain. Drains x reason f c (schedule_terminal x reason chain f)) (sym h)
      (schedule_terminal-Drains x reason c f)
drain_by_state-Drains x (SlotState.waiting _ _) reason f c p h = cc
drain_by_state-Drains x (SlotState.restarting _ _ _ _) reason f c p h = cc
drain_by_state-Drains x (draining _ _) reason f c p h = cc
drain_by_state-Drains x (SlotState.drained _) reason f c p h = cc

-- A slot that plans calls for a chain, when enter_drain drains it: either it gets one more call,
-- a round after the last one and ready to be sent, that the wallet signed with the preimage
-- which the chain holds and a commitment of zeros, it drains until that tick for the given
-- reason, and all else of the slot and the chain stays; or the engine is left as it was, with
-- the error that tells why: the tick has no 32-bit number, it is not of the stream, or the
-- wallet refuses.
pub enter_drain-Drains :
    (x : External) (reason : DrainReason) (f : Focus) (c : Chain)
    → is_planning f.slot.state ≡ true
    → f.slot.chain ≡ some c
    → Drains x reason f c (enter_drain x reason f)
unfolding enter_drain
enter_drain-Drains x reason f c p h = drain_by_state-Drains x f.slot.state reason f c p h
