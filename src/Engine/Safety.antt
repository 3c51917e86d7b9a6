-- ===== src/Engine/Safety.antt =====
-- src/engine.rs: what holds of the engine in every history.
use qubic_random_client.Base.{
  ℕ, suc, ◌+◌, ◌%◌, ◌≤◌, ◌<◌, ◌≡◌, ◌≢◌, refl, ◌∙◌, List, [], ◌∷◌, ◌++◌, arith, All, if◌then◌else◌,
  ◌==◌, Option, some, none,
}
use native.Mathlib.Decide.{ℕ_discrete}
use qubic_random_client.Entropy.{External}
use qubic_random_client.Chain.{Chain}
use qubic_random_client.Slot.{
  ManagedSlot, SlotState, waiting, starting, active, restarting, draining, drained,
}
use qubic_random_client.Slot.Shape.{
  SignedCall, signed_calls, shape_in, shape_of, IsChain, IsFit, Ascends,
}
use qubic_random_client.Slot.Invariant.{Stands}
use qubic_random_client.Slot.Deliver.Timely.{IsTimely}
use qubic_random_client.Engine.{Engine}
use qubic_random_client.Engine.Phase.{new}
use qubic_random_client.Engine.Invariant.{IsEngine, OnStreams, streams}
use qubic_random_client.Engine.Ledger.{Rising}
use qubic_random_client.Engine.Events.{Event, history, history-IsEngine, new-IsEngine}

-- The targets of the calls that a slot holds.
abbrev targets : List SignedCall → List ℕ
targets [] = []
targets (c ∷ cs) = c.target_tick ∷ targets cs

abbrev signed_in : Option Chain → List SignedCall
signed_in none = []
signed_in (some c) = signed_calls c.calls

abbrev pub all_targets : List ManagedSlot → List ℕ
all_targets [] = []
all_targets (s ∷ ss) = targets (signed_in s.chain) ++ all_targets ss

-- How often a tick stands in a list.
abbrev pub count : ℕ → List ℕ → ℕ
count t [] = 0
count t (x ∷ xs) = (if x == t then 1 else 0) + count t xs

count-append : (t : ℕ) (xs ys : List ℕ) → count t (xs ++ ys) ≡ count t xs + count t ys
count-append t [] ys = omega arith
count-append t (x ∷ xs) ys = omega (arith, count-append t xs ys)

count-below : (b t : ℕ) (cs : List SignedCall) → Ascends b cs → t < b → count t (targets cs) ≡ 0
count-below b t [] a l = refl
count-below b t (c ∷ cs) a l = ground (arith, count-below (suc c.target_tick) t cs a.1)

count-ascending : (b t : ℕ) (cs : List SignedCall) → Ascends b cs → count t (targets cs) ≤ 1
count-ascending b t [] a = omega arith
count-ascending b t (c ∷ cs) a =
    ground (
      arith,
      count-ascending (suc c.target_tick) t cs a.1,
      count-below (suc c.target_tick) t cs a.1,
    )

count-foreign :
    (stream first last top t : ℕ) (cs : List SignedCall)
    → All (IsFit stream first last top) cs
    → t % 3 ≢ stream
    → count t (targets cs) ≡ 0
count-foreign stream first last top t [] h n = refl
count-foreign stream first last top t (c ∷ cs) h n =
    ground (arith, h.0.on_stream, count-foreign stream first last top t cs h.1)

-- A slot holds at most one call for a tick, and none for a tick of another stream.
record HoldsOnce (stream : ℕ) (chain : Option Chain) : Type 0 where
  once : (t : ℕ) → count t (targets (signed_in chain)) ≤ 1
  own : (t : ℕ) → t % 3 ≢ stream → count t (targets (signed_in chain)) ≡ 0

IsChain-HoldsOnce :
    (stream top : ℕ) (c : Chain) → IsChain stream top (shape_of c) → HoldsOnce stream (some c)
IsChain-HoldsOnce stream top c v = record {
  once = λ t. count-ascending 0 t (signed_calls c.calls) v.ascending;
  own = λ t. count-foreign stream c.first_target c.last_target top t (signed_calls c.calls) v.fit;
}

Stands-HoldsOnce :
    (stream : ℕ) (state : SlotState) (chain : Option Chain) (r : ℕ)
    → Stands stream state (shape_in chain) r
    → HoldsOnce stream chain
Stands-HoldsOnce stream state none r h = record { once = λ t. omega arith; own = λ t n. refl }
Stands-HoldsOnce stream (starting _) (some c) r h = IsChain-HoldsOnce stream _ c h.0
Stands-HoldsOnce stream active (some c) r h = IsChain-HoldsOnce stream _ c h
Stands-HoldsOnce stream (restarting _ _ _ _) (some c) r h = IsChain-HoldsOnce stream _ c h.0
Stands-HoldsOnce stream (draining _ _) (some c) r h = IsChain-HoldsOnce stream _ c h.0
Stands-HoldsOnce stream (waiting _ _) (some c) r h = absurd h
Stands-HoldsOnce stream (drained _) (some c) r h = absurd h

count-before :
    (b t : ℕ) (ks : List ℕ) (slots : List ManagedSlot)
    → Rising b ks
    → OnStreams ks slots
    → t % 3 < b
    → count t (all_targets slots) ≡ 0
count-before b t [] [] r h l = refl
count-before b t [] (s ∷ ss) r h l = absurd h
count-before b t (k ∷ ks) [] r h l = absurd h
count-before b t (k ∷ ks) (s ∷ ss) r h l =
    let held = Stands-HoldsOnce s.key.stream s.state s.chain s.restart_at h.0.stands in
    let e = h.1 in
    omega (
      arith,
      count-append t (targets (signed_in s.chain)) (all_targets ss),
      held.own t (omega arith),
      count-before (suc k) t ks ss r.1 h.2 (omega arith),
    )

count-OnStreams :
    (b t : ℕ) (ks : List ℕ) (slots : List ManagedSlot)
    → Rising b ks
    → OnStreams ks slots
    → count t (all_targets slots) ≤ 1
count-OnStreams b t [] [] r h = omega arith
count-OnStreams b t [] (s ∷ ss) r h = absurd h
count-OnStreams b t (k ∷ ks) [] r h = absurd h
count-OnStreams b t (k ∷ ks) (s ∷ ss) r h =
    let held = Stands-HoldsOnce s.key.stream s.state s.chain s.restart_at h.0.stands in
    let split = count-append t (targets (signed_in s.chain)) (all_targets ss) in
    let e = h.1 in
    elim (ℕ_discrete (t % 3) k) [
      | yes own ↦
          omega (arith, split, held.once t, count-before (suc k) t ks ss r.1 h.2 (omega arith))
      | no other ↦
          omega
            (arith, split, held.own t (λ d. other (d ∙ e)), count-OnStreams (suc k) t ks ss r.1 h.2)
    ]

module _ (x : External) (collateral stop resume interval delay now : ℕ) (events : List Event) where
  -- The engine after a history of cycles, shutdowns and ended network tasks, from its construction.
  abbrev reached : Engine
  reached = history x events (new collateral stop resume interval delay now)

  reached-IsEngine : IsEngine reached
  reached-IsEngine =
      history-IsEngine x events _ (new-IsEngine collateral stop resume interval delay now)

  -- In every history the three slots stay on streams 0, 1 and 2 and each is well formed: whether it
  -- holds a chain fits its state, the chain's targets lie in its stream and ascend strictly, with
  -- first commits, reveals and the terminal reveal in their places, and the ticks in the state agree
  -- with the chain.
  pub reached_slots : OnStreams streams reached.slots
  reached_slots = reached-IsEngine.slots_valid

  -- In every history every broadcast that was started was started before its target tick, and not
  -- earlier than six ticks before a first commit's target or four before a reveal's.
  pub reached-IsTimely : All IsTimely reached.outbox
  reached-IsTimely = reached-IsEngine.timely

  -- In every history no tick is the target of more than one of the calls that the engine holds,
  -- over all three streams and old tails included.
  pub one_call_per_tick : (t : ℕ) → count t (all_targets reached.slots) ≤ 1
  one_call_per_tick t = count-OnStreams 0 t streams reached.slots (omega arith) reached_slots
