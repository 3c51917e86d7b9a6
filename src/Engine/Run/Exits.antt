-- ===== src/Engine/Run/Exits.antt =====
-- src/engine.rs, `run`: what each way to leave the loop says of the engine.
use qubic_random_client.Base.{ℕ, ◌+◌, ◌≡◌, ◌≢◌, ◌≤◌, true, false, List, ◌∷◌, some, All}
use mathlib.Core.List.{Memᴰ}
use qubic_random_client.Slot.{ManagedSlot, DrainOutcome, drained, failed}
use qubic_random_client.Engine.{Engine}
use qubic_random_client.Engine.Run.{
  RunState, Iteration, Turn, Exit, Observer, exit, go_on, submitted, not_submitted, timed_out,
  observer_failed, drain_refused,
}

-- A drained slot whose secret, if it had one, was revealed.
abbrev pub IsSettled : ManagedSlot → Type 0
IsSettled s = (o : DrainOutcome) × (s.state ≡ drained o) × (o ≢ failed)

abbrev pub IsDrained : ManagedSlot → Type 0
IsDrained s = (o : DrainOutcome) × (s.state ≡ drained o)

-- A slot that is drained without its terminal reveal.
pub data HasFailed : List ManagedSlot → Type 0 where
  here : (s : ManagedSlot) (ss : List ManagedSlot) → s.state ≡ drained failed → HasFailed (s ∷ ss)
  there : (s : ManagedSlot) (ss : List ManagedSlot) → HasFailed ss → HasFailed (s ∷ ss)

-- The observer ended without a request.
abbrev IsBroken : Observer → Type 0
IsBroken Observer.waiting = ⊥
IsBroken (Observer.requested_at _) = ⊥
IsBroken _ = Unit

-- What a way to leave the loop says of the engine it leaves, after some iterations.
pub data Ended (is : List Iteration) : Exit → RunState → Type 0 where
  all_settled :
      (s : RunState) → s.shutting_down ≡ true → All IsSettled s.engine.slots → Ended is submitted s
  some_failed :
      (s : RunState)
      → s.shutting_down ≡ true
      → All IsDrained s.engine.slots
      → HasFailed s.engine.slots
      → Ended is not_submitted s
  late :
      (s : RunState) (deadline : ℕ) (i : Iteration)
      → s.shutdown_deadline ≡ some deadline
      → Memᴰ i is
      → deadline ≤ i.now
      → Ended is timed_out s
  unobserved :
      (s : RunState) (i : Iteration)
      → s.shutting_down ≡ false
      → Memᴰ i is
      → IsBroken i.observer
      → Ended is observer_failed s
  undrained :
      (s : RunState) (at : ℕ) (i : Iteration)
      → s.shutting_down ≡ true
      → s.shutdown_deadline ≡ some (at + 90_000)
      → Memᴰ i is
      → i.observer ≡ Observer.requested_at at
      → Ended is drain_refused s

-- What a turn that leaves the loop says; one that does not says nothing.
abbrev TurnEnds : List Iteration → Turn → Type 0
TurnEnds is (go_on s) = Unit
TurnEnds is (exit reason s) = Ended is reason s
