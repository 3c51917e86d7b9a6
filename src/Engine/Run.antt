-- ===== src/Engine/Run.antt =====
-- src/engine.rs: the run loop and the end of the program.
pub mod Exits
pub mod Deadline
use qubic_random_client.Base.{
  ℕ, ◌+◌, Bool, true, false, not, ◌&&◌, List, [], ◌∷◌, Option, none, some, leb, if◌then◌else◌, all,
  is_some_and,
}
use qubic_random_client.Entropy.{External}
use qubic_random_client.Slot.{SlotState, Attempt, shutdown, drained, failed}
use qubic_random_client.Slot.Plan.{enter_drain}
use qubic_random_client.Engine.{Engine, each_slot}
use qubic_random_client.Engine.Cycle.{CycleInput, cycle}

abbrev pub is_drained : SlotState → Bool
is_drained (drained _) = true
is_drained _ = false

abbrev pub is_drained_failed : SlotState → Bool
is_drained_failed (drained failed) = true
is_drained_failed _ = false

-- `ProviderEngine::shutdown_complete`.
unfoldable pub shutdown_complete : Engine → Bool
shutdown_complete e = all (λ s. is_drained s.state) e.slots

-- `ProviderEngine::shutdown_failed`.
unfoldable pub shutdown_failed : Engine → Bool
shutdown_failed e = not (all (λ s. not (is_drained_failed s.state)) e.slots)

abbrev pub shutdown_timeout : ℕ
shutdown_timeout = 90_000

-- The local variables of `run`.
pub record RunState : Type 0 where
  pub engine : Engine
  pub shutting_down : Bool
  pub shutdown_deadline : Option ℕ

-- What the shutdown observer has to tell, once it is finished.
pub data Observer : Type 0 where
  waiting : Observer
  failed_to_join observer_error : Observer
  requested_at : ℕ → Observer

pub record Iteration : Type 0 where
  pub now : ℕ
  pub input : CycleInput
  pub observer : Observer

pub data Exit : Type 0 where
  submitted not_submitted timed_out observer_failed drain_refused : Exit

pub data Turn : Type 0 where
  go_on : RunState → Turn
  exit : Exit → RunState → Turn

-- A refused drain ends the run, in the state that the drains leave.
after_drain : RunState → Attempt Engine → Turn
after_drain s (e, none) = go_on (record s { engine = e })
after_drain s (e, some _) = exit drain_refused (record s { engine = e })

-- The shutdown and its deadline are set before the drains.
begin_shutdown : External → ℕ → RunState → Turn
unfolding after_drain
begin_shutdown x at s =
    after_drain
      (record s { shutting_down = true; shutdown_deadline = some (at + shutdown_timeout) })
      (each_slot (enter_drain x shutdown) s.engine)

-- The end of an iteration: a finished observer starts the shutdown, once.
observe_shutdown : External → Observer → RunState → Turn
unfolding begin_shutdown
observe_shutdown x waiting s = go_on s
observe_shutdown x failed_to_join s = if s.shutting_down then go_on s else exit observer_failed s
observe_shutdown x observer_error s = if s.shutting_down then go_on s else exit observer_failed s
observe_shutdown x (requested_at at) s = if s.shutting_down then go_on s else begin_shutdown x at s

-- One turn of the loop of `ProviderEngine::run`. The error of a cycle is logged, and what the cycle
-- changed stays.
unfoldable pub run_turn : External → Iteration → RunState → Turn
unfolding observe_shutdown
run_turn x i s =
    if s.shutting_down && shutdown_complete s.engine
    then exit (if shutdown_failed s.engine then not_submitted else submitted) s
    else if is_some_and s.shutdown_deadline (λ deadline. leb deadline i.now)
    then exit timed_out s
    else observe_shutdown x i.observer (record s { engine = (cycle x i.input s.engine).0 })

unfoldable pub run_from : External → List Iteration → RunState → Turn
run_from x [] s = go_on s
run_from x (i ∷ is) s = elim (run_turn x i s) [
  | go_on s' ↦ run_from x is s'
  | exit reason s' ↦ exit reason s'
]

-- `ProviderEngine::run`.
unfoldable pub run : External → List Iteration → Engine → Turn
unfolding run_from
run x is e = run_from x is (record { engine = e; shutting_down = false; shutdown_deadline = none })
