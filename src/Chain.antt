-- ===== src/Chain.antt =====
-- src/engine.rs, `PlannedCall` and `Chain`: the signed calls of one stream.
pub mod Targets
use qubic_random_client.Base.{
  ℕ, ◌+◌, ◌-◌, ◌*◌, ◌/◌, ◌%◌, Bool, true, false, ◌&&◌, List, [], ◌∷◌, Option, none, some, ◌==◌, leb,
  min, if◌then◌else◌, checked_add, checked_sub,
}
use qubic_random_client.Suspicion.{StatusSuspicion}

abbrev pub stream_count : ℕ
stream_count = 3

-- A task on the runtime, as its handle shows it: the runtime finishes it at any time, with the
-- value of its future or an error.
pub data NetworkTask {ℓ} (A : Type ℓ) : Type ℓ where
  running : NetworkTask A
  finished_ok : A → NetworkTask A
  finished_err : NetworkTask A

-- `JoinHandle::is_finished`.
abbrev pub is_finished {ℓ} : {A : Type ℓ} → NetworkTask A → Bool
is_finished running = false
is_finished (finished_ok _) = true
is_finished finished_err = true

pub data CallKind : Type 0 where
  first_commit reveal_and_commit terminal_reveal : CallKind

pub data BroadcastState : Type 0 where
  ready broadcasting retry accepted failed : BroadcastState

-- The text that a broadcast returns is only logged.
pub record PlannedCall : Type 0 where
  pub target_tick : ℕ
  pub tx_bytes : List ℕ
  pub kind : CallKind
  pub state : BroadcastState
  pub broadcast : Option (NetworkTask (Unit {0}))
  pub redundant_attempted : Bool

pub record Chain : Type 0 where
  pub first_target : ℕ
  pub last_target : ℕ
  pub confirmed_through : Option ℕ
  pub status_suspicion : Option StatusSuspicion
  pub outstanding_preimage : List ℕ
  pub calls : List PlannedCall

-- `Chain::owns_target`.
unfoldable pub owns_target : Chain → ℕ → Bool
owns_target c target =
    leb c.first_target target
    && leb target c.last_target
    && ((target - c.first_target) % stream_count == 0)

-- `Chain::latest_target_before`; `checked_div` and `checked_mul` by 3 below the distance succeed.
unfoldable pub latest_target_before : Chain → ℕ → Option ℕ
latest_target_before c tick = elim (checked_sub tick 1) [
  | none ↦ none
  | some before ↦ elim (checked_sub (min before c.last_target) c.first_target) [
    | none ↦ none
    | some distance ↦ checked_add c.first_target (distance / stream_count * stream_count)
  ]
]

-- `next_stream_tick`.
unfoldable pub next_stream_tick : ℕ → ℕ → Option ℕ
next_stream_tick at_or_after stream =
    checked_add at_or_after ((stream + stream_count - at_or_after % stream_count) % stream_count)
