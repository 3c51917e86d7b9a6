-- ===== src/Slot/Plan.antt =====
-- src/engine.rs: how a slot plans its calls: a fresh chain, its continuation, the terminal reveal.
pub mod Chains
pub mod Starts
pub mod Keeps
pub mod Ledger
pub mod Fresh
pub mod Continued
pub mod Continues
pub mod Succeeds
use qubic_random_client.Base.{
  ℕ, zero, suc, ◌+◌, ◌%◌, Bool, true, false, List, [], ◌∷◌, ◌++◌, Option, none, some, leb, ◌==◌,
  if◌then◌else◌, checked_add, saturating_add, replicate, max,
}
use qubic_random_client.Contract.{SlotKey, RevealAndCommitInput, encode}
use qubic_random_client.Entropy.{External, commit_digest, random_preimage}
use qubic_random_client.Chain.{
  Chain, PlannedCall, CallKind, first_commit, reveal_and_commit, terminal_reveal, ready,
  stream_count, next_stream_tick,
}
use qubic_random_client.Monitor.Checks.{mark_financial_failure}
use qubic_random_client.Slot.{
  SlotState, Focus, Attempt, ◌>>=◌, Error, DrainReason, waiting, starting, active, restarting,
  draining, drained, epoch, shutdown, nothing_to_drain, set_state, set_chain, lose_chain,
  initial_target_overflowed, stream_target_overflowed, planning_horizon_overflowed, no_local_chain,
  chain_disappeared, terminal_target_overflowed, wrong_stream, signing_failed,
}
use qubic_random_client.Slot.Deliver.{expire_calls}

abbrev pub send_lead_ticks : ℕ
send_lead_ticks = 6

abbrev pub random_contract_index : ℕ
random_contract_index = 3

abbrev pub reveal_and_commit_procedure : ℕ
reveal_and_commit_procedure = 1

pub data Signed : Type 0 where
  signed : List ℕ → Signed
  refused : Error → Signed

or_refuse : Option (List ℕ) → Signed
or_refuse none = refused signing_failed
or_refuse (some bytes) = signed bytes

-- `ProviderEngine::build_transaction`.
unfoldable pub build_transaction : External → ℕ → RevealAndCommitInput → ℕ → SlotKey → Signed
unfolding or_refuse encode
build_transaction x collateral input target_tick key =
    if target_tick % stream_count == key.stream
    then or_refuse (
        x.build_ticket_tx_bytes random_contract_index collateral target_tick
          reveal_and_commit_procedure (encode input))
    else refused wrong_stream

abbrev pub planned : ℕ → List ℕ → CallKind → PlannedCall
planned target_tick tx_bytes kind = record {
  target_tick = target_tick;
  tx_bytes = tx_bytes;
  kind = kind;
  state = ready;
  broadcast = none;
  redundant_attempted = false;
}

abbrev pub calls_of : Option Chain → List PlannedCall
calls_of none = []
calls_of (some chain) = chain.calls

-- The fresh chain of `start_if_ready`; the calls of an older chain stay in front.
abbrev pub fresh_chain : ℕ → List ℕ → List ℕ → Option Chain → Chain
fresh_chain target preimage tx_bytes old = record {
  first_target = target;
  last_target = target;
  confirmed_through = none;
  status_suspicion = none;
  outstanding_preimage = preimage;
  calls = calls_of old ++ planned target tx_bytes first_commit ∷ [];
}

install_fresh : ℕ → List ℕ → Signed → Focus → Attempt Focus
install_fresh target preimage (refused e) f = (f, some e)
install_fresh target preimage (signed tx_bytes) f = (
  record f {
    slot = record (f.slot) {
      chain = some (fresh_chain target preimage tx_bytes f.slot.chain);
      state = starting target;
    };
  },
  none,
)

-- `start_if_ready` from the target on.
start_at : External → ℕ → Focus → Attempt Focus
unfolding commit_digest random_preimage build_transaction install_fresh
start_at x target f =
    let preimage = random_preimage x f.drawn in
    let input : RevealAndCommitInput = record {
      reveal = replicate 512 0;
      commit = commit_digest x preimage;
    } in
    install_fresh target preimage (build_transaction x f.collateral input target f.slot.key)
      (record f { drawn = f.drawn + 1 })

-- The states from which `start_if_ready` goes on.
unfoldable pub may_start : SlotState → Bool
may_start (waiting _ observed) = observed
may_start (restarting _ _ observed none) = observed
may_start _ = false

-- `ProviderEngine::start_if_ready`.
unfoldable pub start_if_ready : External → ℕ → Focus → Attempt Focus
unfolding may_start next_stream_tick start_at
start_if_ready x current_tick f =
    if may_start f.slot.state
    then elim (checked_add current_tick send_lead_ticks) [
      | none ↦ (f, some initial_target_overflowed)
      | some lead ↦ elim (next_stream_tick (max lead f.slot.restart_at) f.slot.key.stream) [
        | none ↦ (f, some stream_target_overflowed)
        | some target ↦ start_at x target f
      ]
    ]
    else (f, none)

unfoldable pub is_planning : SlotState → Bool
is_planning (starting _) = true
is_planning active = true
is_planning _ = false

-- The chain after one more continuation.
abbrev pub continued : ℕ → List ℕ → List ℕ → Chain → Chain
continued target preimage tx_bytes chain = record chain {
  calls = chain.calls ++ planned target tx_bytes reveal_and_commit ∷ [];
  last_target = target;
  outstanding_preimage = preimage;
}

abbrev install_continuation : ℕ → List ℕ → Chain → Signed → Focus → Attempt Focus
install_continuation target preimage chain (refused e) f = (f, some e)
install_continuation target preimage chain (signed tx_bytes) f =
    (set_chain (some (continued target preimage tx_bytes chain)) f, none)

-- The body of the loop of `extend_chain`, for the next target.
unfoldable pub plan_next : External → ℕ → Chain → Focus → Attempt Focus
unfolding commit_digest random_preimage build_transaction
plan_next x target chain f =
    let preimage = random_preimage x f.drawn in
    let input : RevealAndCommitInput = record {
      reveal = chain.outstanding_preimage;
      commit = commit_digest x preimage;
    } in
    install_continuation target preimage chain
      (build_transaction x f.collateral input target f.slot.key) (record f { drawn = f.drawn + 1 })

-- The target of the next continuation, if it lies within the bound.
abbrev pub next_target : ℕ → Option Chain → Option ℕ
next_target bound none = none
next_target bound (some chain) = elim (checked_add chain.last_target stream_count) [
  | none ↦ none
  | some target ↦ if leb target bound then some target else none
]

unfoldable pub plan_in : External → ℕ → Option Chain → Focus → Attempt Focus
unfolding plan_next
plan_in x target none f = (f, some chain_disappeared)
plan_in x target (some chain) f = plan_next x target chain f

-- The loop of `extend_chain`, on fuel; out of fuel it stops where it is.
unfoldable pub plan_loop : External → ℕ → ℕ → Focus → Attempt Focus
unfolding plan_in
plan_loop x zero horizon f = (f, none)
plan_loop x (suc fuel) horizon f = elim (next_target horizon f.slot.chain) [
  | none ↦ (f, none)
  | some target ↦ plan_in x target f.slot.chain f >>= plan_loop x fuel horizon
]

-- `extend_chain` where a continuation was missed.
unfoldable pub give_up_missed : ℕ → ℕ → Focus → Focus
unfolding expire_calls is_planning lose_chain
give_up_missed missed_target current_tick f =
    let f' = expire_calls current_tick f in
    if is_planning f'.slot.state
    then lose_chain (saturating_add current_tick 1) false
        (record f' { monitor = mark_financial_failure missed_target f'.monitor })
    else f'

abbrev pub plan_fuel : ℕ
plan_fuel = 3

-- `ProviderEngine::extend_chain`.
unfoldable pub extend_chain : External → ℕ → Focus → Attempt Focus
unfolding is_planning give_up_missed plan_loop
extend_chain x current_tick f =
    if is_planning f.slot.state
    then elim (next_target current_tick f.slot.chain) [
      | some missed_target ↦ (give_up_missed missed_target current_tick f, none)
      | none ↦ elim (checked_add current_tick send_lead_ticks) [
        | none ↦ (f, some planning_horizon_overflowed)
        | some horizon ↦ plan_loop x plan_fuel horizon f
      ]
    ]
    else (f, none)

-- The reason that `enter_drain` leaves in a restarting slot.
unfoldable pub merge_reason : Option DrainReason → DrainReason → DrainReason
merge_reason _ shutdown = shutdown
merge_reason (some shutdown) epoch = shutdown
merge_reason _ epoch = epoch

abbrev pub with_terminal : ℕ → List ℕ → Chain → Chain
with_terminal target tx_bytes chain = record chain {
  calls = chain.calls ++ planned target tx_bytes terminal_reveal ∷ [];
}

install_terminal : DrainReason → ℕ → Chain → Signed → Focus → Attempt Focus
install_terminal reason target chain (refused e) f = (f, some e)
install_terminal reason target chain (signed tx_bytes) f = (
  record f {
    slot = record (f.slot) {
      chain = some (with_terminal target tx_bytes chain);
      state = draining reason target;
    };
  },
  none,
)

-- The end of `enter_drain`, for a slot that plans calls.
unfoldable pub schedule_terminal : External → DrainReason → Option Chain → Focus → Attempt Focus
unfolding build_transaction install_terminal
schedule_terminal x reason none f = (f, some no_local_chain)
schedule_terminal x reason (some chain) f = elim (checked_add chain.last_target stream_count) [
  | none ↦ (f, some terminal_target_overflowed)
  | some target ↦
      let input : RevealAndCommitInput = record {
        reveal = chain.outstanding_preimage;
        commit = replicate 32 0;
      } in
      install_terminal reason target chain
        (build_transaction x f.collateral input target f.slot.key) f
]

drain_by_state : External → SlotState → DrainReason → Focus → Attempt Focus
unfolding merge_reason schedule_terminal
drain_by_state x (draining _ _) reason f = (f, none)
drain_by_state x (drained _) reason f = (f, none)
drain_by_state x (waiting _ _) reason f = (set_state (drained nothing_to_drain) f, none)
drain_by_state x (restarting tail after observed old) reason f =
    (set_state (restarting tail after observed (some (merge_reason old reason))) f, none)
drain_by_state x (starting _) reason f = schedule_terminal x reason f.slot.chain f
drain_by_state x active reason f = schedule_terminal x reason f.slot.chain f

-- `ProviderEngine::enter_drain`.
unfoldable pub enter_drain : External → DrainReason → Focus → Attempt Focus
unfolding drain_by_state
enter_drain x reason f = drain_by_state x f.slot.state reason f
