-- ===== src/Monitor.antt =====
-- src/engine.rs: the financial counters of `ProviderEngine`, and its checks of target ticks.
pub mod Outcomes
pub mod Severity
pub mod Checks
pub mod Queue
use qubic_random_client.Base.{
  ℕ, ◌+◌, ◌-◌, Bool, true, false, List, [], ◌∷◌, Option, none, some, if◌then◌else◌,
  saturating_add64, lookup, insert_entry, u64_max, min,
}
use qubic_random_client.Backend.{TickTransactions}
use qubic_random_client.Chain.{NetworkTask}

pub data SendOutcome : Type 0 where
  ok failed empty : SendOutcome

-- `u64` counters.
pub record SendStats : Type 0 where
  pub ok_sends : ℕ
  pub failed_sends : ℕ
  pub empty_sends : ℕ

-- `SendStats::increment`.
unfoldable pub increment : SendOutcome → SendStats → SendStats
increment ok s = record s { ok_sends = saturating_add64 s.ok_sends 1 }
increment failed s = record s { failed_sends = saturating_add64 s.failed_sends 1 }
increment empty s = record s { empty_sends = saturating_add64 s.empty_sends 1 }

-- `SendStats::decrement`.
unfoldable pub decrement : SendOutcome → SendStats → SendStats
decrement ok s = record s { ok_sends = s.ok_sends - 1 }
decrement failed s = record s { failed_sends = s.failed_sends - 1 }
decrement empty s = record s { empty_sends = s.empty_sends - 1 }

pub record PendingTickCheck : Type 0 where
  pub target_tick : ℕ
  pub failures : ℕ
  pub task : NetworkTask TickTransactions

-- An entry of `ready_tick_checks`: the key's instant and tick, and the number of failures.
pub record ReadyCheck : Type 0 where
  pub at : ℕ
  pub tick : ℕ
  pub failures : ℕ

-- The fields of `ProviderEngine` that the slots share. Instants are milliseconds; `console_stats`
-- is what `console::set_send_stats` was last given, and `inclusions` the inclusion lines logged.
pub record Monitor : Type 0 where
  pub empty_tick_check_interval : ℕ
  pub reveal_check_delay_ticks : ℕ
  pub send_stats : SendStats
  pub send_outcomes : List (ℕ × SendOutcome)
  pub console_stats : Option SendStats
  pub pending_tick_checks : List ℕ
  pub ready_tick_checks : List ReadyCheck
  pub queued_target_ticks : List ℕ
  pub checked_target_ticks : List ℕ
  pub target_digests : List (ℕ × List ℕ)
  pub tick_check : Option PendingTickCheck
  pub next_tick_check_at : ℕ
  pub oldest_tick_check : ℕ
  pub expired_tick_checks : ℕ
  pub next_monitor_log_at : ℕ
  pub inclusions : List (ℕ × Option Bool)

-- `transition_allowed` in `record_send_outcome`.
unfoldable pub transition_allowed : Option SendOutcome → SendOutcome → Bool
transition_allowed none next = true
transition_allowed (some ok) failed = true
transition_allowed (some ok) empty = true
transition_allowed (some failed) empty = true
transition_allowed _ _ = false

abbrev decrement_previous : Option SendOutcome → SendStats → SendStats
unfolding decrement
decrement_previous none s = s
decrement_previous (some previous) s = decrement previous s

-- `ProviderEngine::record_send_outcome`.
unfoldable pub record_send_outcome : ℕ → SendOutcome → Monitor → Monitor
unfolding transition_allowed increment decrement decrement_previous
record_send_outcome target_tick next m =
    let previous = lookup target_tick m.send_outcomes in
    let stats = increment next (decrement_previous previous m.send_stats) in
    if transition_allowed previous next
    then record m {
      send_stats = stats;
      send_outcomes = insert_entry target_tick next m.send_outcomes;
      console_stats = some stats;
    }
    else m
