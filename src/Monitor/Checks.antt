-- ===== src/Monitor/Checks.antt =====
-- src/engine.rs: the queue of target ticks that the engine looks at after the fact.
use qubic_random_client.Base.{
  ℕ, ◌+◌, ◌-◌, ◌*◌, ◌^◌, Bool, true, not, ◌&&◌, List, [], ◌∷◌, Option, none, some, ltb, leb, ◌==◌,
  if◌then◌else◌, is_some, saturating_add, saturating_add64, contains, insert, remove, lookup,
  remove_entry, retain, length, min, max,
}
use qubic_random_client.Backend.{TickTransactions, contains_digest}
use qubic_random_client.Chain.{NetworkTask, running, finished_ok}
use qubic_random_client.Monitor.{
  Monitor, ReadyCheck, PendingTickCheck, failed, empty, record_send_outcome,
}

-- `ProviderEngine::queue_tick_check`: `insert` says whether the tick is new.
unfoldable pub queue_tick_check : ℕ → Monitor → Monitor
queue_tick_check target_tick m =
    if leb m.oldest_tick_check target_tick
      && not (contains target_tick m.checked_target_ticks)
      && not (contains target_tick m.queued_target_ticks)
    then record m {
      queued_target_ticks = insert target_tick m.queued_target_ticks;
      pending_tick_checks = insert target_tick m.pending_tick_checks;
    }
    else m

-- `ProviderEngine::mark_financial_failure`.
unfoldable pub mark_financial_failure : ℕ → Monitor → Monitor
unfolding record_send_outcome queue_tick_check
mark_financial_failure target_tick m =
    queue_tick_check target_tick (record_send_outcome target_tick failed m)

abbrev pub tick_check_window : ℕ
tick_check_window = 32

abbrev pub monitor_log_interval : ℕ
monitor_log_interval = 60_000

-- The order of the keys `(Instant, u32)`.
abbrev pub key_lt : ReadyCheck → ReadyCheck → Bool
key_lt a b = if ltb a.at b.at then true else (a.at == b.at) && ltb a.tick b.tick

abbrev pub key_eq : ReadyCheck → ReadyCheck → Bool
key_eq a b = (a.at == b.at) && (a.tick == b.tick)

abbrev pub insert_ready : ReadyCheck → List ReadyCheck → List ReadyCheck
insert_ready r [] = r ∷ []
insert_ready r (x ∷ xs) =
    if key_lt r x then r ∷ x ∷ xs else if key_eq r x then r ∷ xs else x ∷ insert_ready r xs

abbrev pub remove_ready : ReadyCheck → List ReadyCheck → List ReadyCheck
remove_ready r [] = []
remove_ready r (x ∷ xs) = if key_eq r x then xs else x ∷ remove_ready r xs

-- `retry_delay` in `harvest_tick_check`.
unfoldable pub retry_delay : ℕ → ℕ
retry_delay failures = 1000 * min (2 ^ min failures 5) 30

inclusion : TickTransactions → Option (List ℕ) → Option Bool
unfolding contains_digest
inclusion observation none = none
inclusion observation (some digest) = contains_digest observation digest

-- The arms of `harvest_tick_check`, once the finished check is taken.
unfoldable pub harvest_result :
    ℕ → PendingTickCheck → NetworkTask TickTransactions → Monitor → Monitor
unfolding record_send_outcome inclusion retry_delay
harvest_result now check (finished_ok observation) m =
    let checked = record m {
      queued_target_ticks = remove check.target_tick m.queued_target_ticks;
      checked_target_ticks = insert check.target_tick m.checked_target_ticks;
      target_digests = remove_entry check.target_tick m.target_digests;
      inclusions =
          (check.target_tick, inclusion observation (lookup check.target_tick m.target_digests))
          ∷ m.inclusions;
    } in
    if observation.has_transactions
    then checked
    else record_send_outcome check.target_tick empty checked
harvest_result now check _ m = record m {
  ready_tick_checks =
      insert_ready
        (record {
          at = now + retry_delay check.failures;
          tick = check.target_tick;
          failures = saturating_add check.failures 1;
        })
        m.ready_tick_checks;
}

unfoldable pub harvest_check :
    ℕ → PendingTickCheck → NetworkTask TickTransactions → Monitor → Monitor
unfolding harvest_result
harvest_check now check running m = m
harvest_check now check task m = harvest_result now check task (record m { tick_check = none })

-- `ProviderEngine::harvest_tick_check`.
unfoldable pub harvest_tick_check : ℕ → Monitor → Monitor
unfolding harvest_check
harvest_tick_check now m = elim m.tick_check [
  | none ↦ m
  | some check ↦ harvest_check now check check.task m
]

abbrev pub drop_expired : ℕ → Option PendingTickCheck → Option PendingTickCheck
drop_expired oldest none = none
drop_expired oldest (some check) = if ltb check.target_tick oldest then none else some check

-- The end of `expire_tick_checks`: the expired checks are logged at most once a minute.
unfoldable pub log_expired : ℕ → Monitor → Monitor
log_expired now m =
    if not (m.expired_tick_checks == 0) && leb m.next_monitor_log_at now
    then record m { expired_tick_checks = 0; next_monitor_log_at = now + monitor_log_interval }
    else m

-- `ProviderEngine::expire_tick_checks`.
unfoldable pub expire_tick_checks : ℕ → ℕ → Monitor → Monitor
unfolding log_expired
expire_tick_checks current_tick now m =
    let oldest =
      max (current_tick - saturating_add m.reveal_check_delay_ticks tick_check_window)
        m.oldest_tick_check in
    let queued = retain (λ tick. leb oldest tick) m.queued_target_ticks in
    log_expired now (record m {
      oldest_tick_check = oldest;
      pending_tick_checks = retain (λ tick. leb oldest tick) m.pending_tick_checks;
      ready_tick_checks = retain (λ r. leb oldest r.tick) m.ready_tick_checks;
      queued_target_ticks = queued;
      checked_target_ticks = retain (λ tick. leb oldest tick) m.checked_target_ticks;
      target_digests = retain (λ e. leb oldest e.0) m.target_digests;
      tick_check = drop_expired oldest m.tick_check;
      expired_tick_checks =
          saturating_add64 m.expired_tick_checks (length m.queued_target_ticks - length queued);
    })

-- The `while let` loop of `ensure_tick_check`: due ticks leave `pending_tick_checks`, oldest first.
unfoldable pub promote_due : ℕ → ℕ → List ℕ → Monitor → Monitor
promote_due current_tick now [] m = record m { pending_tick_checks = [] }
promote_due current_tick now (t ∷ ts) m =
    let rest = promote_due current_tick now ts (record m {
      queued_target_ticks = insert t m.queued_target_ticks;
      ready_tick_checks =
          insert_ready (record { at = now; tick = t; failures = 0 }) m.ready_tick_checks;
    }) in
    if ltb current_tick (saturating_add t m.reveal_check_delay_ticks)
    then record m { pending_tick_checks = t ∷ ts }
    else rest

abbrev pub newer : Option ReadyCheck → ReadyCheck → Option ReadyCheck
newer none r = some r
newer (some best) r = if leb best.tick r.tick then some r else some best

-- `range(..=(now, u32::MAX)).max_by_key(tick)`: of equal keys the last is taken.
unfoldable pub newest_due : ℕ → List ReadyCheck → Option ReadyCheck → Option ReadyCheck
newest_due now [] best = best
newest_due now (r ∷ rs) best = newest_due now rs (if leb r.at now then newer best r else best)

unfoldable pub start_newest : ℕ → Monitor → Monitor
unfolding newest_due
start_newest now m = elim (newest_due now m.ready_tick_checks none) [
  | none ↦ m
  | some r ↦ record m {
    ready_tick_checks = remove_ready r m.ready_tick_checks;
    tick_check = some (record { target_tick = r.tick; failures = r.failures; task = running });
    next_tick_check_at = now + m.empty_tick_check_interval;
  }
]

-- `ProviderEngine::ensure_tick_check`: the clock is read by `expire_tick_checks`, and again here.
unfoldable pub ensure_tick_check : ℕ → ℕ → ℕ → Monitor → Monitor
unfolding expire_tick_checks promote_due start_newest
ensure_tick_check current_tick expire_now now m =
    let m' = expire_tick_checks current_tick expire_now m in
    if is_some m'.tick_check
    then m'
    else if ltb now m'.next_tick_check_at
    then m'
    else start_newest now (promote_due current_tick now m'.pending_tick_checks m')
