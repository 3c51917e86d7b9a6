-- ===== src/Slot/Deliver/Budget.antt =====
-- src/engine.rs, `broadcast_attempt_timeout`: the limit fits into the time that is left.
use qubic_random_client.Base.{ℕ, ◌+◌, ◌-◌, ◌*◌, ◌/◌, ◌≤◌, arith, max, min, u64_max}
use qubic_random_client.Slot.Deliver.Timing.{broadcast_attempt_timeout}

-- The time left until the target, in milliseconds.
abbrev pub remaining : ℕ → ℕ → ℕ
remaining lead_ticks tick_duration_ms = lead_ticks * max tick_duration_ms 1

-- The limit of an attempt is between 1 ms and two seconds, and, but for that first millisecond, no
-- longer than the time left until the target tick.
pub timeout-bounds :
    (lead_ticks tick_duration_ms : ℕ)
    → (1 ≤ broadcast_attempt_timeout lead_ticks tick_duration_ms)
      × (broadcast_attempt_timeout lead_ticks tick_duration_ms ≤ 2000)
      × (broadcast_attempt_timeout lead_ticks tick_duration_ms
          ≤ max (remaining lead_ticks tick_duration_ms) 1)
unfolding broadcast_attempt_timeout
timeout-bounds lead_ticks tick_duration_ms = go (remaining lead_ticks tick_duration_ms)
  where
    go :
        (n : ℕ)
        → let left = min n u64_max in
          let t = min (min (max ((max (left - min left 100) 1) / 2) 100) 2000) (max left 1) in
          (1 ≤ t) × (t ≤ 2000) × (t ≤ max n 1)
    go n = omega arith

-- When at least 300 ms are left, an attempt that runs into its limit leaves time for another one
-- and for a poll.
pub timeout-leaves_retry :
    (lead_ticks tick_duration_ms : ℕ)
    → 300 ≤ remaining lead_ticks tick_duration_ms
    → 2 * broadcast_attempt_timeout lead_ticks tick_duration_ms + 100
      ≤ remaining lead_ticks tick_duration_ms
unfolding broadcast_attempt_timeout
timeout-leaves_retry lead_ticks tick_duration_ms h = go (remaining lead_ticks tick_duration_ms) h
  where
    go :
        (n : ℕ)
        → 300 ≤ n
        → let left = min n u64_max in
          2 * min (min (max ((max (left - min left 100) 1) / 2) 100) 2000) (max left 1) + 100 ≤ n
    go n l = omega arith
