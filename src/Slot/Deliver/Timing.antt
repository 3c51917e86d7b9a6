-- ===== src/Slot/Deliver/Timing.antt =====
-- src/engine.rs, `broadcast_attempt_timeout`: the time limit of one broadcast attempt.
use qubic_random_client.Base.{ℕ, ◌-◌, ◌*◌, ◌/◌, min, max, u64_max}

-- `broadcast_attempt_timeout`, in milliseconds; `poll_interval` is 100 ms.
unfoldable pub broadcast_attempt_timeout : ℕ → ℕ → ℕ
broadcast_attempt_timeout lead_ticks tick_duration_ms =
    let remaining_ms = min (lead_ticks * max tick_duration_ms 1) u64_max in
    let reserve_ms = min remaining_ms 100 in
    let budget_ms = max (remaining_ms - reserve_ms) 1 in
    min (min (max (budget_ms / 2) 100) 2000) (max remaining_ms 1)
