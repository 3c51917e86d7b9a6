-- ===== src/Epoch.antt =====
-- src/engine.rs: the epoch phase, and the wall-clock window before the epoch boundary.
pub mod Window
use qubic_random_client.Base.{ℕ, ◌+◌, ◌-◌, ◌*◌, ◌≤◌, leb, if◌then◌else◌, Bool, min}

-- `chrono::DateTime<Utc>` as the engine reads it; weekdays count from Monday, 0.
pub record UtcTime : Type 0 where
  pub weekday : ℕ
  pub hour : ℕ
  pub minute : ℕ
  pub second : ℕ

abbrev pub seconds_per_day : ℕ
seconds_per_day = 86_400

abbrev pub seconds_per_week : ℕ
seconds_per_week = 604_800

abbrev pub wednesday_noon : ℕ
wednesday_noon = 216_000

abbrev pub seconds_of : UtcTime → ℕ
seconds_of t = t.weekday * seconds_per_day + t.hour * 60 * 60 + t.minute * 60 + t.second

-- `until_boundary` in `is_epoch_stop_window`.
abbrev pub until_boundary : ℕ → ℕ
until_boundary seconds =
    if leb seconds wednesday_noon
    then wednesday_noon - seconds
    else seconds_per_week - (seconds - wednesday_noon)

-- `is_epoch_stop_window`.
unfoldable pub is_epoch_stop_window : UtcTime → ℕ → Bool
is_epoch_stop_window now stop_lead_time_secs =
    leb (until_boundary (seconds_of now)) (min stop_lead_time_secs seconds_per_week)

pub data EpochPhase : Type 0 where
  warmup : ℕ → ℕ → EpochPhase
  active : ℕ → EpochPhase
  draining : ℕ → EpochPhase
