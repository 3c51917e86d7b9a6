-- ===== src/Epoch/Window.antt =====
-- src/engine.rs, `is_epoch_stop_window`: the window before the Wednesday noon of the epoch boundary.
use qubic_random_client.Base.{ℕ, ◌+◌, ◌%◌, ◌≤◌, ◌<◌, ◌≡◌, ◌↔◌, true, arith, min, leb}
use qubic_random_client.Epoch.{UtcTime, is_epoch_stop_window, seconds_of, until_boundary}

-- A time of the week as the calendar gives it.
pub record IsTime (t : UtcTime) : Type 0 where
  pub weekday : t.weekday < 7
  pub hour : t.hour < 24
  pub minute : t.minute < 60
  pub second : t.second < 60

seconds-below : (t : UtcTime) → IsTime t → seconds_of t < 604_800
seconds-below t v = omega (arith, v.weekday, v.hour, v.minute, v.second)

boundary_hits : (s : ℕ) → s < 604_800 → (s + until_boundary s) % 604_800 ≡ 216_000
boundary_hits s l = ground arith

boundary_near : (s : ℕ) → s < 604_800 → until_boundary s ≤ 604_800
boundary_near s l = ground arith

boundary_first : (s d : ℕ) → s < 604_800 → (s + d) % 604_800 ≡ 216_000 → until_boundary s ≤ d
boundary_first s d l h = ground arith

in_window : (b lead : ℕ) → (leb b (min lead 604_800) ≡ true) ↔ ((b ≤ lead) × (b ≤ 604_800))
in_window b lead = ground arith

-- For a time of the week, the window is entered exactly when a Wednesday noon, 216000 seconds after
-- the week's start modulo the week, comes within the lead time, that moment itself included.
pub is_epoch_stop_window_iff :
    (now : UtcTime) (lead : ℕ)
    → IsTime now
    → (is_epoch_stop_window now lead ≡ true)
      ↔ ((d : ℕ) × (d ≤ lead) × (d ≤ 604_800) × ((seconds_of now + d) % 604_800 ≡ 216_000))
unfolding is_epoch_stop_window
is_epoch_stop_window_iff now lead v =
    let s = seconds_of now in
    let l = seconds-below now v in
    let within = in_window (until_boundary s) lead in
    (
      λ h. (until_boundary s, (within.0 h).0, boundary_near s l, boundary_hits s l),
      λ (d, p, q, r). within.1 (omega (arith, p, boundary_first s d l r), boundary_near s l),
    )
