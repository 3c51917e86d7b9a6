-- ===== src/Backend/Qln/Fallback.antt =====
-- The initial tick of an epoch, which a light node need not tell.
use qubic_random_client.Base.{
  ℕ, ◌≤◌, ◌≡◌, ◌⊎◌, refl, false, List, [], ◌∷◌, some, ◌==◌, if◌then◌else◌, All, arith, inl, inr,
}
use qubic_random_client.Backend.{TickInfo}
use qubic_random_client.Backend.Qln.{
  TickStatus, QlnTickFallback, is_fallback_epoch, next_fallback, normalize_qln_tick_info,
}

-- The tick infos of the statuses that come one after the other.
pub told : QlnTickFallback → List TickStatus → List TickInfo
told fallback [] = []
told fallback (s ∷ rest) =
    let (info, next) = normalize_qln_tick_info s fallback in info ∷ told next rest

-- A status of the epoch that tells no initial tick, or this one.
abbrev pub Agrees : ℕ → ℕ → TickStatus → Type 0
Agrees epoch initial s = (s.epoch ≡ epoch) × ((s.initial_tick ≡ 0) ⊎ (s.initial_tick ≡ initial))

abbrev pub Told : ℕ → ℕ → TickInfo → Type 0
Told epoch initial info =
    (info.epoch ≡ epoch) × (info.initial_tick ≡ initial) × (1 ≤ info.tick_duration_ms)

abbrev at : ℕ → ℕ → QlnTickFallback
at epoch initial = record { epoch = some epoch; initial_tick = initial }

next_fallback-at :
    (epoch initial : ℕ) (s : TickStatus)
    → Agrees epoch initial s
    → next_fallback s (at epoch initial) ≡ at epoch initial
next_fallback-at epoch initial s (same, inl silent) = ground arith
next_fallback-at epoch initial s (same, inr told) = ground arith

told-Told :
    (epoch initial : ℕ) (statuses : List TickStatus)
    → All (Agrees epoch initial) statuses
    → All (Told epoch initial) (told (at epoch initial) statuses)
unfolding told normalize_qln_tick_info
told-Told epoch initial [] h = tt
told-Told epoch initial (s ∷ rest) (agrees, h) =
    rw (next_fallback-at epoch initial s agrees)
      ((agrees.0, refl, ground arith), told-Told epoch initial rest h)

-- The initial tick that the first status of an epoch gives: its own, or the tick where it was seen.
abbrev pub anchor : TickStatus → ℕ
anchor s = if s.initial_tick == 0 then s.tick else s.initial_tick

-- From the first status of an epoch on, as long as no status of it tells another initial tick, all
-- that is told of the epoch has one initial tick, the first status's or else the tick at which the
-- epoch was first seen, and a tick lasts for a millisecond or more.
pub normalize_qln_tick_info-Told :
    (fallback : QlnTickFallback) (first : TickStatus) (rest : List TickStatus)
    → is_fallback_epoch fallback.epoch first.epoch ≡ false
    → All (Agrees first.epoch (anchor first)) rest
    → All (Told first.epoch (anchor first)) (told fallback (first ∷ rest))
unfolding told normalize_qln_tick_info
normalize_qln_tick_info-Told fallback first rest new h =
    let start : next_fallback first fallback ≡ at first.epoch (anchor first) = ground arith in
    rw start ((refl, refl, ground arith), told-Told first.epoch (anchor first) rest h)
