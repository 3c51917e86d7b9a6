-- ===== src/Chain/Targets.antt =====
-- Which ticks a chain owns, and the planning of its first.
use qubic_random_client.Base.{
  ℕ, ◌+◌, ◌-◌, ◌*◌, ◌/◌, ◌%◌, ◌≤◌, ◌<◌, ◌≡◌, ◌≢◌, ◌↔◌, true, some, none, arith, u32_max,
  Option-cases, inl, inr, ap, ◌∙◌,
}
use qubic_random_client.Chain.{Chain, owns_target, latest_target_before, next_stream_tick}

-- A chain owns exactly the ticks that are a whole number of rounds after its first target, up to
-- its last one.
pub owns_target_iff :
    (c : Chain) (t : ℕ)
    → (owns_target c t ≡ true) ↔ ((k : ℕ) × (t ≡ c.first_target + 3 * k) × (t ≤ c.last_target))
unfolding owns_target
owns_target_iff c t =
    (λ h. ((t - c.first_target) / 3, ground arith, ground arith), λ (k, e, l). ground arith)

-- The latest target that a chain owns before a tick.
pub record IsLatest (c : Chain) (tick t : ℕ) : Type 0 where
  pub owned : owns_target c t ≡ true
  pub before : t < tick
  pub latest : (u : ℕ) → owns_target c u ≡ true → u < tick → u ≤ t

latest_target_before-owned :
    (c : Chain) (tick t : ℕ)
    → c.last_target ≤ u32_max
    → latest_target_before c tick ≡ some t
    → IsLatest c tick t
unfolding latest_target_before owns_target
latest_target_before-owned c tick t hl h = record {
  owned = ground arith;
  before = ground arith;
  latest = λ u o l. ground arith;
}

latest_target_before-least :
    (c : Chain) (tick u : ℕ)
    → c.last_target ≤ u32_max
    → latest_target_before c tick ≡ none
    → owns_target c u ≡ true
    → tick ≤ u
unfolding latest_target_before owns_target
latest_target_before-least c tick u hl h o = ground arith

-- For a chain whose last target is a 32-bit tick, the search by division finds a target exactly
-- when it is the latest that the chain owns before the tick; in particular it finds none only where
-- the chain owns none before the tick.
pub latest_target_before_iff :
    (c : Chain) (tick t : ℕ)
    → c.last_target ≤ u32_max
    → (latest_target_before c tick ≡ some t) ↔ IsLatest c tick t
latest_target_before_iff c tick t hl = (latest_target_before-owned c tick t hl, back)
  where
    back : IsLatest c tick t → latest_target_before c tick ≡ some t
    back v = elim (Option-cases (latest_target_before c tick)) [
      | inl e ↦ absurd (omega (arith, latest_target_before-least c tick t hl e v.owned, v.before))
      | inr (u, e) ↦
          let found = latest_target_before-owned c tick u hl e in
          e
          ∙ ap some
              (omega (arith, found.latest t v.owned v.before, v.latest u found.owned found.before))
    ]

-- The first tick of a stream at or after another, among the 32-bit ticks.
pub record IsFirstOf (stream n t : ℕ) : Type 0 where
  pub on_stream : t % 3 ≡ stream
  pub from : n ≤ t
  pub in_u32 : t ≤ u32_max
  pub first : (u : ℕ) → u % 3 ≡ stream → n ≤ u → t ≤ u

next_stream_tick-first : (n s t : ℕ) → s < 3 → next_stream_tick n s ≡ some t → IsFirstOf s n t
unfolding next_stream_tick
next_stream_tick-first n s t hs h = record {
  on_stream = ground arith;
  from = ground arith;
  in_u32 = ground arith;
  first = λ u o l. ground arith;
}

next_stream_tick-overflow :
    (n s t : ℕ) → s < 3 → next_stream_tick n s ≡ none → t % 3 ≡ s → n ≤ t → u32_max < t
unfolding next_stream_tick
next_stream_tick-overflow n s t hs h e l = ground arith

-- For one of the three streams, the planned tick is the first of the stream at or after the given
-- one: it is found exactly when it is a 32-bit tick.
pub next_stream_tick_iff : (n s t : ℕ) → s < 3 → (next_stream_tick n s ≡ some t) ↔ IsFirstOf s n t
next_stream_tick_iff n s t hs = (next_stream_tick-first n s t hs, back)
  where
    back : IsFirstOf s n t → next_stream_tick n s ≡ some t
    back v = elim (Option-cases (next_stream_tick n s)) [
      | inl e ↦
          absurd (omega (arith, next_stream_tick-overflow n s t hs e v.on_stream v.from, v.in_u32))
      | inr (u, e) ↦
          let found = next_stream_tick-first n s u hs e in
          e
          ∙ ap some (
              omega (arith, found.first t v.on_stream v.from, v.first u found.on_stream found.from))
    ]

-- Two ticks of room are enough for the search to find a tick.
pub next_stream_tick_found : (n s : ℕ) → n + 2 ≤ u32_max → next_stream_tick n s ≢ none
unfolding next_stream_tick
next_stream_tick_found n s l h = ground arith
