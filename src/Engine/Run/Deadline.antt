-- ===== src/Engine/Run/Deadline.antt =====
-- src/engine.rs, `run`: a requested shutdown ends the loop.
use qubic_random_client.Base.{
  ℕ, ◌+◌, ◌≡◌, ◌≤◌, refl, true, false, List, [], ◌∷◌, ◌++◌, some, none, arith, All, All-map, inl,
  inr, Bool-cases, is_some_and, leb, ◌&&◌,
}
use qubic_random_client.Entropy.{External}
use qubic_random_client.Slot.{Attempt}
use qubic_random_client.Engine.Cycle.{cycle}
use qubic_random_client.Engine.{Engine}
use qubic_random_client.Engine.Run.{
  run, run_from, run_turn, observe_shutdown, begin_shutdown, after_drain, RunState, Iteration, Turn,
  Observer, requested_at, exit, go_on, shutdown_complete, shutdown_timeout,
}

abbrev pub Exits : Turn → Type 0
Exits (go_on s) = ⊥
Exits (exit reason s) = Unit

-- The loop is left, or goes on in such a state.
abbrev Stays : (RunState → Type 0) → Turn → Type 0
Stays P (go_on s) = P s
Stays P (exit reason s) = Unit

Exits-Stays : (t : Turn) → Exits t → Stays (λ s. ⊥) t
Exits-Stays (go_on s) k = k
Exits-Stays (exit reason s) k = tt

record IsRunning (s : RunState) : Type 0 where
  not_down : s.shutting_down ≡ false
  no_deadline : s.shutdown_deadline ≡ none

record IsStopping (at : ℕ) (s : RunState) : Type 0 where
  down : s.shutting_down ≡ true
  deadline : s.shutdown_deadline ≡ some (at + shutdown_timeout)

after_drain-Stays :
    (at : ℕ) (s : RunState) (m : Attempt Engine)
    → IsStopping at s
    → Stays (IsStopping at) (after_drain s m)
unfolding after_drain
after_drain-Stays at s (e, none) h = record { down = h.down; deadline = h.deadline }
after_drain-Stays at s (e, some _) h = tt

begin-Stays : (x : External) (at : ℕ) (s : RunState) → Stays (IsStopping at) (begin_shutdown x at s)
unfolding begin_shutdown
begin-Stays x at s =
    after_drain-Stays at
      (record s { shutting_down = true; shutdown_deadline = some (at + shutdown_timeout) }) _
      (record { down = refl; deadline = refl })

module _ (x : External) where
  observe_later :
      (at : ℕ) (o : Observer) (s : RunState)
      → IsStopping at s
      → Stays (IsStopping at) (observe_shutdown x o s)
  unfolding observe_shutdown
  observe_later at Observer.waiting s h = h
  observe_later at Observer.failed_to_join s h = simp (h.down) h
  observe_later at Observer.observer_error s h = simp (h.down) h
  observe_later at (requested_at _) s h = simp (h.down) h

  -- A turn before the deadline, or the turn that ends the loop.
  later_turn :
      (at : ℕ) (i : Iteration) (s : RunState)
      → IsStopping at s
      → Stays (IsStopping at) (run_turn x i s)
  unfolding run_turn
  later_turn at i s h = elim (Bool-cases (s.shutting_down && shutdown_complete s.engine)) [
    | inl c ↦ simp c tt
    | inr c ↦ elim (Bool-cases (is_some_and s.shutdown_deadline (λ deadline. leb deadline i.now))) [
      | inl l ↦ simp (c, l) tt
      | inr l ↦
          simp (c, l)
            (observe_later at i.observer _ (record { down = h.down; deadline = h.deadline }))
    ]
  ]

  late_turn :
      (at : ℕ) (i : Iteration) (s : RunState)
      → IsStopping at s
      → at + shutdown_timeout ≤ i.now
      → Exits (run_turn x i s)
  unfolding run_turn
  late_turn at i s h l = elim (Bool-cases (s.shutting_down && shutdown_complete s.engine)) [
    | inl c ↦ simp c tt
    | inr c ↦
        let due : is_some_and s.shutdown_deadline (λ deadline. leb deadline i.now) ≡ true =
          rw (h.deadline) (ground arith) in
        simp (c, due) tt
  ]

  early_turn :
      (i : Iteration) (s : RunState)
      → i.observer ≡ Observer.waiting
      → IsRunning s
      → Stays IsRunning (run_turn x i s)
  unfolding run_turn observe_shutdown
  early_turn i s o h =
      simp (h.not_down, h.no_deadline, o) (record { not_down = refl; no_deadline = refl })

  request_turn :
      (at : ℕ) (i : Iteration) (s : RunState)
      → i.observer ≡ requested_at at
      → IsRunning s
      → Stays (IsStopping at) (run_turn x i s)
  unfolding run_turn observe_shutdown
  request_turn at i s o h =
      simp (h.not_down, h.no_deadline, o)
        (begin-Stays x at (record s { engine = (cycle x i.input s.engine).0 }))

  -- A turn, and what the rest of the loop does with the state it leaves.
  after_turn :
      (P : RunState → Type 0) (i : Iteration) (is : List Iteration) (s : RunState)
      → Stays P (run_turn x i s)
      → ((s' : RunState) → P s' → Exits (run_from x is s'))
      → Exits (run_from x (i ∷ is) s)
  unfolding run_from
  after_turn P i is s h rest = go (run_turn x i s) h
    where
      go :
          (t : Turn)
          → Stays P t
          → Exits (elim t [ go_on s' ↦ run_from x is s' | exit reason s' ↦ exit reason s' ])
      go (go_on s') k = rest s' k
      go (exit reason s') k = tt

  after_turns :
      (P : RunState → Type 0) (is rest : List Iteration)
      → All (λ i. (s : RunState) → P s → Stays P (run_turn x i s)) is
      → ((s : RunState) → P s → Exits (run_from x rest s))
      → (s : RunState) → P s
      → Exits (run_from x (is ++ rest) s)
  after_turns P [] rest k ends s h = ends s h
  after_turns P (i ∷ is) rest k ends s h =
      after_turn P i (is ++ rest) s (k.0 s h) (after_turns P is rest k.1 ends)

-- If the observer waits in the iterations before it, and then an iteration's observer reports a
-- shutdown requested at some instant, the loop is left, at the latest in any later iteration
-- whose clock reads ninety seconds or more after that instant, whatever the cycles do.
pub run-Exits :
    (x : External) (e : Engine) (at : ℕ) (before between after : List Iteration)
    (request late : Iteration)
    → All (λ i. i.observer ≡ Observer.waiting) before
    → request.observer ≡ requested_at at
    → at + shutdown_timeout ≤ late.now
    → Exits (run x (before ++ (request ∷ (between ++ (late ∷ after)))) e)
unfolding run
run-Exits x e at before between after request late waits asked l =
    after_turns x IsRunning before (request ∷ (between ++ (late ∷ after)))
      (All-map _ _ (λ i o s. early_turn x i s o) before waits)
      (λ s h.
        after_turn x (IsStopping at) request (between ++ late ∷ after) s
          (request_turn x at request s asked h)
          (after_turns x (IsStopping at) between (late ∷ after) (stopping between)
            (λ s' k. late_exit s' (late_turn x at late s' k l))))
      (record { engine = e; shutting_down = false; shutdown_deadline = none })
      (record { not_down = refl; no_deadline = refl })
  where
    stopping :
        (is : List Iteration)
        → All (λ i. (s : RunState) → IsStopping at s → Stays (IsStopping at) (run_turn x i s)) is
    stopping [] = tt
    stopping (i ∷ is) = (later_turn x at i, stopping is)

    late_exit : (s : RunState) → Exits (run_turn x late s) → Exits (run_from x (late ∷ after) s)
    late_exit s k =
        after_turn x (λ s'. ⊥) late after s (Exits-Stays (run_turn x late s) k) (λ s' h. absurd h)
