-- ===== src/Monitor/Queue/Once.antt =====
-- src/engine.rs: the operations on the tick checks keep a tick in one place, and check it once.
use qubic_random_client.Base.{
  ℕ, ◌+◌, ◌≤◌, ◌≡◌, refl, Bool, false, not, ◌&&◌, List, [], ◌∷◌, Option, none, some, arith, inl,
  inr, Bool-cases, Option-cases, if◌then◌else◌, leb, ◌==◌, insert, remove, contains,
}
use native.Mathlib.Decide.{ℕ_discrete}
use qubic_random_client.Backend.{TickTransactions}
use qubic_random_client.Chain.{NetworkTask, running, finished_ok, finished_err}
use qubic_random_client.Monitor.{
  Monitor, ReadyCheck, PendingTickCheck, SendOutcome, record_send_outcome,
}
use qubic_random_client.Monitor.Checks.{
  queue_tick_check, harvest_tick_check, harvest_check, harvest_result, insert_ready,
}
use qubic_random_client.Monitor.Queue.{
  count, Up, Up-insert, Up-remove, count-insert_new, count-insert_other, count-insert_some,
  count-remove, count-remove_other, count-contains, ready_count, ready_count-insert_new,
  ready_count-insert_other,
}

module _ (t : ℕ) where
  abbrev pub in_flight : Option PendingTickCheck → ℕ
  in_flight none = 0
  in_flight (some c) = if c.target_tick == t then 1 else 0

  -- How often the inclusion of the tick was told.
  abbrev pub told : List (ℕ × Option Bool) → ℕ
  told [] = 0
  told (e ∷ es) = (if e.0 == t then 1 else 0) + told es

  -- A queued tick is in one place: it is pending, ready or looked at. A tick whose inclusion was told
  -- is not queued, and is remembered as checked until it is too old to be queued.
  pub record IsOnce (m : Monitor) : Type 0 where
    pub ordered : Up 0 m.queued_target_ticks
    pub placed :
        count t m.pending_tick_checks + ready_count t m.ready_tick_checks + in_flight m.tick_check
        ≡ count t m.queued_target_ticks
    pub fresh : count t m.queued_target_ticks + told m.inclusions ≤ 1
    pub marked : m.oldest_tick_check ≤ t → told m.inclusions ≤ count t m.checked_target_ticks

  pub record_send_outcome-IsOnce :
      (u : ℕ) (o : SendOutcome) (m : Monitor) → IsOnce m → IsOnce (record_send_outcome u o m)
  unfolding record_send_outcome
  record_send_outcome-IsOnce u o m h = ground arith

  enqueue-IsOnce :
      (u : ℕ) (m : Monitor)
      → m.oldest_tick_check ≤ u
      → contains u m.checked_target_ticks ≡ false
      → contains u m.queued_target_ticks ≡ false
      → IsOnce m
      → IsOnce (record m {
        queued_target_ticks = insert u m.queued_target_ticks;
        pending_tick_checks = insert u m.pending_tick_checks;
      })
  enqueue-IsOnce u m l c q h = elim (ℕ_discrete u t) [
    | yes e ↦
        let unchecked : count t m.checked_target_ticks ≡ 0 =
          count-contains t m.checked_target_ticks (rw (← e) c) in
        let unqueued : count t m.queued_target_ticks ≡ 0 =
          count-contains t m.queued_target_ticks (rw (← e) q) in
        let marked = h.marked (omega arith) in
        let placed = h.placed in
        record {
          ordered = Up-insert 0 u m.queued_target_ticks (omega arith) h.ordered;
          placed = rw e (
              omega (
                arith,
                count-insert_new t m.pending_tick_checks (omega arith),
                count-insert_new t m.queued_target_ticks unqueued,
              ));
          fresh = rw e (omega (arith, count-insert_new t m.queued_target_ticks unqueued));
          marked = h.marked;
        }
    | no n ↦
        let fresh = h.fresh in
        let placed = h.placed in
        record {
          ordered = Up-insert 0 u m.queued_target_ticks (omega arith) h.ordered;
          placed = omega (
            arith,
            count-insert_other t u m.pending_tick_checks n,
            count-insert_other t u m.queued_target_ticks n,
          );
          fresh = omega (arith, count-insert_other t u m.queued_target_ticks n);
          marked = h.marked;
        }
  ]

  pub queue_tick_check-IsOnce : (u : ℕ) (m : Monitor) → IsOnce m → IsOnce (queue_tick_check u m)
  unfolding queue_tick_check
  queue_tick_check-IsOnce u m h =
      elim (Bool-cases (
        leb m.oldest_tick_check u
        && not (contains u m.checked_target_ticks)
        && not (contains u m.queued_target_ticks))) [
          | inl c ↦ rw c (enqueue-IsOnce u m (ground arith) (ground arith) (ground arith) h)
          | inr c ↦ rw c h
        ]

  -- The look at a tick is over: its entry in the sets changes hands, or goes.
  told_now-IsOnce :
      (u : ℕ) (seen : Option Bool) (digests : List (ℕ × List ℕ)) (m : Monitor)
      → in_flight m.tick_check ≡ (if u == t then 1 else 0)
      → IsOnce m
      → IsOnce (record m {
        tick_check = none;
        queued_target_ticks = remove u m.queued_target_ticks;
        checked_target_ticks = insert u m.checked_target_ticks;
        target_digests = digests;
        inclusions = (u, seen) ∷ m.inclusions;
      })
  told_now-IsOnce u seen digests m f h = elim (ℕ_discrete u t) [
    | yes e ↦
        let placed = h.placed in
        let fresh = h.fresh in
        let flight : in_flight m.tick_check ≡ 1 = ground arith in
        record {
          ordered = Up-remove 0 u m.queued_target_ticks h.ordered;
          placed = rw e (omega (arith, count-remove t 0 m.queued_target_ticks h.ordered));
          fresh = rw e (ground (arith, count-remove t 0 m.queued_target_ticks h.ordered));
          marked = λ l. rw e (ground (arith, count-insert_some t m.checked_target_ticks));
        }
    | no n ↦
        let placed = h.placed in
        let fresh = h.fresh in
        let flight : in_flight m.tick_check ≡ 0 = ground arith in
        record {
          ordered = Up-remove 0 u m.queued_target_ticks h.ordered;
          placed = omega (arith, count-remove_other t u m.queued_target_ticks n);
          fresh = ground (arith, count-remove_other t u m.queued_target_ticks n);
          marked = λ l.
              let k = h.marked l in ground (arith, count-insert_other t u m.checked_target_ticks n);
        }
  ]

  retried-IsOnce :
      (r : ReadyCheck) (m : Monitor)
      → in_flight m.tick_check ≡ (if r.tick == t then 1 else 0)
      → IsOnce m
      → IsOnce
          (record m { tick_check = none; ready_tick_checks = insert_ready r m.ready_tick_checks })
  retried-IsOnce r m f h = elim (ℕ_discrete r.tick t) [
    | yes e ↦
        let placed = h.placed in
        let fresh = h.fresh in
        let flight : in_flight m.tick_check ≡ 1 = ground arith in
        record {
          ordered = h.ordered;
          placed = omega (arith, ready_count-insert_new t r m.ready_tick_checks e (omega arith));
          fresh = h.fresh;
          marked = h.marked;
        }
    | no n ↦
        let placed = h.placed in
        let flight : in_flight m.tick_check ≡ 0 = ground arith in
        record {
          ordered = h.ordered;
          placed = omega (arith, ready_count-insert_other t r m.ready_tick_checks n);
          fresh = h.fresh;
          marked = h.marked;
        }
  ]

  harvest_check-IsOnce :
      (now : ℕ) (c : PendingTickCheck) (task : NetworkTask TickTransactions) (m : Monitor)
      → m.tick_check ≡ some c
      → IsOnce m
      → IsOnce (harvest_check now c task m)
  unfolding harvest_check harvest_result
  harvest_check-IsOnce now c running m e h = h
  harvest_check-IsOnce now c finished_err m e h = retried-IsOnce _ m (rw e refl) h
  harvest_check-IsOnce now c (finished_ok o) m e h =
      let checked = told_now-IsOnce c.target_tick _ _ m (rw e refl) h in
      elim (Bool-cases o.has_transactions) [
        | inl b ↦ rw b checked
        | inr b ↦ rw b (record_send_outcome-IsOnce c.target_tick SendOutcome.empty _ checked)
      ]

  pub harvest_tick_check-IsOnce :
      (now : ℕ) (m : Monitor) → IsOnce m → IsOnce (harvest_tick_check now m)
  unfolding harvest_tick_check
  harvest_tick_check-IsOnce now m h = elim (Option-cases m.tick_check) [
    | inl e ↦ rw (e, harvest_tick_check) h
    | inr (c, e) ↦ simp (e, harvest_tick_check) (harvest_check-IsOnce now c c.task m e h)
  ]
