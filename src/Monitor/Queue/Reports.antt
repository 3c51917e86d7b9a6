-- ===== src/Monitor/Queue/Reports.antt =====
-- src/engine.rs: expiry and the start of tick checks, and what follows for the ticks told.
use qubic_random_client.Base.{
  ℕ, ◌+◌, ◌≤◌, ◌≡◌, refl, false, List, [], ◌∷◌, Option, none, some, arith, inl, inr, Bool-cases,
  Option-cases, if◌then◌else◌, leb, ltb, insert, retain, is_some, saturating_add,
}
use native.Mathlib.Decide.{ℕ_discrete}
use qubic_random_client.Chain.{running}
use qubic_random_client.Monitor.{Monitor, ReadyCheck, PendingTickCheck}
use qubic_random_client.Monitor.Checks.{
  expire_tick_checks, ensure_tick_check, promote_due, start_newest, log_expired, drop_expired,
  newest_due, insert_ready, remove_ready,
}
use qubic_random_client.Monitor.Queue.{
  count, Up-insert, Up-retain, count-insert, count-insert_other, count-retain,
  ready_count-insert_new, ready_count-insert_other, ready_count-retain, ready_count-remove,
  ready_count-remove_other, newest_due-has_ready,
}
use qubic_random_client.Monitor.Queue.Once.{IsOnce, in_flight}

module _ (t : ℕ) where
  in_flight-drop_expired :
      (oldest : ℕ) (c : Option PendingTickCheck)
      → in_flight t (drop_expired oldest c) ≡ (if leb oldest t then in_flight t c else 0)
  in_flight-drop_expired oldest none = ground arith
  in_flight-drop_expired oldest (some c) = ground arith

  log_expired-IsOnce : (now : ℕ) (m : Monitor) → IsOnce t m → IsOnce t (log_expired now m)
  unfolding log_expired
  log_expired-IsOnce now m h = ground arith

  expire_from-IsOnce :
      (oldest expired : ℕ) (digests : List (ℕ × List ℕ)) (m : Monitor)
      → m.oldest_tick_check ≤ oldest
      → IsOnce t m
      → IsOnce t (record m {
        oldest_tick_check = oldest;
        pending_tick_checks = retain (λ tick. leb oldest tick) m.pending_tick_checks;
        ready_tick_checks = retain (λ r. leb oldest r.tick) m.ready_tick_checks;
        queued_target_ticks = retain (λ tick. leb oldest tick) m.queued_target_ticks;
        checked_target_ticks = retain (λ tick. leb oldest tick) m.checked_target_ticks;
        target_digests = digests;
        tick_check = drop_expired oldest m.tick_check;
        expired_tick_checks = expired;
      })
  expire_from-IsOnce oldest expired digests m l h =
      let placed = h.placed in
      let fresh = h.fresh in
      let queued = count-retain t (λ tick. leb oldest tick) m.queued_target_ticks in
      record {
        ordered = Up-retain (λ tick. leb oldest tick) 0 m.queued_target_ticks h.ordered;
        placed = ground (
          arith,
          queued,
          count-retain t (λ tick. leb oldest tick) m.pending_tick_checks,
          ready_count-retain t (λ tick. leb oldest tick) m.ready_tick_checks,
          in_flight-drop_expired oldest m.tick_check,
        );
        fresh = ground (arith, queued);
        marked = λ k.
            let kept = h.marked (omega arith) in
            ground (arith, count-retain t (λ tick. leb oldest tick) m.checked_target_ticks);
      }

  pub expire_tick_checks-IsOnce :
      (tick now : ℕ) (m : Monitor) → IsOnce t m → IsOnce t (expire_tick_checks tick now m)
  unfolding expire_tick_checks
  expire_tick_checks-IsOnce tick now m h =
      log_expired-IsOnce now _ (expire_from-IsOnce _ _ _ m (ground arith) h)

  -- A tick that is due moves from the pending to the ready ones.
  promoted-IsOnce :
      (now u : ℕ) (us : List ℕ) (m : Monitor)
      → IsOnce t (record m { pending_tick_checks = u ∷ us })
      → IsOnce t (record m {
        pending_tick_checks = us;
        queued_target_ticks = insert u m.queued_target_ticks;
        ready_tick_checks =
            insert_ready (record { at = now; tick = u; failures = 0 }) m.ready_tick_checks;
      })
  promoted-IsOnce now u us m h =
      let r : ReadyCheck = record { at = now; tick = u; failures = 0 } in
      let placed = h.placed in
      let fresh = h.fresh in
      elim (ℕ_discrete u t) [
        | yes e ↦
            let first : count t (u ∷ us) ≡ 1 + count t us = ground arith in
            let queued : count t (insert t m.queued_target_ticks) ≡ 1 =
              count-insert t 0 m.queued_target_ticks h.ordered in
            record {
              ordered = Up-insert 0 u m.queued_target_ticks (omega arith) h.ordered;
              placed =
                  let ready = ready_count-insert_new t r m.ready_tick_checks e (omega arith) in
                  let same : count t (insert u m.queued_target_ticks) ≡ 1 = rw e queued in
                  omega arith;
              fresh =
                  let same : count t (insert u m.queued_target_ticks) ≡ 1 = rw e queued in
                  omega arith;
              marked = h.marked;
            }
        | no n ↦
            let first : count t (u ∷ us) ≡ count t us = ground arith in
            record {
              ordered = Up-insert 0 u m.queued_target_ticks (omega arith) h.ordered;
              placed = omega (
                arith,
                ready_count-insert_other t r m.ready_tick_checks n,
                count-insert_other t u m.queued_target_ticks n,
              );
              fresh = omega (arith, count-insert_other t u m.queued_target_ticks n);
              marked = h.marked;
            }
      ]

  promote_due-IsOnce :
      (tick now : ℕ) (us : List ℕ) (m : Monitor)
      → IsOnce t (record m { pending_tick_checks = us })
      → IsOnce t (promote_due tick now us m)
        × ((promote_due tick now us m).tick_check ≡ m.tick_check)
  unfolding promote_due
  promote_due-IsOnce tick now [] m h = (h, refl)
  promote_due-IsOnce tick now (u ∷ us) m h =
      let next = promoted-IsOnce now u us m h in
      let rest = promote_due-IsOnce tick now us _ next in
      elim (Bool-cases (ltb tick (saturating_add u m.reveal_check_delay_ticks))) [
        | inl l ↦ rw (l, promote_due) (h, refl)
        | inr l ↦ rw (l, promote_due) rest
      ]

  started-IsOnce :
      (now : ℕ) (r : ReadyCheck) (m : Monitor)
      → newest_due now m.ready_tick_checks none ≡ some r
      → in_flight t m.tick_check ≡ 0
      → IsOnce t m
      → IsOnce t (record m {
        ready_tick_checks = remove_ready r m.ready_tick_checks;
        tick_check = some (record { target_tick = r.tick; failures = r.failures; task = running });
        next_tick_check_at = now + m.empty_tick_check_interval;
      })
  started-IsOnce now r m d f h =
      let there = newest_due-has_ready now m.ready_tick_checks r d in
      let placed = h.placed in
      elim (ℕ_discrete r.tick t) [
        | yes e ↦ record {
          ordered = h.ordered;
          placed = ground (arith, ready_count-remove t r m.ready_tick_checks e there);
          fresh = h.fresh;
          marked = h.marked;
        }
        | no n ↦ record {
          ordered = h.ordered;
          placed = ground (arith, ready_count-remove_other t r m.ready_tick_checks n);
          fresh = h.fresh;
          marked = h.marked;
        }
      ]

  start_newest-IsOnce :
      (now : ℕ) (m : Monitor)
      → in_flight t m.tick_check ≡ 0
      → IsOnce t m
      → IsOnce t (start_newest now m)
  unfolding start_newest
  start_newest-IsOnce now m f h = elim (Option-cases (newest_due now m.ready_tick_checks none)) [
    | inl e ↦ rw (e, start_newest) h
    | inr (r, e) ↦ rw (e, start_newest) (started-IsOnce now r m e f h)
  ]

  no_check : (c : Option PendingTickCheck) → is_some c ≡ false → in_flight t c ≡ 0
  no_check none h = refl
  no_check (some c) h = cc

  pub ensure_tick_check-IsOnce :
      (tick expire_now now : ℕ) (m : Monitor)
      → IsOnce t m
      → IsOnce t (ensure_tick_check tick expire_now now m)
  unfolding ensure_tick_check
  ensure_tick_check-IsOnce tick expire_now now m h =
      let m' = expire_tick_checks tick expire_now m in
      let h' = expire_tick_checks-IsOnce tick expire_now m h in
      elim (Bool-cases (is_some m'.tick_check)) [
        | inl s ↦ rw s h'
        | inr s ↦ rw s (elim (Bool-cases (ltb now m'.next_tick_check_at)) [
          | inl w ↦ rw w h'
          | inr w ↦
              let due = promote_due-IsOnce tick now m'.pending_tick_checks m' h' in
              rw w (start_newest-IsOnce now _ (rw due.1 (no_check m'.tick_check s)) due.0)
        ])
      ]
